-- ===== src/Dict/All.antt =====
-- Predicates at every entry of a map.
use natcat.Base.{All, Bool-cases, List, [], arith, inl, inr, some, subst, ◌∷◌, ◌≡◌}
use natcat.Dict.{get, put, remove}
use natcat.Text.{Text, text_eq}

module _ {V : Type 0} (P : Text × V → Type 0) where
  pub All-put : (k : Text) (v : V) (m : List (Text × V)) → All P m → P (k, v) → All P (put k v m)
  unfolding put
  All-put k v [] a p = (p, tt)
  All-put k v ((j, w) ∷ m) a p = elim (Bool-cases (text_eq j k)) [
    | inl e ↦ rw e (p, a.1)
    | inr e ↦ rw e (a.0, All-put k v m (a.1) p)
  ]

  pub All-remove : (k : Text) (m : List (Text × V)) → All P m → All P (remove k m)
  unfolding remove
  All-remove k [] a = tt
  All-remove k ((j, w) ∷ m) a = elim (Bool-cases (text_eq j k)) [
    | inl e ↦ rw e (All-remove k m (a.1))
    | inr e ↦ rw e (a.0, All-remove k m (a.1))
  ]

  pub All-get :
      (k : Text) (v : V) (m : List (Text × V)) → All P m → get k m ≡ some v → (j : Text) × P (j, v)
  unfolding get
  All-get k v [] a h = cc
  All-get k v ((j, w) ∷ m) a h = elim (Bool-cases (text_eq j k)) [
    | inl e ↦ (j, subst (λ x. P (j, x)) (ground (arith, e)) (a.0))
    | inr e ↦ All-get k v m (a.1) (ground (arith, e))
  ]
