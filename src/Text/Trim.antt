-- ===== src/Text/Trim.antt =====
-- Trimming and lower case: what a second pass does, and how the two commute.
use natcat.Base.{Bool, Bool-cases, [], ap, arith, inl, inr, is_nil, map, refl, ℕ, ◌∙◌, ◌∷◌, ◌≡◌}
use natcat.Text.{Text, drop_while, is_space, lower, to_lower, trim, trim_right, trim_space}

module _ (p : ℕ → Bool) where
  pub trim_right_idem : (s : Text) → trim_right p (trim_right p s) ≡ trim_right p s
  unfolding trim_right
  trim_right_idem [] = refl
  trim_right_idem (c ∷ s) = ground (arith, trim_right_idem s)

  drop_while-trim_right :
      (s : Text) → drop_while p (trim_right p (drop_while p s)) ≡ trim_right p (drop_while p s)
  unfolding drop_while trim_right
  drop_while-trim_right [] = refl
  drop_while-trim_right (c ∷ s) = elim (Bool-cases (p c)) [
    | inl e ↦ rw e (drop_while-trim_right s)
    | inr e ↦ ground arith
  ]

  -- A second trim changes nothing.
  pub trim_idem : (s : Text) → trim p (trim p s) ≡ trim p s
  unfolding trim
  trim_idem s = ap (trim_right p) (drop_while-trim_right s) ∙ trim_right_idem (drop_while p s)

pub trim_space_idem : (s : Text) → trim_space (trim_space s) ≡ trim_space s
unfolding trim_space
trim_space_idem = trim_idem _

lower_idem : (c : ℕ) → lower (lower c) ≡ lower c
unfolding lower
lower_idem c = ground arith

pub to_lower_idem : (s : Text) → to_lower (to_lower s) ≡ to_lower s
unfolding to_lower
to_lower_idem [] = refl
to_lower_idem (c ∷ s) = ground (arith, lower_idem c, to_lower_idem s)

module _ (p : ℕ → Bool) (f : ℕ → ℕ) (keeps : (c : ℕ) → p (f c) ≡ p c) where
  drop_while-map : (s : Text) → drop_while p (map f s) ≡ map f (drop_while p s)
  unfolding drop_while
  drop_while-map [] = refl
  drop_while-map (c ∷ s) = ground (arith, keeps c, drop_while-map s)

  is_nil-map : (s : Text) → is_nil (map f s) ≡ is_nil s
  is_nil-map [] = refl
  is_nil-map (c ∷ s) = refl

  trim_right-map : (s : Text) → trim_right p (map f s) ≡ map f (trim_right p s)
  unfolding trim_right
  trim_right-map [] = refl
  trim_right-map (c ∷ s) = ground (arith, keeps c, trim_right-map s, is_nil-map (trim_right p s))

  pub trim-map : (s : Text) → trim p (map f s) ≡ map f (trim p s)
  unfolding trim
  trim-map s = rw (drop_while-map s) (trim_right-map (drop_while p s))

is_space-lower : (c : ℕ) → is_space (lower c) ≡ is_space c
unfolding is_space lower
is_space-lower c = ground arith

-- Trimming and lowering the case commute.
pub trim_space-to_lower : (s : Text) → trim_space (to_lower s) ≡ to_lower (trim_space s)
unfolding trim_space to_lower
trim_space-to_lower = trim-map _ lower is_space-lower
