-- ===== src/Rotation/Order.antt =====
-- The order in which servers are tried is a rotation of the configured list.
use mathlib.Core.List.{Perm, append-nil, append_assoc, perm_append_comm}
use mathlib.Core.Path.{ap₂}
use native.Mathlib.Nat.{mod-eq_of_lt}
use natcat.Base.{
  Bool-cases, List, Option, [], any, ap, arith, drop, drop-append, false, inl, inr, is_nil, leb,
  length, length-append, mod_self, refl, some, subst, sym, take, take-append, take-append-drop,
  zero_mod, ℕ, ◌%◌, ◌++◌, ◌+◌, ◌<◌, ◌∙◌, ◌∷◌, ◌≡◌, ◌≤◌, ◌⊎◌,
}
use natcat.Dict.{text_eq_refl}
use natcat.Int.{eq_ℤ_iff}
use natcat.Rotation.{
  Cursors, choose_start, cursor, cursor-put, index_of_server_endpoint, ordered_server_endpoints,
  rotate_server_endpoints, same_server_endpoint, set_server_cursor, start_after,
}
use natcat.Text.{Text, equal_fold, to_lower}
use natcat.Types.{ServerEndpoint}
use mathlib.Core.List.Perm

rotate_server_endpoints-perm :
    (endpoints : List ServerEndpoint) (start : ℕ)
    → Perm (rotate_server_endpoints endpoints start) endpoints
unfolding rotate_server_endpoints
rotate_server_endpoints-perm [] start = Perm.refl []
rotate_server_endpoints-perm (e ∷ rest) start =
    let n = start % length (e ∷ rest) in
    Perm.trans (perm_append_comm (drop n (e ∷ rest)) (take n (e ∷ rest))) (
      subst (λ l. Perm (take n (e ∷ rest) ++ drop n (e ∷ rest)) l) (take-append-drop n (e ∷ rest))
        (Perm.refl _))

-- Whatever server comes first, every configured server is tried, as often as it is listed.
pub ordered_server_endpoints-perm :
    (cs : Cursors) (kind : Text) (endpoints : List ServerEndpoint) (after : Option ServerEndpoint)
    → Perm (ordered_server_endpoints cs kind endpoints after).1 endpoints
unfolding ordered_server_endpoints
ordered_server_endpoints-perm cs kind endpoints after =
    elim (Bool-cases (leb (length endpoints) 1)) [
      | inl e ↦ rw e (Perm.refl endpoints)
      | inr e ↦ rw e (rotate_server_endpoints-perm endpoints _)
    ]

is_nil-append :
    (before : List ServerEndpoint) (e : ServerEndpoint) (after : List ServerEndpoint)
    → is_nil (before ++ e ∷ after) ≡ false
is_nil-append [] e after = refl
is_nil-append (x ∷ before) e after = refl

Nat-cases : (n : ℕ) → (n ≡ 0) ⊎ (0 < n)
Nat-cases n = omega arith

index_of-append :
    (before : List ServerEndpoint) (e : ServerEndpoint) (after : List ServerEndpoint)
    → any (λ x. same_server_endpoint x e) before ≡ false
    → index_of_server_endpoint (before ++ e ∷ after) e ≡ some (length before)
unfolding index_of_server_endpoint same_server_endpoint equal_fold
index_of-append [] e after h =
    ground (arith, text_eq_refl (to_lower e.host), eq_ℤ_iff e.port e.port)
index_of-append (x ∷ before) e after h = ground (arith, index_of-append before e after)

rotate_behind :
    (before : List ServerEndpoint) (e : ServerEndpoint) (after : List ServerEndpoint)
    → let endpoints = before ++ e ∷ after in
      rotate_server_endpoints endpoints ((length before + 1) % length endpoints)
      ≡ after ++ (before ++ e ∷ [])
unfolding rotate_server_endpoints
rotate_behind before e after = rw (is_nil-append before e after) (elim (Nat-cases (length after)) [
  | inl none_behind ↦ last none_behind
  | inr some_behind ↦ inside some_behind
])
  where
    m : ℕ
    m = length before + 1

    endpoints : List ServerEndpoint
    endpoints = before ++ e ∷ after

    front : List ServerEndpoint
    front = before ++ e ∷ []

    shape : endpoints ≡ front ++ after
    shape = sym (append_assoc before (e ∷ []) after)

    total : length endpoints ≡ m + length after
    total = omega (arith, length-append before (e ∷ after))

    front_length : m ≡ length front
    front_length = omega (arith, length-append before (e ∷ []))

    cut : ℕ → List ServerEndpoint
    cut n = drop n endpoints ++ take n endpoints

    no_rest : (l : List ServerEndpoint) → length l ≡ 0 → l ≡ []
    no_rest [] z = refl
    no_rest (x ∷ l) z = absurd (omega arith)

    last : length after ≡ 0 → cut (m % length endpoints % length endpoints) ≡ after ++ front
    last z = ap cut (zero_at z) ∙ append-nil endpoints ∙ rw (no_rest after z) refl
      where
        zero_at : length after ≡ 0 → m % length endpoints % length endpoints ≡ 0
        zero_at none_behind =
            let full : length endpoints ≡ m = omega (arith, total) in
            rw full (ap (λ n. n % m) (mod_self m) ∙ zero_mod m)

    inside : 0 < length after → cut (m % length endpoints % length endpoints) ≡ after ++ front
    inside more =
        ap cut (ap (λ n. n % length endpoints) (mod-eq_of_lt below) ∙ mod-eq_of_lt below)
        ∙ rw (shape, front_length) (ap₂ ◌++◌ (drop-append front after) (take-append front after))
      where
        below : m < length endpoints
        below = omega (arith, total)

-- After a server of a list of two or more has failed, the servers behind it are tried in their
-- order, then those in front of it, and it comes last itself; the cursor stands behind the server
-- that is now tried first.
pub ordered_server_endpoints_after :
    (cs : Cursors) (kind : Text) (before : List ServerEndpoint) (e : ServerEndpoint)
    (after : List ServerEndpoint)
    → any (λ x. same_server_endpoint x e) before ≡ false
    → 2 ≤ length (before ++ e ∷ after)
    → let endpoints = before ++ e ∷ after in
      let result = ordered_server_endpoints cs kind endpoints (some e) in
      (result.1 ≡ after ++ (before ++ e ∷ []))
      × (cursor result.0 kind ≡ (length before + 1) % length endpoints + 1)
unfolding ordered_server_endpoints set_server_cursor start_after choose_start
ordered_server_endpoints_after cs kind before e after first two =
    rw (two_or_more, index_of-append before e after first)
      (
        rotate_behind before e after,
        cursor-put cs kind ((length before + 1) % length (before ++ e ∷ after) + 1),
      )
  where
    two_or_more : leb (length (before ++ e ∷ after)) 1 ≡ false
    two_or_more = ground arith
