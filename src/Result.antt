-- ===== src/Result.antt =====
-- Go's pair of a value and an error: one of the two.
use natcat.Base.{Bool, Option, false, inl, inr, none, refl, some, true, ◌↔◌, ◌≡◌, ◌⊎◌}

pub data Result (E A : Type 0) : Type 0 where
  ok : A → Result E A
  err : E → Result E A

infixl 5 ◌>>=◌ ◌>>◌
abbrev pub ◌>>=◌ : {E A B : Type 0} → Result E A → (A → Result E B) → Result E B
ok a >>= f = f a
err e >>= f = err e

abbrev pub ◌>>◌ : {E B : Type 0} → Result E (Unit {0}) → Result E B → Result E B
m >> k = m >>= λ _. k

abbrev pub or_fail : {E A : Type 0} → Option A → E → Result E A
or_fail none e = err e
or_fail (some a) e = ok a

-- `if test { return error }`.
abbrev pub fail_if : {E : Type 0} → Bool → E → Result E (Unit {0})
fail_if true e = err e
fail_if false e = ok tt

-- A value came out.
abbrev pub is_ok : {E A : Type 0} → Result E A → Bool
is_ok (ok a) = true
is_ok (err e) = false

pub fail_if-eq-ok : {E : Type 0} (b : Bool) (e : E) {u : Unit {0}} → fail_if b e ≡ ok u → b ≡ false
fail_if-eq-ok true e h = cc
fail_if-eq-ok false e h = refl

pub Result-cases :
    {E A : Type 0} (r : Result E A) → ((a : A) × (r ≡ ok a)) ⊎ ((e : E) × (r ≡ err e))
Result-cases (ok a) = inl (a, refl)
Result-cases (err e) = inr (e, refl)

-- A chain of tests succeeds exactly if the first passes and the others do.
pub fail_if-then :
    {E : Type 0} (b : Bool) (e : E) (k : Result E (Unit {0}))
    → (fail_if b e >> k ≡ ok tt) ↔ ((b ≡ false) × (k ≡ ok tt))
fail_if-then true e k = (λ h. cc, λ h. cc (h.0))
fail_if-then false e k = (λ h. (refl, h), λ h. h.1)
