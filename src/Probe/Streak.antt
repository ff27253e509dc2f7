-- ===== src/Probe/Streak.antt =====
-- A confirmed address was seen as often in a row as the configuration asks for.
use natcat.Base.{
  Bool-cases, ap, arith, false, inl, inr, leb, leb→le, none, not, subst, suc, true, zero, ℕ, ◌+◌,
  ◌==◌, ◌||◌, ◌∙◌, ◌≡◌, ◌≤◌,
}
use natcat.Int.{leb_ℤ, pos, pos_part, ℤ, ◌≤ℤ◌}
use natcat.Net.{ip_equal_refl}
use natcat.Probe.{
  ConfirmError, Env, LoopState, Outcome, after_sample, confirm_loop, confirm_public_probe, finish,
  is_round_failed, reset, same_result, sample, start_state,
}
use natcat.Result.{Result, Result-cases, err, ok}
use natcat.Stun.{StunResult}

-- The `n` attempts before number `k` all succeeded, with results that agree with `c`.
abbrev pub Streak : Env → StunResult → ℕ → ℕ → Type 0
Streak env c zero k = Unit
Streak env c (suc n) zero = ⊥
Streak env c (suc n) (suc k) =
    (r : StunResult) × (env.probe k ≡ ok r) × (same_result c r ≡ true) × Streak env c n k

same_result_refl : (r : StunResult) → same_result r r ≡ true
unfolding same_result
same_result_refl r = ground (arith, ip_equal_refl r.ip)

-- A success, with the attempt that completed it.
abbrev Confirmed : Env → ℕ → StunResult → Type 0
Confirmed env need r = (c : StunResult) × (k : ℕ) × Streak env c need (suc k) × (env.probe k ≡ ok r)

sample-Streak :
    (env : Env) (k : ℕ) (s : LoopState) (r : StunResult)
    → env.probe k ≡ ok r
    → Streak env s.candidate s.count k
    → Streak env (sample s r).candidate (sample s r).count (suc k)
unfolding sample
sample-Streak env k s r e h = elim (Bool-cases (s.count == 0 || not (same_result s.candidate r))) [
  | inl fresh ↦ rw fresh (r, e, same_result_refl r, tt)
  | inr more ↦
      let next : s.count + 1 ≡ suc s.count = omega arith in rw (more, next) (r, e, ground arith, h)
]

Streak-take : (env : Env) (c : StunResult) (n m k : ℕ) → n ≤ m → Streak env c m k → Streak env c n k
Streak-take env c zero m k h st = tt
Streak-take env c (suc n) zero k h st = absurd (omega arith)
Streak-take env c (suc n) (suc m) zero h st = st
Streak-take env c (suc n) (suc m) (suc k) h (r, e, same, st) =
    (r, e, same, Streak-take env c n m k (omega arith) st)

finish-ne-ok : (s : LoopState) {r : StunResult} → (finish s).1 ≡ ok r → ⊥
unfolding finish
finish-ne-ok s h = ground arith

ok-injective : {q r : StunResult} → ◌≡◌ {A = Result ConfirmError StunResult} (ok q) (ok r) → q ≡ r
ok-injective h = cc

-- A success behind a round is one of the rounds that are left.
after_sample-ok :
    (env : Env) (left k : ℕ) (s : LoopState) (rest : Outcome) (r : StunResult)
    → (after_sample env left k s rest).1 ≡ ok r
    → rest.1 ≡ ok r
unfolding after_sample
after_sample-ok env left k s rest r h = ground (arith, finish-ne-ok s {r = r})

confirm_loop-Confirmed :
    (env : Env) (need left k : ℕ) (s : LoopState) {r : StunResult}
    → Streak env s.candidate s.count k
    → (confirm_loop env need left k s).1 ≡ ok r
    → Confirmed env need r
unfolding confirm_loop
confirm_loop-Confirmed env need zero k s st h = absurd (finish-ne-ok s h)
confirm_loop-Confirmed env need (suc left) k s {r} st h = elim (Result-cases (env.probe k)) [
  | inl (q, e) ↦ elim (Bool-cases (leb need (sample s q).count)) [
    | inl enough ↦
        let same : q ≡ r = ok-injective (rw (e, confirm_loop, enough) at h) in
        let seen = sample-Streak env k s q e st in
        (
          (sample s q).candidate,
          k,
          Streak-take env _ need _ (suc k) (leb→le need _ enough) seen,
          e ∙ ap ok same,
        )
    | inr few ↦
        confirm_loop-Confirmed env need left (suc k) (sample s q) (sample-Streak env k s q e st) (
          one_more _ (after_sample-ok env left k (sample s q) _ r (rw (e, confirm_loop, few) at h)))
  ]
  | inr (q, e) ↦ elim (Bool-cases (is_round_failed q)) [
    | inl gone ↦ absurd (not-ok (rw (e, confirm_loop, gone) at h))
    | inr other_error ↦
        confirm_loop-Confirmed env need left (suc k) (reset s q) (unfold reset in tt) (
          one_more _
            (after_sample-ok env left k (reset s q) _ r (rw (e, confirm_loop, other_error) at h)))
  ]
]
  where
    one_more :
        (t : LoopState)
        → (confirm_loop env need left (k + 1) t).1 ≡ ok r
        → (confirm_loop env need left (suc k) t).1 ≡ ok r
    one_more t = subst (λ n. (confirm_loop env need left n t).1 ≡ ok r) (omega arith)

    not-ok : {x : ConfirmError} → ◌≡◌ {A = Result ConfirmError StunResult} (err x) (ok r) → ⊥
    not-ok h = cc

-- With two confirmations or more and nothing carried over, a result is returned only after that
-- many attempts in a row, the last of which gave the result, succeeded with one and the same
-- public address and port.
pub confirm_public_probe-Streak :
    (env : Env) (confirmations : ℤ) (endpoint_count : ℕ) {r : StunResult}
    → pos 2 ≤ℤ confirmations
    → (confirm_public_probe env confirmations endpoint_count none).1 ≡ ok r
    → (c : StunResult) × (k : ℕ) × Streak env c (pos_part confirmations) (suc k)
      × (env.probe k ≡ ok r)
unfolding confirm_public_probe
confirm_public_probe-Streak env confirmations endpoint_count {r} two h =
    let several : leb_ℤ confirmations (pos 1) ≡ false = ground arith in
    confirm_loop-Confirmed env _ _ 0 (start_state none) tt (rw several at h)
