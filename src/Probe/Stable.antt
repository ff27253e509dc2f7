-- ===== src/Probe/Stable.antt =====
-- A mapping that stays the same is confirmed within the attempts that the loop makes.
use natcat.Base.{
  Bool-cases, ap, arith, false, inl, inr, leb, none, refl, subst, suc, true, zero, ℕ, ◌+◌, ◌-◌, ◌<◌,
  ◌==◌, ◌≡◌, ◌≤◌, ◌⊎◌,
}
use natcat.Int.{leb_ℤ, pos, pos_part, ℤ, ◌≤ℤ◌}
use natcat.Probe.{
  Env, LoopState, after_sample, confirm_loop, confirm_public_probe, max_attempts, same_result,
  sample, start_state,
}
use natcat.Result.{ok}
use natcat.Stun.{StunResult}

-- The loop makes more attempts than it needs confirmations.
pub max_attempts-ge :
    (confirmations : ℤ) (endpoint_count : ℕ)
    → pos 2 ≤ℤ confirmations
    → pos_part confirmations + 2 ≤ max_attempts confirmations endpoint_count
unfolding max_attempts
max_attempts-ge confirmations endpoint_count h = ground arith

-- Every probe answers, with results that agree, and the context is never done.
pub record IsStable (env : Env) (f : ℕ → StunResult) : Type 0 where
  pub answers : (k : ℕ) → env.probe k ≡ ok (f k)
  pub agree : (k : ℕ) → same_result (f 0) (f k) ≡ true
  pub ctx_open : (k : ℕ) → env.ctx_done k ≡ false
  pub wait_open : (k : ℕ) → env.wait_done k ≡ false

-- The state before attempt `k`: `k` samples agree with the first one.
record Agreed (f : ℕ → StunResult) (k : ℕ) (s : LoopState) : Type 0 where
  counted : s.count ≡ k
  first : (k ≡ 0) ⊎ (s.candidate ≡ f 0)

module _ (env : Env) (f : ℕ → StunResult) (stable : IsStable env f) (need : ℕ) where
  sample-Agreed : (k : ℕ) (s : LoopState) → Agreed f k s → Agreed f (suc k) (sample s (f k))
  unfolding sample
  sample-Agreed k s a = ground (arith, stable.agree k)

  confirm_loop_stable :
      (left k : ℕ) (s : LoopState)
      → Agreed f k s
      → k < need
      → need ≤ k + left
      → (confirm_loop env need left k s).1 ≡ ok (f (need - 1))
  unfolding confirm_loop after_sample
  confirm_loop_stable zero k s a lt le = absurd (omega arith)
  confirm_loop_stable (suc left) k s a lt le =
      let b = sample-Agreed k s a in
      rw (stable.answers k, confirm_loop)
        (elim (Bool-cases (leb need (sample s (f k)).count)) [
          | inl enough ↦ rw enough (ap (λ n. ok (f n)) (ground (arith, b.counted)))
          | inr few ↦
              let more : (left == 0) ≡ false = ground (arith, b.counted) in
              rw (few, stable.ctx_open k, after_sample)
                (rw (more, after_sample)
                  (rw (stable.wait_open k, after_sample)
                    (next (
                      confirm_loop_stable left (suc k) (sample s (f k)) b
                        (ground (arith, b.counted)) (omega arith)))))
        ])
    where
      next :
          {r : StunResult}
          → (confirm_loop env need left (suc k) (sample s (f k))).1 ≡ ok r
          → (confirm_loop env need left (k + 1) (sample s (f k))).1 ≡ ok r
      next {r} = subst (λ n. (confirm_loop env need left n (sample s (f k))).1 ≡ ok r) (omega arith)

-- While the probes keep answering with one address and port, and nothing cancels the context, a
-- fresh confirmation succeeds: with the first probe's result where one confirmation is enough, and
-- else with the result of as many probes as the configuration asks for.
pub confirm_public_probe_stable :
    (env : Env) (f : ℕ → StunResult) (confirmations : ℤ) (endpoint_count : ℕ)
    → IsStable env f
    → (confirm_public_probe env confirmations endpoint_count none).1
      ≡ ok (f (pos_part confirmations - 1))
unfolding confirm_public_probe
confirm_public_probe_stable env f confirmations endpoint_count stable =
    elim (Bool-cases (leb_ℤ confirmations (pos 1))) [
      | inl one ↦ rw (one, stable.answers 0) (ap (λ n. ok (f n)) (ground arith))
      | inr several ↦
          let two : pos 2 ≤ℤ confirmations = ground arith in
          rw several (
            confirm_loop_stable env f stable (pos_part confirmations) _ 0 (start_state none)
              (record { counted = refl; first = inl refl }) (ground arith)
              (omega (arith, max_attempts-ge confirmations endpoint_count two)))
    ]
