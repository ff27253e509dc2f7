-- ===== src/Port/Cycle.antt =====
-- A sequential picker goes through its range in order, again and again.
use native.Mathlib.Nat.{mod-add-mod, mod-eq_of_lt, mod-lt}
use natcat.Base.{
  Bool-cases, Option, ap, arith, false, if◌then◌else◌, inl, inr, mod_self, suc, sym, zero, ℕ, ◌%◌,
  ◌+◌, ◌<◌, ◌==◌, ◌∙◌, ◌≡◌,
}
use natcat.Int.{eq_ℤ_iff, pos}
use natcat.Port.{PortPicker, next_port, no_port, size}

-- The picker after `k` calls of `Next`.
unfoldable pub after_calls : PortPicker → (ℕ → Option ℕ) → ℕ → PortPicker
after_calls p rand zero = p
after_calls p rand (suc k) = (next_port (after_calls p rand k) rand).0

-- What stays as it is between the calls, and where the next port stands.
record At (p q : PortPicker) (k : ℕ) : Type 0 where
  same_start : q.start ≡ p.start
  same_end : q.end ≡ p.end
  same_kind : q.randomized ≡ p.randomized
  place : q.next ≡ p.start + k % size p

next_mod : (k n : ℕ) → 0 < n → suc k % n ≡ (if suc (k % n) == n then 0 else suc (k % n))
next_mod k n h = elim (Bool-cases (suc (k % n) == n)) [
  | inl e ↦
      rw e (let top : k % n + 1 ≡ n = ground arith in succ_mod ∙ ap (λ t. t % n) top ∙ mod_self n)
  | inr e ↦ rw e (
      let below : k % n + 1 < n = ground (arith, mod-lt k h) in
      succ_mod ∙ mod-eq_of_lt below ∙ omega arith)
]
  where
    succ_mod : suc k % n ≡ (k % n + 1) % n
    succ_mod = ap (λ t. t % n) (omega arith) ∙ sym (mod-add-mod k n 1)

module _ (p : PortPicker) (rand : ℕ → Option ℕ) where
  At-step :
      (q : PortPicker) (k : ℕ)
      → p.randomized ≡ false
      → p.start < p.end
      → At p q k
      → At p (next_port q rand).0 (suc k)
  unfolding next_port
  At-step q k r lt a = ground (arith, next_mod k (size p), eq_ℤ_iff (pos q.next) no_port)

  At-after_calls :
      (k : ℕ)
      → p.randomized ≡ false
      → p.start < p.end
      → p.next ≡ p.start
      → At p (after_calls p rand k) k
  unfolding after_calls
  At-after_calls zero r lt s = ground arith
  At-after_calls (suc k) r lt s = At-step (after_calls p rand k) k r lt (At-after_calls k r lt s)

  -- Call number `k` of `Next`, counted from 0, on a fresh sequential picker of two ports or more
  -- returns the start plus `k` modulo the size of the range: the ports come in order and start
  -- over behind the last.
  pub next_port-after_calls :
      (k : ℕ)
      → p.randomized ≡ false
      → p.start < p.end
      → p.next ≡ p.start
      → (next_port (after_calls p rand k) rand).1 ≡ p.start + k % size p
  unfolding next_port
  next_port-after_calls k r lt s =
      let a = At-after_calls k r lt s in
      ground (arith, a, eq_ℤ_iff (pos (after_calls p rand k).next) no_port)
