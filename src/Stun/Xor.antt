-- ===== src/Stun/Xor.antt =====
-- Exclusive or on numbers of any width: it undoes itself.
use natcat.Base.{
  arith, bit_xor, if◌then◌else◌, refl, suc, zero, ℕ, ◌%◌, ◌*◌, ◌+◌, ◌/◌, ◌<◌, ◌==◌, ◌∙◌, ◌≡◌, ◌≤◌,
}
use Prim.Native.Nat.{bit_xor-bitwise, differ, digits}

abbrev xor_digits : ℕ → ℕ → ℕ → ℕ
xor_digits n a b = digits (λ b. b) differ n a b

-- More rounds than digits change nothing.
xor_digits_fuel : (n m a b : ℕ) → a ≤ n → a ≤ m → xor_digits n a b ≡ xor_digits m a b
xor_digits_fuel zero zero a b p q = refl
xor_digits_fuel zero (suc m) zero b p q = refl
xor_digits_fuel zero (suc m) (suc a) b p q = absurd (omega arith)
xor_digits_fuel (suc n) zero zero b p q = refl
xor_digits_fuel (suc n) zero (suc a) b p q = absurd (omega arith)
xor_digits_fuel (suc n) (suc m) zero b p q = refl
xor_digits_fuel (suc n) (suc m) (suc a) b p q =
    omega (arith, xor_digits_fuel n m (suc a / 2) (b / 2) (omega arith) (omega arith))

zero-bit_xor : (b : ℕ) → bit_xor 0 b ≡ b
zero-bit_xor b = bit_xor-bitwise 0 b

-- One bit: 0 on equal digits.
unfoldable flip : ℕ → ℕ → ℕ
flip x y = if x == y then 0 else 1

differ-flip : (x y : ℕ) → x < 2 → y < 2 → differ x y ≡ flip x y
unfolding flip
differ-flip zero y p q = ground arith
differ-flip (suc zero) zero p q = refl
differ-flip (suc zero) (suc zero) p q = refl
differ-flip (suc zero) (suc (suc y)) p q = absurd (omega arith)
differ-flip (suc (suc x)) y p q = absurd (omega arith)

-- The lowest digit, and the others.
bit_xor_step : (a b : ℕ) → bit_xor a b ≡ bit_xor (a / 2) (b / 2) * 2 + flip (a % 2) (b % 2)
unfolding flip
bit_xor_step zero b = ground (arith, zero-bit_xor b, zero-bit_xor (b / 2))
bit_xor_step (suc a) b = omega (
  arith,
  bit_xor-bitwise (suc a) b,
  bit_xor-bitwise (suc a / 2) (b / 2),
  xor_digits_fuel a (suc a / 2) (suc a / 2) (b / 2) (omega arith) (omega arith),
  differ-flip (suc a % 2) (b % 2) (omega arith) (omega arith),
)

flip-lt : (x y : ℕ) → flip x y < 2
unfolding flip
flip-lt x y = ground arith

flip-flip : (x y : ℕ) → x < 2 → y < 2 → flip (flip x y) y ≡ x
unfolding flip
flip-flip x y p q = ground arith

bit_xor_cancel_fuel : (n a b : ℕ) → a ≤ n → b ≤ n → bit_xor (bit_xor a b) b ≡ a
bit_xor_cancel_fuel zero zero zero p q = refl
bit_xor_cancel_fuel zero zero (suc b) p q = absurd (omega arith)
bit_xor_cancel_fuel zero (suc a) b p q = absurd (omega arith)
bit_xor_cancel_fuel (suc n) a b p q =
    bit_xor_step x b
    ∙ rw (half, digit)
        (omega (
          arith,
          bit_xor_cancel_fuel n (a / 2) (b / 2) (omega arith) (omega arith),
          flip-flip (a % 2) (b % 2) (omega arith) (omega arith),
        ))
  where
    x : ℕ
    x = bit_xor a b

    half : x / 2 ≡ bit_xor (a / 2) (b / 2)
    half = omega (arith, bit_xor_step a b, flip-lt (a % 2) (b % 2))

    digit : x % 2 ≡ flip (a % 2) (b % 2)
    digit = omega (arith, bit_xor_step a b, flip-lt (a % 2) (b % 2))

pub bit_xor_cancel : (a b : ℕ) → bit_xor (bit_xor a b) b ≡ a
bit_xor_cancel a b = bit_xor_cancel_fuel (a + b) a b (omega arith) (omega arith)
