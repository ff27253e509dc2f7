-- ===== src/Base/Mod.antt =====
-- Remainders by a variable.
use Prim.Native.Nat.{ℕ, ◌%◌}
use mathlib.Core.Path.{◌≡◌, ap, ◌∙◌}
use native.Mathlib.Nat.{mod-eq-sub-mod, le_refl}
use native.Mathlib.Omega.{arith}

pub zero_mod : (n : ℕ) → 0 % n ≡ 0
zero_mod n = omega arith

pub mod_self : (n : ℕ) → n % n ≡ 0
mod_self n = mod-eq-sub-mod (le_refl n) ∙ ap (λ t. t % n) (omega arith) ∙ zero_mod n
