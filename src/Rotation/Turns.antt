-- ===== src/Rotation/Turns.antt =====
-- Successive rounds go through all servers.
use native.Mathlib.Nat.{mod-add-mod}
use natcat.Base.{ap, arith, suc, zero, ℕ, ◌%◌, ◌*◌, ◌+◌, ◌<◌, ◌∙◌, ◌≡◌}
use natcat.Rotation.{Cursors, cursor, cursor-put, next_server_cursor_step}
use natcat.Text.{Text}

-- The cursors after `k` rounds over `len` servers.
unfoldable pub after_rounds : Cursors → Text → ℕ → ℕ → ℕ → Cursors
after_rounds cs kind len step zero = cs
after_rounds cs kind len step (suc k) =
    (next_server_cursor_step (after_rounds cs kind len step k) kind len step).0

module _ (cs : Cursors) (kind : Text) (len step : ℕ) (some_server : 0 < len)
    (forward : 0 < step) where
  abbrev before_round : ℕ → Cursors
  before_round k = after_rounds cs kind len step k

  step_lem :
      (c : Cursors)
      → (cursor (next_server_cursor_step c kind len step).0 kind ≡ cursor c kind % len + step)
        × ((next_server_cursor_step c kind len step).1 ≡ cursor c kind % len)
  unfolding next_server_cursor_step
  step_lem c = ground (arith, cursor-put c kind (cursor c kind % len + step))

  place : (k : ℕ) → cursor (before_round k) kind % len ≡ (cursor cs kind + k * step) % len
  unfolding after_rounds
  place zero = ap (λ n. n % len) (omega arith)
  place (suc k) =
      ap (λ n. n % len) ((step_lem (before_round k)).0 ∙ ap (λ n. n + step) (place k))
      ∙ mod-add-mod (cursor cs kind + k * step) len step
      ∙ ap (λ n. n % len) (grind arith)

  -- Round `k`, counted from 0, begins `k` steps behind the place where the cursor stood first,
  -- over and over the list.
  pub next_server_cursor_step-after_rounds :
      (k : ℕ)
      → (next_server_cursor_step (after_rounds cs kind len step k) kind len step).1
        ≡ (cursor cs kind + k * step) % len
  next_server_cursor_step-after_rounds k = (step_lem (before_round k)).1 ∙ place k
