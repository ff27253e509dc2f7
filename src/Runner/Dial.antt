-- ===== src/Runner/Dial.antt =====
-- internal/core/runner.go: `dialTCP`, which waits for a local address that is busy. It runs until a
-- dial is final, on fuel: a number of dials.
use natcat.Base.{Bool, Option, if◌then◌else◌, none, not, some, suc, zero, ℕ, ◌||◌}
use natcat.Result.{Result, err, ok}
use natcat.Runner.{is_local_address_busy}
use natcat.Text.{Text}

-- A dial: the text of its error, none where it connects; whether the context is done behind it,
-- whether the deadline of 30 seconds is over, and whether the context ends in the pause.
pub record DialTry : Type 0 where
  pub failed_with : Option Text
  pub is_done : Bool
  pub too_late : Bool
  pub pause_done : Bool

-- A context that is done gives its own error.
pub data DialError : Type 0 where
  context_error : DialError
  dial_error : Text → DialError

-- The dials from number `at` on: the number of the one that connected; none out of fuel.
unfoldable pub dial_tcp : (ℕ → DialTry) → ℕ → ℕ → Option (Result DialError ℕ)
dial_tcp tries zero at = none
dial_tcp tries (suc fuel) at =
    let rest = dial_tcp tries fuel (suc at) in
    elim (tries at).failed_with [
      | none ↦ some (ok at)
      | some message ↦
          if (tries at).is_done
          then some (err context_error)
          else if not (is_local_address_busy message) || (tries at).too_late
          then some (err (dial_error message))
          else if (tries at).pause_done
          then some (err context_error)
          else rest
    ]
