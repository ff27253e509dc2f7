-- ===== src/Probe.antt =====
-- internal/core/runner.go, `confirmPublicProbeWithProgress`: a public address counts once enough
-- samples in a row agree on it.
-- What the probe answers to each attempt, counted from 0, and whether the context is done when the
-- source looks at it, are given by an `Env`. The log lines are left out.
pub mod Streak
pub mod Stable
use natcat.Base.{
  Bool, Option, false, if◌then◌else◌, leb, ltb, none, not, some, suc, true, zero, ℕ, ◌&&◌, ◌*◌, ◌+◌,
  ◌==◌, ◌||◌,
}
use natcat.Int.{leb_ℤ, pos, pos_part, ℤ}
use natcat.Net.{ip_equal}
use natcat.Result.{Result, err, ok}
use natcat.Stun.{StunResult, no_result}
use natcat.Text.{Text}

pub record Progress : Type 0 where
  pub candidate : StunResult
  pub count : ℕ

pub data ProbeError : Type 0 where
  round_failed : Text → ProbeError
  other : Text → ProbeError

-- `errors.Is(err, errPublicProbeRoundFailed)`.
abbrev pub is_round_failed : ProbeError → Bool
is_round_failed (round_failed _) = true
is_round_failed (other _) = false

pub record Env : Type 0 where
  pub probe : ℕ → Result ProbeError StunResult
  pub ctx_done : ℕ → Bool
  pub wait_done : ℕ → Bool

pub data ConfirmError : Type 0 where
  probe_error : ProbeError → ConfirmError
  context_done : ConfirmError
  not_confirmed : StunResult → ℕ → ConfirmError
  attempts_failed : ProbeError → ConfirmError
  attempts_exhausted : ConfirmError

-- `samePublicProbeResult`.
unfoldable pub same_result : StunResult → StunResult → Bool
same_result a b = a.port == b.port && ip_equal a.ip b.ip

-- `publicProbeMaxAttempts`.
unfoldable pub max_attempts : ℤ → ℕ → ℕ
max_attempts confirmations endpoint_count =
    let c = pos_part confirmations in
    let n = if ltb endpoint_count 1 then 1 else endpoint_count in
    if leb_ℤ confirmations (pos 1) then 1 else if ltb (c * n * 2) (c + 2) then c + 2 else c * n * 2

-- The variables of the loop.
pub record LoopState : Type 0 where
  pub candidate : StunResult
  pub count : ℕ
  pub last_err : Option ProbeError
  pub progress : Option Progress

abbrev pub Outcome : Type 0
Outcome = Option Progress × Result ConfirmError StunResult

-- `if progress != nil { progress.candidate = …; progress.count = … }`.
abbrev pub save : Option Progress → StunResult → ℕ → Option Progress
save none candidate count = none
save (some _) candidate count = some (record { candidate = candidate; count = count })

-- A sample that succeeded.
unfoldable pub sample : LoopState → StunResult → LoopState
sample s r =
    let fresh = s.count == 0 || not (same_result s.candidate r) in
    let candidate = if fresh then r else s.candidate in
    let count = if fresh then 1 else s.count + 1 in
    record {
      candidate = candidate;
      count = count;
      last_err = none;
      progress = save s.progress candidate count;
    }

-- A sample that failed for another reason than its round.
unfoldable pub reset : LoopState → ProbeError → LoopState
reset s e = record {
  candidate = no_result;
  count = 0;
  last_err = some e;
  progress = save s.progress no_result 0;
}

-- Behind the loop.
unfoldable pub finish : LoopState → Outcome
finish s = if ltb 0 s.count then (s.progress, err (not_confirmed s.candidate s.count)) else (
  s.progress,
  err (elim s.last_err [ none ↦ attempts_exhausted | some e ↦ attempts_failed e ]),
)

-- The end of a round, before `rest`, the rounds that are left.
unfoldable pub after_sample : Env → ℕ → ℕ → LoopState → Outcome → Outcome
after_sample env left attempt s rest =
    if env.ctx_done attempt
    then (s.progress, err context_done)
    else if left == 0
    then finish s
    else if env.wait_done attempt
    then (s.progress, err context_done)
    else rest

-- `left` rounds of the loop, from number `attempt` on.
unfoldable pub confirm_loop : Env → ℕ → ℕ → ℕ → LoopState → Outcome
confirm_loop env need zero attempt s = finish s
confirm_loop env need (suc left) attempt s = elim (env.probe attempt) [
  | err e ↦
      let rest = confirm_loop env need left (attempt + 1) (reset s e) in
      if is_round_failed e
      then (save s.progress s.candidate s.count, err (probe_error e))
      else after_sample env left attempt (reset s e) rest
  | ok r ↦
      let rest = confirm_loop env need left (attempt + 1) (sample s r) in
      if leb need (sample s r).count
      then (save s.progress no_result 0, ok r)
      else after_sample env left attempt (sample s r) rest
]

abbrev start_state : Option Progress → LoopState
start_state none = record { candidate = no_result; count = 0; last_err = none; progress = none }
start_state (some p) = record {
  candidate = p.candidate;
  count = p.count;
  last_err = none;
  progress = some p;
}

abbrev confirm_once : Option Progress → Result ProbeError StunResult → Outcome
confirm_once progress (ok r) = (progress, ok r)
confirm_once progress (err e) = (progress, err (probe_error e))

unfoldable pub confirm_public_probe : Env → ℤ → ℕ → Option Progress → Outcome
confirm_public_probe env confirmations endpoint_count progress =
    if leb_ℤ confirmations (pos 1)
    then confirm_once progress (env.probe 0)
    else confirm_loop env (pos_part confirmations) (max_attempts confirmations endpoint_count) 0
        (start_state progress)
