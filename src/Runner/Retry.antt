-- ===== src/Runner/Retry.antt =====
-- internal/core/runner.go: the goroutine of a public probe, `startTCPPublicProbe` and
-- `startUDPPublicProbe`, which differ in the name of the protocol alone. The loop ends when an
-- address is confirmed or the context is done, so it runs on fuel: a number of attempts.
pub mod Publishes
use natcat.Base.{
  Bool, List, Option, [], false, if◌then◌else◌, none, some, suc, true, zero, ℕ, ◌++◌, ◌||◌, ◌∷◌,
}
use natcat.Int.{pos, ℤ}
use natcat.Mapping.{MappingEvent}
use natcat.Net.{Ip}
use natcat.Probe.{ConfirmError, Env, Outcome, Progress, confirm_public_probe}
use natcat.Result.{Result, err, ok}
use natcat.Runner.{is_local_port_unavailable}
use natcat.Runner.Run.{run}
use natcat.Stun.{StunResult, no_result}
use natcat.Text.{Text}

-- An attempt: whether the context is done when it begins, the rounds of its probe, whether the
-- context is done behind them, and whether it ends in the pause.
pub record ProbeAttempt : Type 0 where
  pub begins_done : Bool
  pub env : Env
  pub ends_done : Bool
  pub pause_done : Bool

-- What a goroutine is given: the protocol, the number of servers, the confirmations that are wanted,
-- the local address, the text of an error, and whether it is a cancelled context or `errStopped`.
pub record ProbeRun : Type 0 where
  pub protocol : Text
  pub servers : ℕ
  pub confirmations : ℤ
  pub private_ip : Ip
  pub private_port : ℤ
  pub error : ConfirmError → Text
  pub is_stop : ConfirmError → Bool

-- What it does: it calls `publishMapping` or `advanceBindPort`, or tells that it tries again, by the
-- number of the attempt and its error.
pub data Act : Type 0 where
  publishes : MappingEvent → Act
  advances : Act
  retries : ℕ → Text → Act

-- What it did, and whether it has returned.
abbrev pub ActTrace : Type 0
ActTrace = List Act × Bool

unfoldable pub mapping_of : ProbeRun → StunResult → MappingEvent
mapping_of run result = record {
  public_ip = result.ip;
  public_port = pos result.port;
  private_ip = run.private_ip;
  private_port = run.private_port;
  protocol = run.protocol;
}

-- `confirmedTCPPublicProbe` and `confirmedUDPPublicProbe`, with the progress of the attempts before.
abbrev pub confirmed : ProbeRun → Env → Progress → Outcome
confirmed run env progress = confirm_public_probe env run.confirmations run.servers (some progress)

abbrev pub or_progress : Option Progress → Progress → Progress
or_progress none default = default
or_progress (some p) default = p

-- What an attempt that failed does, before the pause.
unfoldable pub retry_acts : ProbeRun → ℕ → ConfirmError → List Act
retry_acts run number e =
    let told = retries number (run.error e) ∷ [] in
    if is_local_port_unavailable (run.error e) then advances ∷ told else told

-- An attempt behind its probe, before `rest`, the attempts that follow.
unfoldable pub after_probe :
    ProbeRun → ProbeAttempt → ℕ → Result ConfirmError StunResult → ActTrace → ActTrace
unfolding mapping_of retry_acts
after_probe run a number (ok result) rest =
    if a.ends_done then ([], true) else (publishes (mapping_of run result) ∷ [], true)
after_probe run a number (err e) rest =
    let told = retry_acts run number e in
    if a.ends_done || run.is_stop e
    then ([], true)
    else if a.pause_done
    then (told, true)
    else (told ++ rest.0, rest.1)

-- The loop, from the attempt behind `done_before` others on.
unfoldable pub probe_attempts : ProbeRun → (ℕ → ProbeAttempt) → ℕ → ℕ → Progress → ActTrace
unfolding after_probe
probe_attempts run attempts zero done_before progress = ([], false)
probe_attempts run attempts (suc fuel) done_before progress =
    let a = attempts done_before in
    let outcome = confirmed run a.env progress in
    let rest =
      probe_attempts run attempts fuel (suc done_before) (or_progress outcome.0 progress) in
    if a.begins_done then ([], true) else after_probe run a (suc done_before) outcome.1 rest

-- `&publicProbeConfirmationProgress{}`.
abbrev pub no_progress : Progress
no_progress = record { candidate = no_result; count = 0 }

-- The goroutine.
unfoldable pub start_public_probe : ProbeRun → (ℕ → ProbeAttempt) → ℕ → ActTrace
unfolding probe_attempts
start_public_probe run attempts fuel = probe_attempts run attempts fuel 0 no_progress
