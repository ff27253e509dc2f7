-- ===== src/Runner/Run.antt =====
-- internal/core/runner.go: the loop of `Run`. It ends when the context does, so it runs on fuel: a
-- number of turns.
use natcat.Base.{
  Bool, List, Option, [], false, if◌then◌else◌, none, some, suc, true, zero, ℕ, ◌++◌, ◌∷◌,
}
use natcat.Config.{udp}
use natcat.Runner.{
  RunError, describe_run_error, emit, failed, log, session_closed, state_report, stopped_run,
}
use natcat.Text.{Text, codes, text_eq}
use natcat.Types.{
  InstanceConfig, Level, RuntimeStatus, State, Time, empty_status, starting, stopped,
}

-- What happens in a turn: whether the context is done when the turn begins, what `runOnce` returns
-- (none is nil) and reports, whether the context is done behind it, and whether it ends during the
-- pause; with the times.
pub record Turn : Type 0 where
  pub begins_done : Bool
  pub result : Option RunError
  pub reports : List RuntimeStatus
  pub ends_done : Bool
  pub pause_done : Bool
  pub now : Time
  pub later : Time

-- `runOnce`, by the runs of the two protocols.
unfoldable pub run_once : {A : Type 0} → InstanceConfig → A → A → A
run_once cfg run_udp run_tcp = if text_eq cfg.protocol udp then run_udp else run_tcp

unfoldable pub stopped_report : Time → RuntimeStatus
unfolding state_report
stopped_report now = state_report now stopped Level.info (codes "instance stopped")

abbrev pub bare_report : Time → State → RuntimeStatus
bare_report now state = emit now (record empty_status { state = state })

unfoldable pub error_report : Time → InstanceConfig → Text → RuntimeStatus
error_report now cfg message =
    let told = describe_run_error cfg message in
    emit now (record empty_status {
      state = State.error;
      last_error = told;
      logs = record { at = now; level = Level.error; message = told } ∷ [];
    })

-- The reports, and whether `Run` has returned.
abbrev pub RunTrace : Type 0
RunTrace = List RuntimeStatus × Bool

abbrev pub then_more : List RuntimeStatus → RunTrace → RunTrace
then_more reports rest = (reports ++ rest.0, rest.1)

-- A turn behind `runOnce` and the look at the context, before `rest`, the turns that follow.
unfoldable pub after_result : InstanceConfig → Turn → Option RunError → RunTrace → RunTrace
unfolding stopped_report error_report
after_result cfg turn none rest = (turn.reports ++ stopped_report turn.now ∷ [], true)
after_result cfg turn (some stopped_run) rest = (turn.reports ++ stopped_report turn.now ∷ [], true)
after_result cfg turn (some (session_closed message)) rest =
    let rebuilding =
      turn.reports ++ state_report turn.now starting Level.info (codes "rebuilding session") ∷ [] in
    if turn.pause_done
    then (rebuilding ++ bare_report turn.later stopped ∷ [], true)
    else then_more rebuilding rest
after_result cfg turn (some (failed message)) rest =
    let failing =
      turn.reports
      ++ error_report turn.now cfg message
        ∷ log turn.now Level.info (codes "retrying in 5s")
        ∷ [] in
    if turn.pause_done
    then (failing ++ bare_report turn.later stopped ∷ [], true)
    else then_more (failing ++ bare_report turn.later starting ∷ []) rest

-- A turn of the loop.
unfoldable pub in_turn : InstanceConfig → Turn → RunTrace → RunTrace
unfolding after_result
in_turn cfg turn rest =
    if turn.begins_done
    then (stopped_report turn.now ∷ [], true)
    else if turn.ends_done
    then (turn.reports ++ stopped_report turn.now ∷ [], true)
    else after_result cfg turn turn.result rest

-- The loop from turn number `at` on.
unfoldable pub run_turns : InstanceConfig → (ℕ → Turn) → ℕ → ℕ → RunTrace
unfolding in_turn
run_turns cfg turns zero at = ([], false)
run_turns cfg turns (suc fuel) at = in_turn cfg (turns at) (run_turns cfg turns fuel (suc at))

-- The first report of `Run`.
unfoldable pub starting_report : Time → InstanceConfig → RuntimeStatus
unfolding state_report
starting_report now cfg =
    record (state_report now starting Level.info (codes "instance starting")) {
      started_at = some now;
      protocol = cfg.protocol;
    }

-- `Run`, for a number of turns.
unfoldable pub run : InstanceConfig → Time → (ℕ → Turn) → ℕ → RunTrace
unfolding run_turns starting_report
run cfg now turns fuel = then_more (starting_report now cfg ∷ []) (run_turns cfg turns fuel 0)
