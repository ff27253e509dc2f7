-- ===== src/Runner/Lifecycle.antt =====
-- How the reports of a run end: internal/core/runner.go, `Run`.
use mathlib.Core.List.{append_assoc}
use natcat.Base.{
  All, Bool-cases, List, Option, [], ap, arith, false, inl, inr, none, refl, some, subst, suc, sym,
  true, zero, ℕ, ◌++◌, ◌+◌, ◌<◌, ◌==◌, ◌||◌, ◌∙◌, ◌∷◌, ◌≡◌, ◌≤◌, ◌⊎◌,
}
use natcat.Manager.Control.{report}
use natcat.Runner.{RunError, emit, failed, log, session_closed, state_report, stopped_run}
use natcat.Runner.Run.{
  RunTrace, Turn, after_result, error_report, in_turn, run, run_turns, starting_report,
  stopped_report, then_more,
}
use natcat.Status.{is_state}
use natcat.Types.{InstanceConfig, RuntimeStatus, Time, stopped}

abbrev pub IsNotStopped : RuntimeStatus → Type 0
IsNotStopped report = is_state report.state stopped ≡ false

-- A run that has returned reported that it stopped, as its last report and at no time before; one
-- that goes on has not reported it.
abbrev pub EndsStopped : RunTrace → Type 0
EndsStopped (told, false) = All IsNotStopped told
EndsStopped (told, true) =
    (before : List RuntimeStatus) × (last : RuntimeStatus) × (told ≡ before ++ last ∷ [])
    × (is_state last.state stopped ≡ true)
    × All IsNotStopped before

All-++ :
    (xs ys : List RuntimeStatus)
    → All IsNotStopped xs
    → All IsNotStopped ys
    → All IsNotStopped (xs ++ ys)
All-++ [] ys a b = b
All-++ (x ∷ xs) ys a b = (a.0, All-++ xs ys (a.1) b)

then_more-EndsStopped :
    (told : List RuntimeStatus) (rest : RunTrace)
    → All IsNotStopped told
    → EndsStopped rest
    → EndsStopped (then_more told rest)
then_more-EndsStopped told (more, false) a e = All-++ told more a e
then_more-EndsStopped told (more, true) a (before, last, split_at, is_last, b) = (
  told ++ before,
  last,
  ap (◌++◌ told) split_at ∙ sym (append_assoc told before (last ∷ [])),
  is_last,
  All-++ told before a b,
)

-- The run returns with a last report that it stopped.
stop-EndsStopped :
    (told : List RuntimeStatus) (last : RuntimeStatus)
    → All IsNotStopped told
    → is_state last.state stopped ≡ true
    → EndsStopped (told ++ last ∷ [], true)
stop-EndsStopped told last a e = (told, last, refl, e, a)

-- Each report that the loop adds is of another state, but for the last.
after_result-EndsStopped :
    (cfg : InstanceConfig) (turn : Turn) (result : Option RunError) (rest : RunTrace)
    → All IsNotStopped turn.reports
    → EndsStopped rest
    → EndsStopped (after_result cfg turn result rest)
unfolding after_result stopped_report error_report state_report emit log is_state
after_result-EndsStopped cfg turn none rest quiet e = stop-EndsStopped turn.reports _ quiet refl
after_result-EndsStopped cfg turn (some stopped_run) rest quiet e =
    stop-EndsStopped turn.reports _ quiet refl
after_result-EndsStopped cfg turn (some (session_closed message)) rest quiet e =
    let rebuilding = All-++ turn.reports (_ ∷ []) quiet (refl, tt) in
    elim (Bool-cases turn.pause_done) [
      | inl over ↦ rw (after_result, over) (stop-EndsStopped _ _ rebuilding refl)
      | inr on ↦ rw (after_result, on) (then_more-EndsStopped _ rest rebuilding e)
    ]
after_result-EndsStopped cfg turn (some (failed message)) rest quiet e =
    let failing = All-++ turn.reports (_ ∷ _ ∷ []) quiet (refl, (refl, tt)) in
    elim (Bool-cases turn.pause_done) [
      | inl over ↦ rw (after_result, over) (stop-EndsStopped _ _ failing refl)
      | inr on ↦
          rw (after_result, on)
            (then_more-EndsStopped _ rest (All-++ _ (_ ∷ []) failing (refl, tt)) e)
    ]

in_turn-EndsStopped :
    (cfg : InstanceConfig) (turn : Turn) (rest : RunTrace)
    → All IsNotStopped turn.reports
    → EndsStopped rest
    → EndsStopped (in_turn cfg turn rest)
unfolding in_turn stopped_report state_report emit is_state
in_turn-EndsStopped cfg turn rest quiet e = elim (Bool-cases turn.begins_done) [
  | inl begun ↦ rw (in_turn, begun) (stop-EndsStopped [] _ tt refl)
  | inr fresh ↦ elim (Bool-cases turn.ends_done) [
    | inl over ↦ rw (in_turn, fresh, over) (stop-EndsStopped turn.reports _ quiet refl)
    | inr on ↦ rw (in_turn, fresh, on) (after_result-EndsStopped cfg turn turn.result rest quiet e)
  ]
]

-- The context ends in the turn.
abbrev pub IsLast : Turn → Type 0
IsLast turn = (turn.begins_done || turn.ends_done || turn.pause_done) ≡ true

after_result-over :
    (cfg : InstanceConfig) (turn : Turn) (result : Option RunError) (rest : RunTrace)
    → (rest.1 ≡ true) ⊎ (turn.pause_done ≡ true)
    → (after_result cfg turn result rest).1 ≡ true
unfolding after_result
after_result-over cfg turn none rest e = refl
after_result-over cfg turn (some stopped_run) rest e = refl
after_result-over cfg turn (some (session_closed message)) rest e = ground (arith, e)
after_result-over cfg turn (some (failed message)) rest e = ground (arith, e)

in_turn-over :
    (cfg : InstanceConfig) (turn : Turn) (rest : RunTrace)
    → (rest.1 ≡ true) ⊎ IsLast turn
    → (in_turn cfg turn rest).1 ≡ true
unfolding in_turn
in_turn-over cfg turn rest e = ground (arith, e, after_result-over cfg turn turn.result rest)

IsLast-at : (turns : ℕ → Turn) (at k : ℕ) → (at == k) ≡ true → IsLast (turns k) → IsLast (turns at)
IsLast-at turns at k e is_last = subst (λ n. IsLast (turns n)) (ground (arith, e)) is_last

module _ (cfg : InstanceConfig) (turns : ℕ → Turn) where
  run_turns-over :
      (fuel at k : ℕ)
      → at ≤ k
      → k < at + fuel
      → IsLast (turns k)
      → (run_turns cfg turns fuel at).1 ≡ true
  unfolding run_turns
  run_turns-over zero at k low high is_last = ground (arith, low, high)
  run_turns-over (suc fuel) at k low high is_last = elim (Bool-cases (at == k)) [
    | inl here_it_is ↦ in_turn-over cfg (turns at) _ (inr (IsLast-at turns at k here_it_is is_last))
    | inr before ↦ in_turn-over cfg (turns at) _ (
        inl (
          run_turns-over fuel (suc at) k (ground (arith, low, before)) (omega (arith, high))
            is_last))
  ]

  run_turns-EndsStopped :
      ((k : ℕ) → All IsNotStopped (turns k).reports)
      → (fuel at : ℕ) → EndsStopped (run_turns cfg turns fuel at)
  unfolding run_turns
  run_turns-EndsStopped quiet zero at = tt
  run_turns-EndsStopped quiet (suc fuel) at =
      in_turn-EndsStopped cfg (turns at) _ (quiet at) (run_turns-EndsStopped quiet fuel (suc at))

  -- If `runOnce` never reports that the instance stopped, then `Run` reports it exactly once, as its
  -- last report, when it returns, and not while it goes on. And once the context ends, at the
  -- begin of a turn, behind `runOnce` or in the pause, `Run` returns in that turn at the latest.
  pub run-EndsStopped :
      (now : Time)
      → ((k : ℕ) → All IsNotStopped (turns k).reports)
      → ((fuel : ℕ) → EndsStopped (run cfg now turns fuel))
        × ((fuel k : ℕ) → k < fuel → IsLast (turns k) → (run cfg now turns fuel).1 ≡ true)
  unfolding run starting_report state_report emit is_state
  run-EndsStopped now quiet = (
    (λ fuel.
        then_more-EndsStopped (starting_report now cfg ∷ []) _ (refl, tt)
          (run_turns-EndsStopped quiet fuel 0)),
    λ fuel k soon is_last. run_turns-over fuel 0 k (omega arith) (omega (arith, soon)) is_last,
  )
