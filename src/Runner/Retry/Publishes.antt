-- ===== src/Runner/Retry/Publishes.antt =====
-- What the goroutine of a public probe publishes: internal/core/runner.go, `startTCPPublicProbe`
-- and `startUDPPublicProbe`.
use natcat.Base.{List, [], false, true, ℕ, ◌∷◌, ◌≡◌, ◌⊎◌}
use natcat.Mapping.{MappingEvent}
use natcat.Probe.{ConfirmError, Progress}
use natcat.Result.{Result, err, is_ok, ok}
use natcat.Runner.Retry.{
  Act, ActTrace, ProbeAttempt, ProbeRun, advances, confirmed, mapping_of, publishes, retries,
}
use natcat.Runner.Run.{run}
use natcat.Stun.{StunResult}

-- The addresses that are published, in order.
abbrev pub publications : List Act → List MappingEvent
publications [] = []
publications (publishes m ∷ acts) = m ∷ publications acts
publications (advances ∷ acts) = publications acts
publications (retries number message ∷ acts) = publications acts

-- The context stays open during an attempt, and an error of its probe does not say otherwise.
abbrev pub GoesOn : ProbeRun → ProbeAttempt → Type 0
GoesOn run a =
    (a.begins_done ≡ false)
    × (a.ends_done ≡ false)
    × (a.pause_done ≡ false)
    × ((progress : Progress) (e : ConfirmError)
        → (confirmed run a.env progress).1 ≡ err e
        → run.is_stop e ≡ false)

abbrev pub IsSure : ProbeRun → ProbeAttempt → Type 0
IsSure run a = (progress : Progress) → is_ok (confirmed run a.env progress).1 ≡ true

abbrev pub HasOne : ActTrace → Type 0
HasOne trace = (m : MappingEvent) × (publications trace.0 ≡ m ∷ [])

module _ (run : ProbeRun) (attempts : ℕ → ProbeAttempt) where
  -- The address that the probe of an attempt confirmed, while the context was open.
  abbrev pub IsConfirmed : MappingEvent → Type 0
  IsConfirmed m =
      (k : ℕ) × (progress : Progress) × (result : StunResult) × ((confirmed run (attempts k).env
          progress).1
        ≡ ok result)
      × ((attempts k).begins_done ≡ false)
      × ((attempts k).ends_done ≡ false)
      × (m ≡ mapping_of run result)

  -- Nothing is published, or one confirmed address, and then the goroutine has returned.
  abbrev pub HasPublished : ActTrace → Type 0
  HasPublished (told, is_over) =
      (publications told ≡ [])
      ⊎ ((m : MappingEvent) × (publications told ≡ m ∷ []) × (is_over ≡ true) × IsConfirmed m)
