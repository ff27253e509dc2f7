-- ===== src/Server/Kept.antt =====
-- What the operations of the manager keep, where a handler calls them: the manager is well, and
-- the instances of its store are different and sound.
use natcat.Base.{
  Bool, Bool-cases, Option-cases, ap, arith, false, if◌then◌else◌, inl, inr, is_nil, is_some, not,
  some, true, ℕ, ◌||◌, ◌∙◌, ◌≡◌,
}
use natcat.Dict.{get, put, remove}
use natcat.Manager.{Manager, Runner, notify_status, put_status, set_status, stop_timeout}
use natcat.Manager.Control.{
  Wait, apply_config, clear_if, clear_runtime, is_current, names_public,
  public_mapping_config_changed, replace_config, report, restart, start, stop, stop_and_wait,
}
use natcat.Manager.Restart.{set_status-runners}
use natcat.Manager.Steps.{IsWell, clears, forgets, marks, reports, sets, starts}
use natcat.Manager.Well.{Step-IsWell}
use natcat.Result.{err}
use natcat.Store.{Io, Outside, Store, admin, refresh_admin, save}
use natcat.Store.Items.{IsUnique, save-items, save-options}
use natcat.Store.Saved.{clear_runtime_status, persist, put_runtime, save_runtime_status}
use natcat.Store.Sound.{IsSound}
use natcat.Text.{Text, codes}
use natcat.Types.{InstanceConfig, RuntimeStatus, State, Time, stopped, stopping}

abbrev pub IsFit : Outside → Store → Type 0
IsFit out s = IsUnique s.db.items × IsSound out s.db.options s.db.items

abbrev pub IsKept : Outside → Manager → Type 0
IsKept out m = IsWell m × IsFit out m.store

-- What happens meanwhile keeps all of that.
abbrev pub KeepsFit : Outside → (Manager → Manager) → Type 0
KeepsFit out f = (m : Manager) → IsKept out m → IsKept out (f m)

module _ (out : Outside) where
  same-IsFit :
      (s s' : Store)
      → s'.db.items ≡ s.db.items
      → s'.db.options ≡ s.db.options
      → IsFit out s
      → IsFit out s'
  same-IsFit s s' e f fit = rw (e, f) fit

  save-IsFit : (io : Io) (s : Store) → IsFit out s → IsFit out (save out io s).0
  save-IsFit io s fit =
      same-IsFit s (save out io s).0 (save-items out io s) (save-options out io s) fit

  pub admin-IsFit : (io : Io) (s : Store) → IsFit out s → IsFit out (admin out io s).0
  unfolding admin refresh_admin
  admin-IsFit io s fit = same-IsFit s (admin out io s).0 (ground arith) (ground arith) fit

  clear_runtime_status-IsFit :
      (io : Io) (id : Text) (s : Store)
      → IsFit out s
      → IsFit out (clear_runtime_status out io id s).0
  unfolding clear_runtime_status
  clear_runtime_status-IsFit io id s fit =
      elim (Bool-cases (is_nil id || not (is_some (get id s.db.runtime)))) [
        | inl e ↦ rw (clear_runtime_status, e) fit
        | inr e ↦
            rw (clear_runtime_status, e)
              (save-IsFit io (put_runtime s (remove id s.db.runtime)) fit)
      ]

  save_runtime_status-IsFit :
      (io : Io) (id : Text) (st : RuntimeStatus) (s : Store)
      → IsFit out s
      → IsFit out (save_runtime_status out io id st s).0
  unfolding save_runtime_status
  save_runtime_status-IsFit io id st s fit =
      same-IsFit s (save_runtime_status out io id st s).0
        (ground (arith, save-items out io (put_runtime s (put id (persist st) s.db.runtime))))
        (ground (arith, save-options out io (put_runtime s (put id (persist st) s.db.runtime)))) fit

  pub report-IsKept :
      (io : Io) (now : Time) (id : Text) (update : RuntimeStatus) (m : Manager)
      → IsKept out m
      → IsKept out (report out io now id update m)
  unfolding report put_status notify_status
  report-IsKept io now id update m kept = (
    Step-IsWell out _ _ (reports io now id update m) (kept.0),
    elim (Bool-cases (names_public update)) [
      | inl e ↦ rw (report, e) (save_runtime_status-IsFit io id _ m.store (kept.1))
      | inr e ↦ rw (report, e) (kept.1)
    ],
  )

  clear_runtime-IsKept :
      (io : Io) (now : Time) (id : Text) (m : Manager)
      → IsKept out m
      → IsKept out (clear_runtime out io now id m)
  unfolding clear_runtime put_status notify_status
  clear_runtime-IsKept io now id m kept = (
    Step-IsWell out _ _ (clears io now id m) (kept.0),
    clear_runtime_status-IsFit io id m.store (kept.1),
  )

  set_status-IsKept :
      (now : Time) (id : Text) (state : State) (message : Text) (m : Manager)
      → IsKept out m
      → IsKept out (set_status now id state message m)
  unfolding set_status put_status notify_status
  set_status-IsKept now id state message m kept =
      (Step-IsWell out _ _ (sets now id state message m) (kept.0), kept.1)

  pub start-store : (now : Time) (id : Text) (m : Manager) → (start out now id m).0.store ≡ m.store
  unfolding start set_status put_status notify_status
  start-store now id m = ground arith

  pub start-IsKept :
      (now : Time) (id : Text) (m : Manager) → IsKept out m → IsKept out (start out now id m).0
  start-IsKept now id m kept =
      (Step-IsWell out _ _ (starts now id m) (kept.0), rw (start-store now id m) (kept.1))

  pub apply_config-IsKept :
      (now : Time) (cfg : InstanceConfig) (m : Manager)
      → IsKept out m
      → IsKept out (apply_config out now cfg m)
  unfolding apply_config
  apply_config-IsKept now cfg m kept = elim (Bool-cases cfg.enabled) [
    | inl e ↦ rw (apply_config, e) (start-IsKept now cfg.id m kept)
    | inr e ↦ rw (apply_config, e) kept
  ]

  clear_if-IsKept :
      (changed : Bool) (io : Io) (now : Time) (id : Text) (m : Manager)
      → IsKept out m
      → IsKept out (clear_if out changed io now id m)
  clear_if-IsKept true io now id m kept = clear_runtime-IsKept io now id m kept
  clear_if-IsKept false io now id m kept = kept

  module _ (wait : Wait) (waits : KeepsFit out (λ m. (wait m).0)) where
    stop_and_wait-IsKept :
        (now : Time) (id message : Text) (r : Runner) (m : Manager)
        → get id m.runners ≡ some r
        → IsKept out m
        → IsKept out (stop_and_wait wait id r (set_status now id stopping message m)).0
    unfolding stop_and_wait
    stop_and_wait-IsKept now id message r m e kept =
        let told = set_status-IsKept now id stopping message m kept in
        let marked =
          Step-IsWell out _ _
            (marks id r (set_status now id stopping message m)
              (ap (get id) (set_status-runners now id stopping message m) ∙ e))
            (told.0) in
        waits _ (marked, told.1)

    pub stop-IsKept :
        (now : Time) (id : Text) (m : Manager) → IsKept out m → IsKept out (stop wait now id m).0
    unfolding stop
    stop-IsKept now id m kept = elim (Option-cases (get id m.runners)) [
      | inl e ↦ rw (stop, e) (set_status-IsKept now id stopped _ m kept)
      | inr (r, e) ↦
          rw (stop, e) (stop_and_wait-IsKept now id (codes "stopping instance") r m e kept)
    ]

    restart-IsKept :
        (io : Io) (now : Time) (changed : Bool) (id : Text) (number : ℕ) (m : Manager)
        → IsKept out m
        → IsKept out (restart out io now changed id number m).0
    unfolding restart
    restart-IsKept io now changed id number m kept = elim (Bool-cases (is_current id number m)) [
      | inl e ↦
          rw (restart, e)
            (start-IsKept now id _ (
              clear_if-IsKept changed io now id _
                (Step-IsWell out _ _ (forgets id m) (kept.0), kept.1)))
      | inr e ↦ rw (restart, e) (start-IsKept now id _ (clear_if-IsKept changed io now id m kept))
    ]

    replaced-IsKept :
        (io : Io) (now later : Time) (changed : Bool) (id : Text) (r : Runner) (m : Manager)
        → get id m.runners ≡ some r
        → IsKept out m
        → IsKept out
            (let waited =
                stop_and_wait wait id r
                  (set_status now id stopping (codes "restarting instance") m) in
              if waited.1
              then restart out io later changed id r.number waited.0
              else (waited.0, err stop_timeout)).0
    replaced-IsKept io now later changed id r m e kept =
        let told = set_status now id stopping (codes "restarting instance") m in
        let waited = stop_and_wait-IsKept now id (codes "restarting instance") r m e kept in
        elim (Bool-cases (stop_and_wait wait id r told).1) [
          | inl in_time ↦ rw in_time (restart-IsKept io later changed id r.number _ waited)
          | inr late ↦ rw late waited
        ]

    pub replace_config-IsKept :
        (io : Io) (now later : Time) (old cfg : InstanceConfig) (was_running : Bool) (m : Manager)
        → IsKept out m
        → IsKept out (replace_config out wait io now later old cfg was_running m).0
    unfolding replace_config public_mapping_config_changed
    replace_config-IsKept io now later old cfg was_running m kept =
        let changed = public_mapping_config_changed old cfg in
        let started = start-IsKept now cfg.id _ (clear_if-IsKept changed io now cfg.id m kept) in
        elim (Bool-cases cfg.enabled) [
          | inr off ↦ elim (Bool-cases was_running) [
            | inl was ↦
                rw (replace_config, off, was)
                  (clear_if-IsKept changed io later cfg.id _ (stop-IsKept now cfg.id m kept))
            | inr not_was ↦ rw (replace_config, off, not_was) kept
          ]
          | inl on ↦ elim (Bool-cases was_running) [
            | inr not_was ↦ rw (replace_config, on, not_was) started
            | inl was ↦ elim (Option-cases (get cfg.id m.runners)) [
              | inl e ↦ rw (replace_config, on, was, e) started
              | inr (r, e) ↦
                  rw (replace_config, on, was, e)
                    (replaced-IsKept io now later changed cfg.id r m e kept)
            ]
          ]
        ]
