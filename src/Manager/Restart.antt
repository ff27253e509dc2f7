-- ===== src/Manager/Restart.antt =====
-- Starting and replacing: what a caller can rely on after a call returned no error.
use natcat.Base.{
  Bool, Bool-cases, Option-cases, [], arith, false, if◌then◌else◌, inl, inr, is_some, none, refl,
  some, suc, true, ℕ, ◌<◌, ◌∙◌, ◌≡◌, ◌≤◌,
}
use natcat.Dict.{get, get-put, get-remove, put, remove, text_eq_refl}
use natcat.Manager.{Manager, Runner, is_running, notify_status, put_status, set_status, status_for}
use natcat.Manager.Control.{
  Wait, clear_if, clear_runtime, is_current, new_runner, public_mapping_config_changed,
  replace_config, restart, runner_ended, start, stop_and_wait, stop_runner,
}
use natcat.Result.{ok}
use natcat.Status.{set_state}
use natcat.Store.{Io, Outside}
use natcat.Store.Instances.{get_instance}
use natcat.Text.{Text, codes}
use natcat.Types.{InstanceConfig, RuntimeStatus, State, Time, starting, stopped, stopping}

put_status-runners :
    (now : Time) (id : Text) (st : RuntimeStatus) (m : Manager)
    → (put_status now id st m).runners ≡ m.runners
unfolding put_status notify_status
put_status-runners now id st m = refl

pub set_status-runners :
    (now : Time) (id : Text) (state : State) (message : Text) (m : Manager)
    → (set_status now id state message m).runners ≡ m.runners
unfolding set_status
set_status-runners now id state message m =
    put_status-runners now id (set_state now (status_for now m id) state message none) m

module _ (out : Outside) where
  -- A start that returns no error leaves a runner registered.
  pub start-running :
      (now : Time) (id : Text) (m : Manager)
      → (start out now id m).1 ≡ ok tt
      → is_running (start out now id m).0 id ≡ true
  unfolding start is_running
  start-running now id m h = elim (Option-cases (get_instance m.store id)) [
    | inl e ↦ ground (arith, e)
    | inr (cfg, e) ↦
        let registered = record m {
          runners = put id (new_runner out now id cfg m) m.runners;
          next_number = suc m.next_number;
        } in
        ground (
          arith,
          e,
          set_status-runners now id starting [] registered,
          get-put id id (new_runner out now id cfg m) m.runners,
          text_eq_refl id,
        )
  ]

  restart-running :
      (io : Io) (now : Time) (changed : Bool) (id : Text) (number : ℕ) (m : Manager)
      → (restart out io now changed id number m).1 ≡ ok tt
      → is_running (restart out io now changed id number m).0 id ≡ true
  unfolding restart
  restart-running io now changed id number m h =
      let left = if is_current id number m then record m { runners = remove id m.runners } else m in
      start-running now id (clear_if out changed io now id left) h

  clear_if-current :
      (io : Io) (changed : Bool) (now : Time) (id : Text) (number : ℕ) (m : Manager)
      → (is_current id number (clear_if out changed io now id m) ≡ is_current id number m)
        × ((clear_if out changed io now id m).next_number ≡ m.next_number)
  unfolding clear_runtime put_status notify_status is_current
  clear_if-current io true now id number m = (refl, refl)
  clear_if-current io false now id number m = (refl, refl)

  -- A start does not bring back a runner with a number that was given before.
  start-fresh :
      (now : Time) (id : Text) (number : ℕ) (m : Manager)
      → is_current id number m ≡ false
      → number < m.next_number
      → is_current id number (start out now id m).0 ≡ false
  unfolding start is_running is_current new_runner
  start-fresh now id number m old given = elim (Option-cases (get_instance m.store id)) [
    | inl e ↦ ground (arith, e, old)
    | inr (cfg, e) ↦ elim (Option-cases (get id m.runners)) [
      | inr (r, there) ↦ ground (arith, e, there, old)
      | inl free ↦
          let registered = record m {
            runners = put id (new_runner out now id cfg m) m.runners;
            next_number = suc m.next_number;
          } in
          ground (
            arith,
            e,
            free,
            given,
            set_status-runners now id starting [] registered,
            get-put id id (new_runner out now id cfg m) m.runners,
            text_eq_refl id,
          )
    ]
  ]

  -- The runner that was waited for is taken out.
  without-current :
      (id : Text) (number : ℕ) (m : Manager)
      → is_current id number
          (if is_current id number m then record m { runners = remove id m.runners } else m)
        ≡ false
  unfolding is_current
  without-current id number m = elim (Bool-cases (is_current id number m)) [
    | inl e ↦ rw e (ground (arith, get-remove id id m.runners, text_eq_refl id))
    | inr e ↦ rw e e
  ]

  without-number :
      (b : Bool) (id : Text) (m : Manager)
      → (if b then record m { runners = remove id m.runners } else m).next_number ≡ m.next_number
  without-number true id m = refl
  without-number false id m = refl

  restart-fresh :
      (io : Io) (now : Time) (changed : Bool) (id : Text) (number : ℕ) (m : Manager)
      → number < m.next_number
      → is_current id number (restart out io now changed id number m).0 ≡ false
  unfolding restart
  restart-fresh io now changed id number m given =
      let left = if is_current id number m then record m { runners = remove id m.runners } else m in
      let cleared = clear_if-current io changed now id number left in
      start-fresh now id number (clear_if out changed io now id left)
        (cleared.0 ∙ without-current id number m)
        (omega (arith, given, cleared.1, without-number (is_current id number m) id m))

  stopping-number :
      (now : Time) (id : Text) (message : Text) (m : Manager)
      → (set_status now id stopping message m).next_number ≡ m.next_number
  unfolding set_status put_status notify_status
  stopping-number now id message m = refl

  replace_config-fresh :
      (wait : Wait) (io : Io) (now later : Time) (old cfg : InstanceConfig) (was_running : Bool)
      (m : Manager) (r : Runner)
      → cfg.enabled ≡ true
      → ((m' : Manager) → m'.next_number ≤ (wait m').0.next_number)
      → (replace_config out wait io now later old cfg was_running m).1 ≡ ok tt
      → was_running ≡ true
      → get cfg.id m.runners ≡ some r
      → r.number < m.next_number
      → is_current cfg.id r.number (replace_config out wait io now later old cfg was_running m).0
        ≡ false
  unfolding replace_config stop_and_wait
  replace_config-fresh wait io now later old cfg was_running m r on keeps h was there given =
      let told = set_status now cfg.id stopping (codes "restarting instance") m in
      let waited = stop_and_wait wait cfg.id r told in
      let number : r.number < waited.0.next_number = omega (
        arith,
        given,
        stopping-number now cfg.id (codes "restarting instance") m,
        keeps (record told { runners = put cfg.id (stop_runner r) told.runners }),
      ) in
      let fresh =
        restart-fresh io later (public_mapping_config_changed old cfg) cfg.id r.number waited.0
          number in
      elim (Bool-cases waited.1) [
        | inl in_time ↦ ground (arith, on, was, there, in_time, fresh)
        | inr too_late ↦ ground (arith, h, on, was, there, too_late)
      ]

  -- Whatever happens while the old runner stops: a replacement by an enabled configuration that
  -- returns no error leaves a runner registered for the instance, on every branch. If the instance
  -- was running, that is not the runner that was registered before. (The number of that runner is
  -- one of those given before, and what the other goroutines do takes no number back.)
  pub replace_config-running :
      (wait : Wait) (io : Io) (now later : Time) (old cfg : InstanceConfig) (was_running : Bool)
      (m : Manager)
      → cfg.enabled ≡ true
      → ((m' : Manager) → m'.next_number ≤ (wait m').0.next_number)
      → (replace_config out wait io now later old cfg was_running m).1 ≡ ok tt
      → (is_running (replace_config out wait io now later old cfg was_running m).0 cfg.id ≡ true)
        × ((r : Runner)
            → was_running ≡ true
            → get cfg.id m.runners ≡ some r
            → r.number < m.next_number
            → is_current cfg.id r.number
                (replace_config out wait io now later old cfg was_running m).0
              ≡ false)
  unfolding replace_config stop_and_wait
  replace_config-running wait io now later old cfg was_running m on keeps h =
      let changed = public_mapping_config_changed old cfg in
      let idle = clear_if out changed io now cfg.id m in
      let told = set_status now cfg.id stopping (codes "restarting instance") m in
      let waited = λ (r : Runner). stop_and_wait wait cfg.id r told in
      elim (Bool-cases was_running) [
        | inr not_running ↦ (
          ground (arith, h, on, not_running, start-running now cfg.id idle),
          λ r was. ground (arith, was, not_running),
        )
        | inl was ↦ elim (Option-cases (get cfg.id m.runners)) [
          | inl e ↦ (
            ground (arith, h, on, was, e, start-running now cfg.id idle),
            λ r again there. ground (arith, e, there),
          )
          | inr (r, e) ↦ (
            ground (
              arith,
              h,
              on,
              was,
              e,
              restart-running io later changed cfg.id r.number (waited r).0,
            ),
            λ r' again there given.
                replace_config-fresh wait io now later old cfg was_running m r' on keeps h again
                  there given,
          )
        ]
      ]

  -- A start of a known instance while the runner of a stop is still registered returns no error and
  -- changes nothing, and when that runner then ends, the instance has none: the start had no
  -- effect.
  pub start-while_stopping :
      (now later : Time) (id : Text) (r : Runner) (m : Manager)
      → get id m.runners ≡ some r
      → is_some (get_instance m.store id) ≡ true
      → (start out now id m ≡ (m, ok tt))
        × (is_running (runner_ended later id r.number (start out now id m).0) id ≡ false)
  unfolding start is_running runner_ended is_current
  start-while_stopping now later id r m there known =
      let left = record m { runners = remove id m.runners } in
      (
        ground (arith, there, known),
        ground (
          arith,
          there,
          known,
          get-remove id id m.runners,
          text_eq_refl id,
          set_status-runners later id stopped [] left,
        ),
      )
