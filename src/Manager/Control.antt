-- ===== src/Manager/Control.antt =====
-- Starting, stopping and replacing runners: internal/core/manager.go.
-- `publicMappingConfigChanged`.
use natcat.Base.{
  Bool, List, Option, [], false, if◌then◌else◌, is_nil, none, not, some, suc, true, ℕ, ◌==◌, ◌||◌,
  ◌∷◌,
}
use natcat.Dict.{get, put, remove}
use natcat.Int.{eq_ℤ, pos}
use natcat.Manager.{
  Manager, ManagerError, Runner, is_running, not_exist, put_status, set_status, status_for,
  stop_timeout,
}
use natcat.Mapping.{init_mapping, seed_runtime}
use natcat.Result.{Result, err, ok}
use natcat.Status.{clear_public, is_state, merge}
use natcat.Store.{Io, Outside}
use natcat.Store.Instances.{get_instance, list_instances}
use natcat.Store.Saved.{clear_runtime_status, runtime_status, save_runtime_status}
use natcat.Text.{Text, codes, text_eq}
use natcat.Types.{InstanceConfig, RuntimeStatus, State, Time, is_zero, starting, stopped, stopping}

unfoldable pub public_mapping_config_changed : InstanceConfig → InstanceConfig → Bool
public_mapping_config_changed old new =
    if is_nil old.id
    then true
    else not (text_eq old.protocol new.protocol)
      || not (text_eq old.bind_address new.bind_address)
      || not (text_eq old.bind_port new.bind_port)
      || not (text_eq old.interface new.interface)
      || not (old.fw_mark == new.fw_mark)

-- `Runner.Stop`, on what the manager sees: without its cancel function it cancels nothing.
unfoldable pub stop_runner : Runner → Runner
stop_runner r = if r.can_cancel then record r { cancelled = true } else r

-- The first lines of `Runner.Run`: its cancel function can be called from now on.
abbrev pub let_cancel : Text → Option Runner → Manager → Manager
let_cancel id none m = m
let_cancel id (some r) m = record m { runners = put id (record r { can_cancel = true }) m.runners }

unfoldable pub run_begins : Text → Manager → Manager
run_begins id m = let_cancel id (get id m.runners) m

-- `m.runners[id] == runner`.
unfoldable pub is_current : Text → ℕ → Manager → Bool
is_current id number m = elim (get id m.runners) [ none ↦ false | some r ↦ r.number == number ]

-- The end of the goroutine that `Start` began, for the runner with a number.
unfoldable pub runner_ended : Time → Text → ℕ → Manager → Manager
unfolding is_current set_status
runner_ended now id number m =
    if not (is_current id number m)
    then m
    else let left = record m { runners = remove id m.runners } in
      if is_state (status_for now left id).state State.error
      then left
      else set_status now id stopped [] left

-- `StopAll`: every runner is told to stop, and nobody waits.
unfoldable pub stop_each : List (Text × Runner) → List (Text × Runner)
unfolding stop_runner
stop_each [] = []
stop_each ((id, r) ∷ rest) = (id, stop_runner r) ∷ stop_each rest

unfoldable pub stop_all : Manager → Manager
unfolding stop_each
stop_all m = record m { runners = stop_each m.runners }

abbrev pub Outcome : Type 0
Outcome = Manager × Result ManagerError (Unit {0})

-- What happens while the manager waits for a runner, and whether the runner was done in time.
abbrev pub Wait : Type 0
Wait = Manager → Manager × Bool

-- `if st, ok := m.runners[id]`: the runner is told to stop, and the manager waits for it.
unfoldable pub stop_and_wait : Wait → Text → Runner → Manager → Manager × Bool
unfolding stop_runner
stop_and_wait wait id r m = wait (record m { runners = put id (stop_runner r) m.runners })

-- `Stop`.
unfoldable pub stop : Wait → Time → Text → Manager → Outcome
unfolding stop_and_wait set_status
stop wait now id m = elim (get id m.runners) [
  | none ↦
      let message =
        if is_state (status_for now m id).state stopped then [] else codes "instance stopped" in
      (set_status now id stopped message m, ok tt)
  | some r ↦
      let waited =
        stop_and_wait wait id r (set_status now id stopping (codes "stopping instance") m) in
      (waited.0, if waited.1 then ok tt else err stop_timeout)
]

-- A report that says something of the public address.
abbrev pub names_public : RuntimeStatus → Bool
names_public update =
    not (is_nil update.public_address)
    || not (eq_ℤ update.public_port (pos 0))
    || not (is_zero update.public_updated_at)

module _ (out : Outside) where
  -- `report`.
  unfoldable pub report : Io → Time → Text → RuntimeStatus → Manager → Manager
  unfolding put_status status_for
  report io now id update m =
      let current = merge now (status_for now m id) update in
      let m' = put_status now id current m in
      if names_public update
      then record m' { store = (save_runtime_status out io id current m'.store).0 }
      else m'

  -- `clearRuntime`.
  unfoldable pub clear_runtime : Io → Time → Text → Manager → Manager
  unfolding put_status status_for
  clear_runtime io now id m =
      let m' = put_status now id (clear_public (status_for now m id)) m in
      record m' { store = (clear_runtime_status out io id m'.store).0 }

  -- The status that a new runner is seeded with.
  unfoldable pub seed : Time → Text → Manager → RuntimeStatus
  unfolding status_for
  seed now id m =
      let st = status_for now m id in
      if is_nil st.public_address
      then elim (runtime_status m.store id) [ none ↦ st | some persisted ↦ persisted ]
      else st

  unfoldable pub new_runner : Time → Text → InstanceConfig → Manager → Runner
  unfolding seed
  new_runner now id cfg m = record {
    number = m.next_number;
    cfg = cfg;
    mapping = seed_runtime out.parse_ip cfg.protocol init_mapping (seed now id m);
    can_cancel = false;
    cancelled = false;
  }

  -- `Start`, up to its goroutine.
  unfoldable pub start : Time → Text → Manager → Outcome
  unfolding new_runner set_status
  start now id m = elim (get_instance m.store id) [
    | none ↦ (m, err not_exist)
    | some cfg ↦ if is_running m id then (m, ok tt) else (
      set_status now id starting [] (record m {
        runners = put id (new_runner now id cfg m) m.runners;
        next_number = suc m.next_number;
      }),
      ok tt,
    )
  ]

  -- `StartEnabled`, over the list of instances.
  unfoldable pub start_each : Time → List InstanceConfig → Manager → Manager
  unfolding start
  start_each now [] m = m
  start_each now (cfg ∷ rest) m =
      start_each now rest (if cfg.enabled then (start now cfg.id m).0 else m)

  unfoldable pub start_enabled : Time → Manager → Manager
  unfolding start_each
  start_enabled now m = start_each now (list_instances m.store) m

  -- `ApplyConfig`.
  unfoldable pub apply_config : Time → InstanceConfig → Manager → Manager
  unfolding start
  apply_config now cfg m = if cfg.enabled then (start now cfg.id m).0 else m

  abbrev pub clear_if : Bool → Io → Time → Text → Manager → Manager
  clear_if changed io now id m = if changed then clear_runtime io now id m else m

  -- `ReplaceConfig` from where the old runner was done in time.
  unfoldable pub restart : Io → Time → Bool → Text → ℕ → Manager → Outcome
  unfolding start is_current clear_runtime
  restart io now changed id number m =
      let left = if is_current id number m then record m { runners = remove id m.runners } else m in
      start now id (clear_if changed io now id left)

  -- `ReplaceConfig`.
  unfoldable pub replace_config :
      Wait → Io → Time → Time → InstanceConfig → InstanceConfig → Bool → Manager → Outcome
  unfolding restart stop
  replace_config wait io now later old cfg was_running m =
      let changed = public_mapping_config_changed old cfg in
      if not cfg.enabled
      then (if was_running
          then (let stopped_now = stop wait now cfg.id m in
              (clear_if changed io later cfg.id stopped_now.0, stopped_now.1))
          else (m, ok tt))
      else if not was_running
      then start now cfg.id (clear_if changed io now cfg.id m)
      else elim (get cfg.id m.runners) [
        | none ↦ start now cfg.id (clear_if changed io now cfg.id m)
        | some r ↦
            let waited =
              stop_and_wait wait cfg.id r
                (set_status now cfg.id stopping (codes "restarting instance") m) in
            if waited.1
            then restart io later changed cfg.id r.number waited.0
            else (waited.0, err stop_timeout)
      ]
