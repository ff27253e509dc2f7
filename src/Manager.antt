-- ===== src/Manager.antt =====
-- internal/core/manager.go: the manager of the runners. Each definition on a manager is a section
-- under its lock, or several of them in order; what the other goroutines do while one waits is the
-- argument `wait`. Runners are told apart by a number, channels too. `time.Now()` is `now`.
pub mod Control
pub mod Events
pub mod Steps
pub mod Well
pub mod Restart
pub mod PortCheck
use natcat.Base.{
  Bool, List, Option, [], drop, if◌then◌else◌, is_some, length, ltb, map, none, not, some, suc, ℕ,
  ◌&&◌, ◌++◌, ◌==◌, ◌∷◌,
}
use natcat.Dict.{get, put}
use natcat.Mapping.{MappingState}
use natcat.Status.{is_connected, set_state, stopped_status, with_server_ages}
use natcat.Store.{Store}
use natcat.Store.Instances.{get_instance, list_instances}
use natcat.Text.{Text}
use natcat.Types.{InstanceConfig, InstanceSnapshot, RuntimeStatus, State, Time, is_zero}

pub record RuntimeEvent : Type 0 where
  pub id : Text
  pub runtime : RuntimeStatus

pub record KeepAliveAgeEvent : Type 0 where
  pub id : Text
  pub connected_seconds : ℕ

-- The part of a runner that the manager touches: `can_cancel` holds once `Run` has stored its
-- cancel function, `cancelled` once that was called.
pub record Runner : Type 0 where
  pub number : ℕ
  pub cfg : InstanceConfig
  pub mapping : MappingState
  pub can_cancel : Bool
  pub cancelled : Bool

-- A channel of 64 events with what waits in it.
pub record Subscriber : Type 0 where
  pub number : ℕ
  pub queue : List RuntimeEvent

pub record Manager : Type 0 where
  pub store : Store
  pub runners : List (Text × Runner)
  pub status : List (Text × RuntimeStatus)
  pub subscribers : List Subscriber
  pub next_number : ℕ

pub data ManagerError : Type 0 where
  not_exist stop_timeout : ManagerError

unfoldable pub new_manager : Store → Manager
new_manager store = record {
  store = store;
  runners = [];
  status = [];
  subscribers = [];
  next_number = 0;
}

abbrev pub channel_size : ℕ
channel_size = 64

-- The `select` of `notifyStatusLocked`: the oldest event makes room in a channel that is full.
unfoldable pub send : RuntimeEvent → List RuntimeEvent → List RuntimeEvent
send event queue =
    if ltb (length queue) channel_size then queue ++ event ∷ [] else drop 1 queue ++ event ∷ []

unfoldable pub send_all : RuntimeEvent → List Subscriber → List Subscriber
unfolding send
send_all event [] = []
send_all event (ch ∷ rest) = record ch { queue = send event ch.queue } ∷ send_all event rest

-- `notifyStatusLocked`.
unfoldable pub notify_status : Time → Text → RuntimeStatus → Manager → Manager
unfolding send_all
notify_status now id st m = record m {
  subscribers = send_all (record { id = id; runtime = with_server_ages st now }) m.subscribers;
}

-- `statusForLocked`.
unfoldable pub status_for : Time → Manager → Text → RuntimeStatus
status_for now m id = elim (get id m.status) [ none ↦ stopped_status now | some st ↦ st ]

-- `m.status[id] = st` and the notice of it.
unfoldable pub put_status : Time → Text → RuntimeStatus → Manager → Manager
unfolding notify_status
put_status now id st m = notify_status now id st (record m { status = put id st m.status })

-- `setStatusLocked`; its error is nil at every call.
unfoldable pub set_status : Time → Text → State → Text → Manager → Manager
unfolding status_for put_status
set_status now id state message m =
    put_status now id (set_state now (status_for now m id) state message none) m

-- `SubscribeRuntime`: the manager and the channel.
unfoldable pub subscribe : Manager → Manager × ℕ
subscribe m = (
  record m {
    subscribers = record { number = m.next_number; queue = [] } ∷ m.subscribers;
    next_number = suc m.next_number;
  },
  m.next_number,
)

-- The function that `SubscribeRuntime` returns.
unfoldable pub remove_subscriber : ℕ → List Subscriber → List Subscriber
remove_subscriber n [] = []
remove_subscriber n (ch ∷ rest) =
    let kept = remove_subscriber n rest in if ch.number == n then kept else ch ∷ kept

unfoldable pub unsubscribe : ℕ → Manager → Manager
unfolding remove_subscriber
unsubscribe n m = record m { subscribers = remove_subscriber n m.subscribers }

-- `IsRunning`.
unfoldable pub is_running : Manager → Text → Bool
is_running m id = is_some (get id m.runners)

-- `KeepAliveAges`, in the order of the map.
unfoldable pub ages_of : Time → List (Text × RuntimeStatus) → List KeepAliveAgeEvent
ages_of now [] = []
ages_of now ((id, st) ∷ rest) =
    let more = ages_of now rest in
    if is_connected st.keep_alive.state && not (is_zero st.keep_alive.connected_at)
    then record {
      id = id;
      connected_seconds = natcat.Status.connected_seconds st.keep_alive.connected_at now;
    }
      ∷ more
    else more

unfoldable pub keep_alive_ages : Time → Manager → List KeepAliveAgeEvent
unfolding ages_of
keep_alive_ages now m = ages_of now m.status

-- `List`, where `sort` is `sort.Slice` by name.
unfoldable pub list :
    (List InstanceSnapshot → List InstanceSnapshot) → Time → Manager → List InstanceSnapshot
list sort now m = sort (
    map
      (λ (cfg : InstanceConfig). record {
        config = cfg;
        runtime = with_server_ages (status_for now m cfg.id) now;
      })
      (list_instances m.store))

-- `Snapshot`.
unfoldable pub snapshot : Time → Manager → Text → Option InstanceSnapshot
snapshot now m id = elim (get_instance m.store id) [
  | none ↦ none
  | some cfg ↦ some (record { config = cfg; runtime = with_server_ages (status_for now m id) now })
]
