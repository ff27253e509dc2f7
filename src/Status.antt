-- ===== src/Status.antt =====
-- internal/core/manager.go: how a report of a runner and a change of state by the manager turn one
-- runtime status into the next. `time.Now()` is the argument `now`.
pub mod Logs
pub mod Alive
use natcat.Base.{
  Bool, List, Option, [], drop, false, if◌then◌else◌, is_nil, is_some, length, ltb, none, not, some,
  true, ℕ, ◌&&◌, ◌++◌, ◌-◌, ◌/◌, ◌||◌, ◌∷◌,
}
use natcat.Int.{eq_ℤ, pos, ℤ}
use natcat.Text.{Text, text_eq}
use natcat.Types.{
  KeepAlive, KeepAliveState, Level, LogEntry, PortState, RuntimeStatus, State, Time, connected,
  empty_status, error, info, is_zero, no_check, no_keep, no_keep_alive, no_port_check, no_state,
  running, starting, stopped, stopping,
}

abbrev pub max_logs : ℕ
max_logs = 100

-- `if len(logs) > 100 { logs = logs[len(logs)-100:] }`.
unfoldable pub trim_logs : List LogEntry → List LogEntry
trim_logs logs = if ltb max_logs (length logs) then drop (length logs - max_logs) logs else logs

unfoldable pub is_state : State → State → Bool
is_state no_state no_state = true
is_state stopped stopped = true
is_state starting starting = true
is_state running running = true
is_state stopping stopping = true
is_state State.error State.error = true
is_state _ _ = false

abbrev pub is_connected : KeepAliveState → Bool
is_connected connected = true
is_connected _ = false

abbrev pub has_keep_alive : KeepAliveState → Bool
has_keep_alive no_keep_alive = false
has_keep_alive _ = true

abbrev pub has_check : PortState → Bool
has_check no_check = false
has_check _ = true

-- `stateClearsKeepAlive`.
unfoldable pub state_clears_keep_alive : State → Bool
state_clears_keep_alive starting = true
state_clears_keep_alive stopping = true
state_clears_keep_alive stopped = true
state_clears_keep_alive _ = false

-- `stateBlocksKeepAlive`.
unfoldable pub state_blocks_keep_alive : State → Bool
state_blocks_keep_alive stopping = true
state_blocks_keep_alive stopped = true
state_blocks_keep_alive _ = false

-- `reportClearsKeepAlive`.
unfoldable pub report_clears_keep_alive : RuntimeStatus → Bool
unfolding state_blocks_keep_alive is_state
report_clears_keep_alive u =
    if state_blocks_keep_alive u.state
    then true
    else is_state u.state starting && is_some u.started_at

-- `keepAliveConnectedAtBelongsToRun`.
unfoldable pub belongs_to_run : RuntimeStatus → Bool
belongs_to_run st = elim st.started_at [
  | none ↦ true
  | some started ↦ not (ltb st.keep_alive.connected_at started)
]

-- The block `if update.State != ""`.
unfoldable pub merge_state : RuntimeStatus → RuntimeStatus → RuntimeStatus
unfolding is_state report_clears_keep_alive
merge_state cur u = if is_state u.state no_state then cur else record cur {
  state = u.state;
  keep_alive = if report_clears_keep_alive u then no_keep else cur.keep_alive;
  last_error =
      if not (is_state u.state State.error) && is_nil u.last_error then [] else cur.last_error;
}

abbrev pub or_time : Time → Time → Time
or_time t old = if is_zero t then old else t

abbrev pub or_old : Text → Text → Text
or_old s old = if is_nil s then old else s

abbrev pub or_port : ℤ → ℤ → ℤ
or_port n old = if eq_ℤ n (pos 0) then old else n

-- The fields that an update sets if it names them.
unfoldable pub merge_fields : RuntimeStatus → RuntimeStatus → RuntimeStatus
merge_fields cur u = record cur {
  started_at = if is_some u.started_at then u.started_at else cur.started_at;
  last_change = or_time u.last_change cur.last_change;
  public_address = or_old u.public_address cur.public_address;
  public_port = or_port u.public_port cur.public_port;
  public_stable_since = or_time u.public_stable_since cur.public_stable_since;
  public_updated_at = or_time u.public_updated_at cur.public_updated_at;
  private_address = or_old u.private_address cur.private_address;
  private_port = or_port u.private_port cur.private_port;
  protocol = or_old u.protocol cur.protocol;
  last_error = or_old u.last_error cur.last_error;
}

-- The session of the update is the one that is running: its start is kept.
unfoldable pub same_session : RuntimeStatus → KeepAlive → Bool
unfolding belongs_to_run
same_session cur next =
    is_connected next.state
    && is_connected cur.keep_alive.state
    && text_eq next.protocol cur.keep_alive.protocol
    && text_eq next.address cur.keep_alive.address
    && eq_ℤ next.port cur.keep_alive.port
    && belongs_to_run cur
    && not (is_zero cur.keep_alive.connected_at)

-- The block `if update.KeepAlive.State != ""`.
unfoldable pub merge_keep_alive : RuntimeStatus → RuntimeStatus → RuntimeStatus
unfolding same_session state_blocks_keep_alive
merge_keep_alive cur u =
    let next = u.keep_alive in
    if not (has_keep_alive next.state) || state_blocks_keep_alive cur.state
    then cur
    else record cur {
      keep_alive =
          if same_session cur next
          then record next { connected_at = cur.keep_alive.connected_at }
          else next;
    }

-- The blocks for the port check, the log and the time of the change.
unfoldable pub merge_rest : Time → RuntimeStatus → RuntimeStatus → RuntimeStatus
unfolding trim_logs
merge_rest now cur u = record cur {
  port_check = if has_check u.port_check.state then u.port_check else cur.port_check;
  logs = if is_nil u.logs then cur.logs else trim_logs (cur.logs ++ u.logs);
  last_change = or_time cur.last_change now;
}

-- The status that `report` stores.
unfoldable pub merge : Time → RuntimeStatus → RuntimeStatus → RuntimeStatus
merge now cur u = merge_rest now (merge_keep_alive (merge_fields (merge_state cur u) u) u) u

-- The status of an instance that has none yet.
abbrev pub stopped_status : Time → RuntimeStatus
stopped_status now = record empty_status { state = stopped; last_change = now }

-- What a change of state adds to the log: its error, else its message if it has one.
abbrev pub news : Time → Text → Option Text → List LogEntry
news now message (some failure) = record { at = now; level = Level.error; message = failure } ∷ []
news now message none =
    if is_nil message then [] else record { at = now; level = info; message = message } ∷ []

-- `setStatusLocked`, on the status; `failure` is the text of its error.
unfoldable pub set_state : Time → RuntimeStatus → State → Text → Option Text → RuntimeStatus
unfolding state_clears_keep_alive trim_logs
set_state now st state message failure = record st {
  state = state;
  last_change = now;
  keep_alive = if state_clears_keep_alive state then no_keep else st.keep_alive;
  last_error = elim failure [
    | none ↦ if is_nil message then st.last_error else []
    | some text ↦ text
  ];
  logs = trim_logs (st.logs ++ news now message failure);
}

-- The fields that `clearRuntime` resets.
unfoldable pub clear_public : RuntimeStatus → RuntimeStatus
clear_public st = record st {
  public_address = [];
  public_port = pos 0;
  public_stable_since = 0;
  public_updated_at = 0;
  private_address = [];
  private_port = pos 0;
  protocol = [];
  port_check = no_port_check;
}

-- `connectedSeconds`, in whole seconds.
unfoldable pub connected_seconds : Time → Time → ℕ
connected_seconds connected_at now =
    if ltb now connected_at then 0 else (now - connected_at) / 1_000_000_000

-- `runtimeWithServerAges`.
unfoldable pub with_server_ages : RuntimeStatus → Time → RuntimeStatus
unfolding connected_seconds
with_server_ages st now = record st {
  keep_alive = record (st.keep_alive) {
    connected_seconds =
        if is_connected st.keep_alive.state && not (is_zero st.keep_alive.connected_at)
        then connected_seconds st.keep_alive.connected_at now
        else 0;
  };
}
