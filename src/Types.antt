-- ===== src/Types.antt =====
-- internal/core/types.go: the data of the program.
-- A Go `int` is an ℤ; a `time.Time` is the number of nanoseconds since Go's zero time, so 0 is the
-- zero time; a nil slice is the empty list. The states, levels and check results are the string
-- constants of the source, with the empty string as a constructor of its own.
use natcat.Base.{Bool, List, Option, [], false, none, ℕ, ◌==◌}
use natcat.Int.{pos, ℤ}
use natcat.Text.{Text}

abbrev pub Time : Type 0
Time = ℕ

abbrev pub is_zero : Time → Bool
is_zero t = t == 0

pub data State : Type 0 where
  no_state stopped starting running stopping error : State

pub data KeepAliveState : Type 0 where
  no_keep_alive unknown connected reconnecting disconnected : KeepAliveState

pub data PortState : Type 0 where
  no_check unknown_port open_port timeout closed : PortState

pub data Level : Type 0 where
  info warn error : Level

pub record ServerEndpoint : Type 0 where
  pub host : Text
  pub port : ℤ

pub record ServerGroup : Type 0 where
  pub id : Text
  pub name : Text
  pub servers : List ServerEndpoint

pub record SystemOptions : Type 0 where
  pub session_hours : ℤ
  pub stun_servers : List ServerEndpoint
  pub http_servers : List ServerEndpoint
  pub quic_servers : List ServerEndpoint
  pub stun_groups : List ServerGroup
  pub keep_alive_groups : List ServerGroup

pub record ServerGroupsConfig : Type 0 where
  pub stun_servers : List ServerEndpoint
  pub http_servers : List ServerEndpoint
  pub quic_servers : List ServerEndpoint
  pub stun_groups : List ServerGroup
  pub keep_alive_groups : List ServerGroup

pub record AdminCredential : Type 0 where
  pub username : Text
  pub salt : Text
  pub hash : Text
  pub iterations : ℤ
  pub last_password : Time

pub record InstanceConfig : Type 0 where
  pub id : Text
  pub name : Text
  pub enabled : Bool
  pub protocol : Text
  pub bind_address : Text
  pub bind_port : Text
  pub stun_mode : Text
  pub stun_group_id : Text
  pub stun_host : Text
  pub stun_port : ℤ
  pub keep_alive_mode : Text
  pub keep_alive_group_id : Text
  pub http_host : Text
  pub http_port : ℤ
  pub interface : Text
  pub keep_alive_seconds : ℤ
  pub mapping_confirmations : ℤ
  pub notify_script : Text
  pub fw_mark : ℕ
  pub resolved_stun_servers : List ServerEndpoint
  pub resolved_keep_alive_servers : List ServerEndpoint

pub record PortCheck : Type 0 where
  pub protocol : Text
  pub state : PortState
  pub latency_ms : ℕ
  pub checked_at : Time
  pub message : Text

pub record KeepAlive : Type 0 where
  pub state : KeepAliveState
  pub protocol : Text
  pub address : Text
  pub port : ℤ
  pub latency_ms : ℕ
  pub connected_at : Time
  pub connected_seconds : ℕ
  pub last_seen_at : Time
  pub message : Text

pub record LogEntry : Type 0 where
  pub at : Time
  pub level : Level
  pub message : Text

pub record RuntimeStatus : Type 0 where
  pub state : State
  pub started_at : Option Time
  pub last_change : Time
  pub public_address : Text
  pub public_port : ℤ
  pub public_stable_since : Time
  pub public_updated_at : Time
  pub private_address : Text
  pub private_port : ℤ
  pub protocol : Text
  pub last_error : Text
  pub keep_alive : KeepAlive
  pub port_check : PortCheck
  pub logs : List LogEntry

pub record PersistedRuntimeStatus : Type 0 where
  pub public_address : Text
  pub public_port : ℤ
  pub public_stable_since : Time
  pub public_updated_at : Time
  pub private_address : Text
  pub private_port : ℤ
  pub protocol : Text

pub record InstanceSnapshot : Type 0 where
  pub config : InstanceConfig
  pub runtime : RuntimeStatus

pub record Database : Type 0 where
  pub version : ℤ
  pub admin : AdminCredential
  pub options : SystemOptions
  pub items : List InstanceConfig
  pub runtime : List (Text × PersistedRuntimeStatus)

-- The zero values of the struct types.
abbrev pub no_port_check : PortCheck
no_port_check = record {
  protocol = [];
  state = no_check;
  latency_ms = 0;
  checked_at = 0;
  message = [];
}

abbrev pub no_keep : KeepAlive
no_keep = record {
  state = no_keep_alive;
  protocol = [];
  address = [];
  port = pos 0;
  latency_ms = 0;
  connected_at = 0;
  connected_seconds = 0;
  last_seen_at = 0;
  message = [];
}

abbrev pub empty_status : RuntimeStatus
empty_status = record {
  state = no_state;
  started_at = none;
  last_change = 0;
  public_address = [];
  public_port = pos 0;
  public_stable_since = 0;
  public_updated_at = 0;
  private_address = [];
  private_port = pos 0;
  protocol = [];
  last_error = [];
  keep_alive = no_keep;
  port_check = no_port_check;
  logs = [];
}

abbrev pub no_config : InstanceConfig
no_config = record {
  id = [];
  name = [];
  enabled = false;
  protocol = [];
  bind_address = [];
  bind_port = [];
  stun_mode = [];
  stun_group_id = [];
  stun_host = [];
  stun_port = pos 0;
  keep_alive_mode = [];
  keep_alive_group_id = [];
  http_host = [];
  http_port = pos 0;
  interface = [];
  keep_alive_seconds = pos 0;
  mapping_confirmations = pos 0;
  notify_script = [];
  fw_mark = 0;
  resolved_stun_servers = [];
  resolved_keep_alive_servers = [];
}
