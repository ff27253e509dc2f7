-- ===== src/Mapping.antt =====
-- internal/core/runner.go: the mapping that a runner holds, under `mapMu`. `time.Now()` is the
-- argument `now`; `net.ParseIP` and `IP.String` are the arguments `parse_ip` and `show_ip`.
pub mod Change
pub mod Seed
use natcat.Base.{
  Bool, Option, [], false, if◌then◌else◌, is_nil, none, not, some, true, ◌&&◌, ◌||◌, ◌∷◌,
}
use natcat.Int.{eq_ℤ, leb_ℤ, pos, ℤ}
use natcat.Net.{Ip, ip_equal, is_unspecified}
use natcat.Result.{Result, fail_if, ok, or_fail, ◌>>=◌, ◌>>◌}
use natcat.Text.{Text, codes, text_eq}
use natcat.Types.{Level, RuntimeStatus, State, Time, empty_status, info, is_zero, running}

pub record MappingEvent : Type 0 where
  pub public_ip : Ip
  pub public_port : ℤ
  pub private_ip : Ip
  pub private_port : ℤ
  pub protocol : Text

pub record MappingState : Type 0 where
  pub last_map : Option MappingEvent
  pub mapping_log_emitted : Bool
  pub public_stable_since : Time
  pub public_updated_at : Time

-- What `NewRunner` sets.
abbrev pub init_mapping : MappingState
init_mapping = record {
  last_map = none;
  mapping_log_emitted = false;
  public_stable_since = 0;
  public_updated_at = 0;
}

-- The public side of the two differs.
unfoldable pub public_differs : MappingEvent → MappingEvent → Bool
public_differs last event =
    not (eq_ℤ last.public_port event.public_port)
    || not (text_eq last.protocol event.protocol)
    || not (ip_equal last.public_ip event.public_ip)

unfoldable pub public_changed : Option MappingEvent → MappingEvent → Bool
unfolding public_differs
public_changed none event = true
public_changed (some last) event = public_differs last event

-- Both sides agree.
unfoldable pub same_mapping : Option MappingEvent → MappingEvent → Bool
same_mapping none event = false
same_mapping (some last) event =
    eq_ℤ last.public_port event.public_port
    && eq_ℤ last.private_port event.private_port
    && text_eq last.protocol event.protocol
    && ip_equal last.public_ip event.public_ip
    && ip_equal last.private_ip event.private_ip

-- `updateMappingLocked`: the new state, and whether the mapping changed.
unfoldable pub update_mapping : Time → MappingState → MappingEvent → MappingState × Bool
unfolding public_changed same_mapping
update_mapping now s event =
    let changed = public_changed s.last_map event in
    let timed = record s {
      public_stable_since =
          if changed || is_zero s.public_stable_since then now else s.public_stable_since;
      public_updated_at =
          if changed || is_zero s.public_updated_at then now else s.public_updated_at;
    } in
    if same_mapping s.last_map event
    then (timed, false)
    else (record timed { last_map = some event }, true)

-- `updateMappingForPublish`: also whether the log line is written.
unfoldable pub update_mapping_for_publish :
    Time → MappingState → MappingEvent → MappingState × Bool × Bool
unfolding update_mapping
update_mapping_for_publish now s event =
    let (s', changed) = update_mapping now s event in
    let emit = changed || not s'.mapping_log_emitted in
    (
      record s' { mapping_log_emitted = if emit then true else s'.mapping_log_emitted },
      changed,
      emit,
    )

-- The status that `publishMapping` reports, with the log line where it is written. The notify
-- script runs exactly if the mapping changed.
unfoldable pub publish_mapping :
    (Ip → Text)
    → Time
    → (MappingEvent → Text)
    → MappingState
    → MappingEvent
    → MappingState × RuntimeStatus × Bool
unfolding update_mapping_for_publish
publish_mapping show_ip now message s event =
    let (s', changed, emit) = update_mapping_for_publish now s event in
    (
      s',
      record empty_status {
        state = State.running;
        last_change = now;
        public_address = show_ip event.public_ip;
        public_port = event.public_port;
        public_stable_since = s'.public_stable_since;
        public_updated_at = s'.public_updated_at;
        private_address = show_ip event.private_ip;
        private_port = event.private_port;
        protocol = event.protocol;
        logs =
            if emit
            then record { at = now; level = Level.info; message = message event } ∷ []
            else [];
      },
      changed,
    )

abbrev pub or_ip : Option Ip → Ip → Ip
or_ip none default = default
or_ip (some ip) default = ip

-- `seedRuntime`, at a runner whose configuration has the given protocol.
unfoldable pub seed_runtime :
    (Text → Option Ip) → Text → MappingState → RuntimeStatus → MappingState
seed_runtime parse_ip cfg_protocol s st =
    if is_nil st.public_address || eq_ℤ st.public_port (pos 0)
    then s
    else elim (parse_ip st.public_address) [
      | none ↦ s
      | some public_ip ↦ record s {
        last_map = some (record {
          public_ip = public_ip;
          public_port = st.public_port;
          private_ip = or_ip (parse_ip st.private_address) [];
          private_port = st.private_port;
          protocol = if is_nil st.protocol then cfg_protocol else st.protocol;
        });
        public_stable_since = st.public_stable_since;
        public_updated_at = st.public_updated_at;
      }
    ]

pub data MappingRefusal : Type 0 where
  no_current_mapping protocol_mismatch invalid_public_mapping private_endpoint_changed :
      MappingRefusal

-- `currentTCPPublicMapping`: the mapping whose reachability is checked after a reconnection.
unfoldable pub check_mapping : Ip → ℤ → MappingEvent → Result MappingRefusal MappingEvent
check_mapping private_ip private_port last = do
  fail_if (not (text_eq last.protocol (codes "tcp"))) protocol_mismatch
  fail_if (is_nil last.public_ip || leb_ℤ last.public_port (pos 0)) invalid_public_mapping
  fail_if (not (eq_ℤ last.private_port private_port)) private_endpoint_changed
  ok (record last {
    private_ip =
        if is_nil last.private_ip || is_unspecified last.private_ip
        then private_ip
        else last.private_ip;
  })

unfoldable pub current_tcp_public_mapping :
    MappingState → Ip → ℤ → Result MappingRefusal MappingEvent
unfolding check_mapping
current_tcp_public_mapping s private_ip private_port = do
  last ← or_fail s.last_map no_current_mapping
  check_mapping private_ip private_port last
