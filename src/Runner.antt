-- ===== src/Runner.antt =====
-- internal/core/runner.go: what a runner tells its manager, and the errors that its loops end with.
-- What it reports is a list, in the order of the calls of `report`; `now` is the time of a report.
pub mod Run
pub mod Lifecycle
pub mod Request
pub mod Session
pub mod Dial
pub mod Select
pub mod Reconnect
pub mod GivesUp
pub mod Tcp
pub mod Retry
use natcat.Base.{Bool, List, Option, [], any, if◌then◌else◌, is_nil, none, some, ℕ, ◌++◌, ◌∷◌}
use natcat.Int.{pos, ℤ}
use natcat.Port.{bind_port}
use natcat.Status.{connected_seconds, is_connected}
use natcat.Text.{Text, atoi, codes, contains, to_lower}
use natcat.Types.{InstanceConfig, KeepAliveState, Level, RuntimeStatus, State, Time, empty_status}

-- The errors that a run tells apart: `errStopped` or a cancelled context, one that wraps
-- `errSessionClosed`, and the others; with their texts.
pub data RunError : Type 0 where
  stopped_run : RunError
  session_closed : Text → RunError
  failed : Text → RunError

-- `fmt.Errorf("%w: …", errSessionClosed, …)`.
abbrev pub close_session : Text → RunError
close_session message = session_closed (codes "session closed: " ++ message)

-- `emit`.
unfoldable pub emit : Time → RuntimeStatus → RuntimeStatus
emit now update = record update { last_change = now }

-- A report of a state with a line of the log.
unfoldable pub state_report : Time → State → Level → Text → RuntimeStatus
unfolding emit
state_report now state level message = emit now (record empty_status {
  state = state;
  logs = record { at = now; level = level; message = message } ∷ [];
})

-- `log`.
unfoldable pub log : Time → Level → Text → RuntimeStatus
unfolding emit
log now level message =
    emit now
      (record empty_status { logs = record { at = now; level = level; message = message } ∷ [] })

-- `net.SplitHostPort`, none where it fails.
abbrev pub SplitHostPort : Type 0
SplitHostPort = Text → Option (Text × Text)

-- `splitAddr`.
unfoldable pub split_addr : SplitHostPort → Text → Text × ℤ
split_addr split_host_port value = elim (split_host_port value) [
  | none ↦ (value, pos 0)
  | some (host, raw_port) ↦ elim (atoi raw_port) [ none ↦ (host, pos 0) | some port ↦ (host, port) ]
]

-- The `net.Addr` of a peer: one with an address and a port, another by its text, or nil.
pub data Remote : Type 0 where
  ip_port : Text → ℤ → Remote
  named : Text → Remote
  nobody : Remote

unfoldable pub remote_host_port : SplitHostPort → Remote → Text × ℤ
unfolding split_addr
remote_host_port split_host_port (ip_port host port) = (host, port)
remote_host_port split_host_port (named value) = split_addr split_host_port value
remote_host_port split_host_port nobody = ([], pos 0)

-- `emitKeepAlive`.
unfoldable pub emit_keep_alive :
    SplitHostPort → Time → KeepAliveState → Text → Remote → Text → ℕ → RuntimeStatus
unfolding emit remote_host_port
emit_keep_alive split_host_port now state protocol remote message latency_ms =
    let at = remote_host_port split_host_port remote in
    emit now (record empty_status {
      keep_alive = record {
        state = state;
        protocol = protocol;
        address = at.0;
        port = at.1;
        latency_ms = latency_ms;
        connected_at = if is_connected state then now else 0;
        connected_seconds = 0;
        last_seen_at = now;
        message = message;
      };
    })

abbrev pub contains_any_of : Text → List Text → Bool
contains_any_of s words = any (contains s) words

-- `isLocalAddressBusy`, of the text of an error.
unfoldable pub is_local_address_busy : Text → Bool
is_local_address_busy message = contains_any_of (to_lower message) (
    codes "cannot assign requested address"
    ∷ codes "address already in use"
    ∷ codes "only one usage of each socket address"
    ∷ codes "forbidden by its access permissions"
    ∷ codes "eaddrnotavail"
    ∷ codes "eaddrinuse"
    ∷ [])

-- `isLocalPortUnavailable`.
unfoldable pub is_local_port_unavailable : Text → Bool
is_local_port_unavailable message = contains_any_of (to_lower message) (
    codes "address already in use"
    ∷ codes "only one usage of each socket address"
    ∷ codes "forbidden by its access permissions"
    ∷ codes "eaddrinuse"
    ∷ codes "wsaeaddrinuse"
    ∷ [])

-- `emptyAsAny`.
unfoldable pub empty_as_any : Text → Text
empty_as_any value = if is_nil value then codes "自动" else value

-- `describeRunError`.
unfoldable pub describe_run_error : InstanceConfig → Text → Text
unfolding empty_as_any
describe_run_error cfg raw =
    let lower_raw = to_lower raw in
    if contains_any_of lower_raw (
      codes "only one usage of each socket address"
      ∷ codes "address already in use"
      ∷ codes "eaddrinuse"
      ∷ [])
    then codes "本地端口 "
      ++ cfg.bind_port
      ++ codes " 已被占用或还在系统保留状态。请换一个绑定端口，或停止占用该端口的程序后再启动。原始错误："
      ++ raw
    else if contains_any_of lower_raw
        (codes "cannot assign requested address" ∷ codes "eaddrnotavail" ∷ [])
    then codes "无法使用绑定地址/端口 "
      ++ empty_as_any cfg.bind_address
      ++ b':' ∷ cfg.bind_port
      ++ codes "。请检查绑定地址是否属于本机，或等待上一条连接释放。原始错误："
      ++ raw
    else if contains lower_raw (codes "no such host")
    then codes "域名解析失败。请检查 HTTP/QUIC 保活目标或公网探测服务。原始错误：" ++ raw
    else if contains_any_of lower_raw (codes "timeout" ∷ codes "timed out" ∷ [])
    then codes "连接超时。请检查网络、HTTP/QUIC 保活目标、公网探测服务和防火墙。原始错误：" ++ raw
    else raw
