-- ===== src/Runner/Request.antt =====
-- internal/core/runner.go: a keep-alive over TCP or QUIC, from one request to the end of the
-- session. `time.Second` and `time.Duration` are counts of nanoseconds.
use natcat.Base.{
  Bool, List, Option, [], false, if◌then◌else◌, leb, ltb, none, some, true, ℕ, ◌++◌, ◌∷◌, ◌≡◌, ◌⊎◌,
}
use natcat.Int.{eq_ℤ, pos}
use natcat.Result.{Result, err, ok}
use natcat.Runner.{RunError, close_session, session_closed, stopped_run}
use natcat.Text.{Text, codes, itoa, join_host_port}
use natcat.Types.{ServerEndpoint, Time}

-- The request that `tcpKeepAliveRequest` writes.
unfoldable pub keep_alive_request : ServerEndpoint → Text
keep_alive_request e =
    let host = if eq_ℤ e.port (pos 80) then e.host else join_host_port e.host (itoa e.port) in
    let line_end = 13 ∷ 10 ∷ [] in
    codes "HEAD / HTTP/1.1"
    ++ line_end
    ++ codes "Host: "
    ++ host
    ++ line_end
    ++ codes "Connection: keep-alive"
    ++ line_end
    ++ line_end

-- What `http.ReadResponse` comes to: whether the response asks to close, the end of the stream, or
-- the text of another error.
pub data Reading : Type 0 where
  answered : Bool → Reading
  at_end : Reading
  not_read : Text → Reading

-- What happens in a request; the texts are those of errors.
pub record Exchange : Type 0 where
  pub begins_done : Bool
  pub write_deadline : Option Text
  pub write : Option Text
  pub write_done : Bool
  pub read_deadline : Option Text
  pub reading : Reading
  pub read_done : Bool
  pub rtt : Option ℕ

-- An error behind which the context is looked at.
abbrev pub unless_done : {A : Type 0} → Bool → Text → Result RunError A
unless_done true message = err stopped_run
unless_done false message = err (close_session message)

abbrev pub close_if : {A : Type 0} → Option Text → Text → Result RunError A → Result RunError A
close_if none prefix rest = rest
close_if (some message) prefix rest = err (close_session (prefix ++ message))

-- `tcpRTTMilliseconds`: the measured time if there is one, else what is known.
unfoldable pub rtt_or : Option ℕ → ℕ → ℕ
rtt_or none known = if ltb 0 known then known else 0
rtt_or (some millis) known = millis

-- From where the response was read.
unfoldable pub read_response : Exchange → ℕ → Result RunError ℕ
unfolding rtt_or
read_response x last = elim x.reading [
  | at_end ↦ unless_done x.read_done (codes "tcp keep-alive closed by peer")
  | not_read message ↦ unless_done x.read_done (codes "tcp keep-alive read response: " ++ message)
  | answered true ↦ err (close_session (codes "tcp keep-alive response requested close"))
  | answered false ↦ ok (rtt_or x.rtt last)
]

-- `tcpKeepAliveRequest`: the latency.
unfoldable pub tcp_keep_alive_request : Exchange → ℕ → Result RunError ℕ
unfolding read_response
tcp_keep_alive_request x last =
    if x.begins_done
    then err stopped_run
    else close_if x.write_deadline (codes "tcp keep-alive write deadline: ") (elim x.write [
      | some message ↦ unless_done x.write_done (codes "tcp keep-alive write: " ++ message)
      | none ↦
          close_if x.read_deadline (codes "tcp keep-alive read deadline: ") (read_response x last)
    ])

-- What `reader.Peek(1)` comes to; bytes that arrived are thrown away.
pub data Peek : Type 0 where
  arrived waited_out at_end : Peek
  not_read : Text → Peek

-- A round of `waitTCPKeepAliveInterval`.
pub record Look : Type 0 where
  pub begins_done : Bool
  pub now : Time
  pub read_deadline : Option Text
  pub peek : Peek
  pub peek_done : Bool

-- `waitTCPKeepAliveInterval` until the deadline, on the rounds that happen; none where it has not
-- returned after them.
unfoldable pub wait_interval : Time → List Look → Option (Result RunError (Unit {0}))
wait_interval deadline [] = none
wait_interval deadline (look ∷ looks) =
    let rest = wait_interval deadline looks in
    if look.begins_done
    then some (err stopped_run)
    else if leb deadline look.now
    then some (ok tt)
    else elim look.read_deadline [
      | some message ↦
          some (err (close_session (codes "tcp keep-alive read deadline: " ++ message)))
      | none ↦ elim look.peek [
        | arrived ↦ rest
        | waited_out ↦ if look.peek_done then some (err stopped_run) else rest
        | Peek.at_end ↦ some (unless_done look.peek_done (codes "tcp keep-alive closed by peer"))
        | Peek.not_read message ↦
            some (unless_done look.peek_done (codes "tcp keep-alive read: " ++ message))
      ]
    ]

-- A round of `tcpKeepAlive`.
pub record Beat : Type 0 where
  pub exchange : Exchange
  pub deadline : Time
  pub looks : List Look

-- `tcpKeepAlive`: the latencies that it reported, and its error; none where it goes on.
unfoldable pub tcp_keep_alive : List Beat → ℕ → List ℕ × Option RunError
unfolding tcp_keep_alive_request wait_interval
tcp_keep_alive [] last = ([], none)
tcp_keep_alive (beat ∷ beats) last = elim (tcp_keep_alive_request beat.exchange last) [
  | err e ↦ ([], some e)
  | ok latency ↦ elim (wait_interval beat.deadline beat.looks) [
    | none ↦ (latency ∷ [], none)
    | some (err e) ↦ (latency ∷ [], some e)
    | some (ok u) ↦ let rest = tcp_keep_alive beats latency in (latency ∷ rest.0, rest.1)
  ]
]

-- What the `select` of `quicKeepAliveOnce` takes: the end of the context, that of the connection
-- with its cause, or the timer with what the request comes to.
pub data QuicEvent : Type 0 where
  context_over : QuicEvent
  connection_over : Bool → Option Text → QuicEvent
  timer : Option Text → Bool → ℕ → QuicEvent

-- `quicKeepAliveOnce`: the latency.
unfoldable pub quic_keep_alive_once : QuicEvent → Result RunError ℕ
quic_keep_alive_once context_over = err stopped_run
quic_keep_alive_once (connection_over is_done none) =
    unless_done is_done (codes "udp quic keep-alive closed: connection closed")
quic_keep_alive_once (connection_over is_done (some cause)) =
    unless_done is_done (codes "udp quic keep-alive closed: " ++ cause)
quic_keep_alive_once (timer none is_done latency) = ok latency
quic_keep_alive_once (timer (some message) is_done latency) =
    unless_done is_done (codes "udp quic keep-alive request: " ++ message)

-- The error stops the run or closes the session: `Run` never shows it as an error.
abbrev pub EndsSession : RunError → Type 0
EndsSession e = (e ≡ stopped_run) ⊎ ((message : Text) × (e ≡ session_closed message))
