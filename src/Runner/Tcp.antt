-- ===== src/Runner/Tcp.antt =====
-- internal/core/runner.go: a run over TCP, `runTCP`, as what it does, in order. `net.IP.String` and
-- the texts of addresses are parameters, and the loop over the sessions runs on fuel.
pub mod Held
pub mod OneProbe
use natcat.Base.{
  Bool, List, Option, [], if◌then◌else◌, is_nil, map, none, some, suc, zero, ℕ, ◌++◌, ◌||◌, ◌∷◌,
}
use natcat.Int.{pos, ℤ}
use natcat.Net.{Ip, is_unspecified}
use natcat.Result.{err, ok}
use natcat.Rotation.{Cursors}
use natcat.Runner.{RunError, failed, session_closed, stopped_run}
use natcat.Runner.Reconnect.{Attempt, Reconnected, reconnect_tcp_keep_alive_for_probe}
use natcat.Runner.Select.{
  Link, Tries, closes, error_text, needs_port, open_tcp_keep_alive_from_servers, open_tcp_links,
  wrap,
}
use natcat.Text.{Text, codes, itoa}
use natcat.Types.{KeepAliveState, ServerEndpoint, State, connected, disconnected, reconnecting}
use natcat.Udp.Probe.{describe_server_endpoint}

-- What a run does: it calls `advanceBindPort`, `keepBindPort`, `emitKeepAlive` with a state, the
-- server, a message and a latency, or `emit` with the local address; it writes a line of the log
-- for a closed session; it opens the connection to a server or closes it; and it starts the
-- goroutine of a public probe, or cancels its context, by the number of the session that the probe
-- belongs to. A reconnection reports states, and may call `advanceBindPort`; these stand before its
-- connections.
pub data Event : Type 0 where
  advances_port : Event
  keeps_port : ℤ → Event
  tells : KeepAliveState → ServerEndpoint → Text → ℕ → Event
  binds : Text → ℤ → Event
  warns : Text → Event
  link : Link → Event
  starts cancels : ℕ → Event
  reconnects : List State → Bool → Event

-- What happens to a session behind its begin: how `tcpKeepAlive` ends, whether the context is done
-- then, the attempts to reconnect and their number, and what
-- `skipTCPPublicProbeAfterReconnect` answers.
pub record TcpSession : Type 0 where
  pub kept : RunError
  pub is_done : Bool
  pub attempts : ℕ → Attempt
  pub attempts_fuel : ℕ
  pub skips : Bool

-- What a run is given: its servers, the address to bind and the one it is bound to, the text of
-- the first, what the servers come to at first, and the sessions.
pub record TcpRun : Type 0 where
  pub servers : List ServerEndpoint
  pub bind_ip : Ip
  pub local_ip : Ip
  pub local_port : ℤ
  pub local_text : Text
  pub show_ip : Ip → Text
  pub tries : Tries
  pub sessions : ℕ → TcpSession

-- What a run did, and the error that it returned, none where it goes on.
abbrev pub TcpTrace : Type 0
TcpTrace = List Event × Option RunError

abbrev pub then_events : List Event → TcpTrace → TcpTrace
then_events told rest = (told ++ rest.0, rest.1)

-- `cancelProbe()`, of the probe with a number, or of none.
abbrev pub cancel_probe : Option ℕ → List Event
cancel_probe none = []
cancel_probe (some n) = cancels n ∷ []

abbrev pub rtt_message : ℕ → Text
rtt_message latency = codes "tcp rtt " ++ itoa (pos latency) ++ codes "ms"

abbrev pub closed_message : ServerEndpoint → Text → Text
closed_message e reason =
    codes "! keepalive session closed --proto tcp --target "
    ++ describe_server_endpoint e
    ++ codes " --reason "
    ++ reason

-- What is told of a session that is closed.
abbrev pub warned_of : ServerEndpoint → RunError → List Event
warned_of e kept =
    warns (closed_message e (error_text kept)) ∷ tells reconnecting e (error_text kept) 0 ∷ []

-- What a reconnection to a server leaves, before `more`.
abbrev pub opened : Reconnected → ServerEndpoint → ℕ → List Event → List Event
opened back e latency more =
    reconnects back.states back.advances ∷ map link back.links
    ++ tells connected e (rtt_message latency) latency ∷ more

-- What follows on a session, with its probe and server.
abbrev pub Rest : Type 0
Rest = Option ℕ → ServerEndpoint → Cursors → TcpTrace

-- The end of the loop's body, from the reconnection on, before `rest`.
unfoldable pub after_reconnect : TcpSession → ℕ → Reconnected → Rest → TcpTrace
after_reconnect s n back rest = elim back.result [
  | none ↦ (reconnects back.states back.advances ∷ map link back.links, none)
  | some (err e) ↦ (reconnects back.states back.advances ∷ map link back.links, some e)
  | some (ok (e, latency)) ↦
      if s.skips
      then then_events (opened back e latency []) (rest none e back.cursors)
      else then_events (opened back e latency (starts (suc n) ∷ []))
          (rest (some (suc n)) e back.cursors)
]

-- The loop's body from the end of `tcpKeepAlive` on: the session to `e` with number `n`, of which
-- `closing` is what was done at its end.
unfoldable pub after_kept :
    TcpRun → TcpSession → ℕ → ServerEndpoint → Cursors → List Event → Rest → RunError → TcpTrace
unfolding after_reconnect reconnect_tcp_keep_alive_for_probe
after_kept run s n e cs closing rest stopped_run =
    (closing ++ tells disconnected e (error_text stopped_run) 0 ∷ [], some stopped_run)
after_kept run s n e cs closing rest (failed message) =
    (closing ++ tells disconnected e message 0 ∷ [], some (failed message))
after_kept run s n e cs closing rest (session_closed message) =
    let back = reconnect_tcp_keep_alive_for_probe s.attempts e run.servers s.attempts_fuel cs in
    let warned = closing ++ warned_of e (session_closed message) in
    if s.is_done
    then (warned, some stopped_run)
    else then_events warned (after_reconnect s n back rest)

-- The body of the loop: the session to `e` with number `n`, beside the probe.
unfoldable pub tcp_session : TcpRun → ℕ → Option ℕ → ServerEndpoint → Cursors → Rest → TcpTrace
unfolding after_kept
tcp_session run n probe e cs rest =
    let s = run.sessions n in
    after_kept run s n e cs (cancel_probe probe ++ link closes ∷ []) rest s.kept

-- The loop of `runTCP`.
unfoldable pub tcp_sessions : TcpRun → ℕ → ℕ → Option ℕ → ServerEndpoint → Cursors → TcpTrace
unfolding tcp_session
tcp_sessions run zero n probe e cs = ([], none)
tcp_sessions run (suc fuel) n probe e cs =
    tcp_session run n probe e cs (λ (q : Option ℕ) (e' : ServerEndpoint) (cs' : Cursors).
      tcp_sessions run fuel (suc n) q e' cs')

-- The local address of a run, which is the one to bind where the socket names none.
unfoldable pub private_ip_of : TcpRun → Ip
private_ip_of run =
    if is_nil run.local_ip || is_unspecified run.local_ip then run.bind_ip else run.local_ip

-- What is done once the first server answered.
abbrev pub first_events : TcpRun → ServerEndpoint → ℕ → List Event
first_events run e latency =
    keeps_port run.local_port
    ∷ tells connected e (rtt_message latency) latency
    ∷ binds (run.show_ip (private_ip_of run)) run.local_port
    ∷ starts 0
    ∷ []

-- `runTCP`.
unfoldable pub run_tcp : TcpRun → ℕ → Cursors → TcpTrace
unfolding tcp_sessions private_ip_of open_tcp_keep_alive_from_servers open_tcp_links needs_port
run_tcp run fuel cs =
    let first = open_tcp_keep_alive_from_servers run.tries cs run.servers in
    let links = map link (open_tcp_links run.tries cs run.servers) in
    elim first.1 [
      | err e ↦ (
        links ++ (if needs_port e then advances_port ∷ [] else []),
        some (
            wrap
              (codes "tcp keep-alive connect from "
                ++ run.local_text
                ++ codes " to configured servers: ")
              e),
      )
      | ok (e, latency) ↦
          then_events (links ++ first_events run e latency)
            (tcp_sessions run fuel 0 (some 0) e first.0)
    ]
