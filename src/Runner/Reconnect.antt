-- ===== src/Runner/Reconnect.antt =====
-- internal/core/runner.go: a closed session is opened again, `reconnectTCPKeepAliveForProbe` and
-- `reconnectQUICKeepAliveForProbe`. The loop over the attempts runs on fuel.
use natcat.Base.{
  Bool, List, Option, [], false, if◌then◌else◌, leb, length, ltb, none, some, suc, true, zero, ℕ,
  ◌&&◌, ◌++◌, ◌∷◌,
}
use natcat.Result.{err, ok}
use natcat.Rotation.{Cursors, ordered_server_endpoints}
use natcat.Runner.{RunError, close_session, failed, stopped_run}
use natcat.Runner.Select.{
  Chosen, Link, Tries, closes, connects, error_text, needs_port, no_answer, no_connection,
  no_tcp_servers, no_udp_quic_servers, opens, or_error, unresolved,
}
use natcat.Store.Laws.{is_done}
use natcat.Text.{Text, codes}
use natcat.Types.{ServerEndpoint, State, running, starting}

-- An attempt: whether the context is done when it begins, what the servers come to, and whether the
-- context ends in the pause behind it.
pub record Attempt : Type 0 where
  pub begins_done : Bool
  pub tries : Tries
  pub pause_done : Bool

-- How the loop over the servers ends: a session, an error that ends the reconnection with whether
-- the next bind port is to be taken, or the last error.
pub data Pass : Type 0 where
  session : ServerEndpoint → ℕ → Pass
  ends_with : RunError → Bool → Pass
  none_answers : RunError → Pass

abbrev pub port_lost : RunError → RunError
port_lost e = close_session (codes "local bind port unavailable: " ++ error_text e)

-- The loop over the servers of an attempt.
unfoldable pub pass_over :
    (RunError → Bool) → Tries → Text → List ServerEndpoint → Option RunError → Pass
pass_over loses_port tries nothing [] last = none_answers (or_error last nothing)
pass_over loses_port tries nothing (e ∷ endpoints) last = elim (tries e) [
  | unresolved message ↦ pass_over loses_port tries nothing endpoints (some (failed message))
  | connects latency ↦ session e latency
  | no_answer e_tried is_done ↦ pass_over loses_port tries nothing endpoints (some e_tried)
  | no_connection e_tried is_done ↦
      let rest = pass_over loses_port tries nothing endpoints (some e_tried) in
      if is_done
      then ends_with stopped_run false
      else if loses_port e_tried
      then ends_with (port_lost e_tried) true
      else rest
]

-- The connections of the same loop.
unfoldable pub pass_links : (RunError → Bool) → Tries → List ServerEndpoint → List Link
pass_links loses_port tries [] = []
pass_links loses_port tries (e ∷ endpoints) =
    let rest = pass_links loses_port tries endpoints in
    elim (tries e) [
      | unresolved message ↦ rest
      | connects latency ↦ opens e ∷ []
      | no_answer e_tried is_done ↦ opens e ∷ closes ∷ rest
      | no_connection e_tried is_done ↦
          if is_done then [] else if loses_port e_tried then [] else rest
    ]

-- What a reconnection leaves: the cursors, the states reported, the connections, whether `advanceBindPort` was
-- called, and the session or error, none where it goes on.
pub record Reconnected : Type 0 where
  pub cursors : Cursors
  pub states : List State
  pub links : List Link
  pub advances : Bool
  pub result : Option Chosen

abbrev pub ended : Cursors → List State → Bool → Chosen → Reconnected
ended cs states advances result = record {
  cursors = cs;
  states = states;
  links = [];
  advances = advances;
  result = some result;
}

abbrev pub after_states : List State → Reconnected → Reconnected
after_states states rest = record rest { states = states ++ rest.states }

abbrev pub after_links : List Link → Reconnected → Reconnected
after_links links back = record back { links = links ++ back.links }

-- Behind the loop over the servers of attempt number `number`, before `rest`, the attempts that
-- follow.
unfoldable pub after_pass : Text → Attempt → ℕ → ℕ → Cursors → Pass → Reconnected → Reconnected
after_pass prefix a number count cs (session e latency) rest =
    ended cs (starting ∷ running ∷ []) false (ok (e, latency))
after_pass prefix a number count cs (ends_with e advances) rest =
    ended cs (if advances then starting ∷ starting ∷ [] else starting ∷ []) advances (err e)
after_pass prefix a number count cs (none_answers e) rest =
    if leb 3 number && ltb 1 count
    then ended cs (starting ∷ []) false (err (close_session (prefix ++ error_text e)))
    else if a.pause_done
    then ended cs (starting ∷ starting ∷ []) false (err stopped_run)
    else after_states (starting ∷ starting ∷ []) rest

-- The servers of a reconnection, and what is said of them.
pub record Ways : Type 0 where
  pub kind : Text
  pub loses_port : RunError → Bool
  pub nothing : Text
  pub prefix : Text

-- The attempts from the one behind `done_before` on.
unfoldable pub reconnect :
    Ways → (ℕ → Attempt) → ServerEndpoint → List ServerEndpoint → ℕ → ℕ → Cursors → Reconnected
unfolding pass_over pass_links after_pass
reconnect w attempts current endpoints zero done_before cs = record {
  cursors = cs;
  states = [];
  links = [];
  advances = false;
  result = none;
}
reconnect w attempts current endpoints (suc fuel) done_before cs =
    let a = attempts done_before in
    let order = ordered_server_endpoints cs w.kind endpoints (some current) in
    let rest = reconnect w attempts current endpoints fuel (suc done_before) order.0 in
    if a.begins_done
    then ended cs [] false (err stopped_run)
    else after_links (pass_links w.loses_port a.tries order.1) (
        after_pass w.prefix a (suc done_before) (length endpoints) order.0
          (pass_over w.loses_port a.tries w.nothing order.1 none) rest)

abbrev pub tcp_ways : Ways
tcp_ways = record {
  kind = codes "http";
  loses_port = needs_port;
  nothing = no_tcp_servers;
  prefix = codes "keep-alive server reconnect failed; rebuilding with another server: ";
}

abbrev pub quic_ways : Ways
quic_ways = record {
  kind = codes "quic";
  loses_port = λ e. false;
  nothing = no_udp_quic_servers;
  prefix = codes "udp quic keep-alive reconnect failed; rebuilding with another server: ";
}

-- `reconnectTCPKeepAliveForProbe`.
unfoldable pub reconnect_tcp_keep_alive_for_probe :
    (ℕ → Attempt) → ServerEndpoint → List ServerEndpoint → ℕ → Cursors → Reconnected
unfolding reconnect
reconnect_tcp_keep_alive_for_probe attempts current endpoints fuel cs =
    reconnect tcp_ways attempts current endpoints fuel 0 cs

-- `reconnectQUICKeepAliveForProbe`.
unfoldable pub reconnect_quic_keep_alive_for_probe :
    (ℕ → Attempt) → ServerEndpoint → List ServerEndpoint → ℕ → Cursors → Reconnected
unfolding reconnect
reconnect_quic_keep_alive_for_probe attempts current endpoints fuel cs =
    reconnect quic_ways attempts current endpoints fuel 0 cs
