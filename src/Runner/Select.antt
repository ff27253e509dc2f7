-- ===== src/Runner/Select.antt =====
-- internal/core/runner.go: which server a keep-alive is opened to, `openTCPKeepAliveFromServers`
-- and `openQUICKeepAliveFromServers`. Of what is reported only the states are kept.
use natcat.Base.{
  Bool, List, Option, [], false, if◌then◌else◌, is_nil, none, some, ℕ, ◌++◌, ◌||◌, ◌∷◌,
}
use natcat.Result.{Result, err, ok}
use natcat.Rotation.{Cursors, ordered_server_endpoints}
use natcat.Runner.{RunError, failed, is_local_port_unavailable, session_closed, stopped_run}
use natcat.Store.Laws.{is_done}
use natcat.Text.{Text, codes}
use natcat.Types.{ServerEndpoint}

-- What trying a server comes to: its name does not resolve; the connection fails, or the first
-- request over it does, each with whether the context is done behind it; or a latency.
pub data Try : Type 0 where
  unresolved : Text → Try
  no_connection no_answer : RunError → Bool → Try
  connects : ℕ → Try

abbrev pub Tries : Type 0
Tries = ServerEndpoint → Try

-- `err.Error()`.
abbrev pub error_text : RunError → Text
error_text stopped_run = codes "instance stopped"
error_text (session_closed message) = message
error_text (failed message) = message

-- `fmt.Errorf(prefix + "%w", err)`, which stays the same error for `errors.Is`.
abbrev pub wrap : Text → RunError → RunError
wrap prefix stopped_run = stopped_run
wrap prefix (session_closed message) = session_closed (prefix ++ message)
wrap prefix (failed message) = failed (prefix ++ message)

-- A connection to a server is opened, or the last one is closed.
pub data Link : Type 0 where
  opens : ServerEndpoint → Link
  closes : Link

abbrev pub Chosen : Type 0
Chosen = Result RunError (ServerEndpoint × ℕ)

abbrev pub or_error : Option RunError → Text → RunError
or_error none message = failed message
or_error (some e) message = e

-- The loop over the servers, with the last error; `gives_up` is the test that ends it early.
unfoldable pub open_each :
    (RunError → Bool) → Tries → Text → List ServerEndpoint → Option RunError → Chosen
open_each gives_up tries nothing [] last = err (or_error last nothing)
open_each gives_up tries nothing (e ∷ endpoints) last = elim (tries e) [
  | unresolved message ↦ open_each gives_up tries nothing endpoints (some (failed message))
  | connects latency ↦ ok (e, latency)
  | no_connection e_tried is_done ↦
      let rest = open_each gives_up tries nothing endpoints (some e_tried) in
      if gives_up e_tried || is_done then err e_tried else rest
  | no_answer e_tried is_done ↦
      let rest = open_each gives_up tries nothing endpoints (some e_tried) in
      if gives_up e_tried || is_done then err e_tried else rest
]

-- The connections of the same loop: one whose first request fails is closed again.
unfoldable pub open_links : (RunError → Bool) → Tries → List ServerEndpoint → List Link
open_links gives_up tries [] = []
open_links gives_up tries (e ∷ endpoints) =
    let rest = open_links gives_up tries endpoints in
    elim (tries e) [
      | unresolved message ↦ rest
      | connects latency ↦ opens e ∷ []
      | no_connection e_tried is_done ↦ if gives_up e_tried || is_done then [] else rest
      | no_answer e_tried is_done ↦
          if gives_up e_tried || is_done then opens e ∷ closes ∷ [] else opens e ∷ closes ∷ rest
    ]

abbrev pub wrapped : Text → Chosen → Chosen
wrapped prefix (ok chosen) = ok chosen
wrapped prefix (err e) = err (wrap prefix e)

-- The choice among the servers of a kind.
unfoldable pub open_from :
    Text
    → (RunError → Bool)
    → Tries
    → Text
    → Text
    → Cursors
    → List ServerEndpoint
    → Cursors × Chosen
unfolding open_each
open_from kind gives_up tries nothing prefix cs endpoints =
    let order = ordered_server_endpoints cs kind endpoints none in
    if is_nil endpoints
    then (cs, err (failed nothing))
    else (order.0, wrapped prefix (open_each gives_up tries nothing order.1 none))

abbrev pub no_tcp_servers : Text
no_tcp_servers = codes "no tcp keep-alive servers configured"

abbrev pub no_udp_quic_servers : Text
no_udp_quic_servers = codes "no udp quic keep-alive servers configured"

-- `isLocalPortUnavailable`, of an error.
unfoldable pub needs_port : RunError → Bool
needs_port e = is_local_port_unavailable (error_text e)

-- `openTCPKeepAliveFromServers`.
unfoldable pub open_tcp_keep_alive_from_servers :
    Tries → Cursors → List ServerEndpoint → Cursors × Chosen
unfolding open_from needs_port
open_tcp_keep_alive_from_servers tries =
    open_from (codes "http") needs_port tries no_tcp_servers
      (codes "tcp keep-alive server selection failed: ")

-- `openQUICKeepAliveFromServers`, whose connections come with their first request.
unfoldable pub open_quic_keep_alive_from_servers :
    Tries → Cursors → List ServerEndpoint → Cursors × Chosen
unfolding open_from
open_quic_keep_alive_from_servers tries =
    open_from (codes "quic") (λ e. false) tries no_udp_quic_servers
      (codes "udp quic keep-alive server selection failed: ")

-- The connections of `openTCPKeepAliveFromServers`.
unfoldable pub open_tcp_links : Tries → Cursors → List ServerEndpoint → List Link
unfolding open_links needs_port
open_tcp_links tries cs endpoints =
    open_links needs_port tries (ordered_server_endpoints cs (codes "http") endpoints none).1
