-- ===== src/Udp/Probe.antt =====
-- internal/core/runner.go: a round of the public probe over UDP, `udpPublicProbe`.
use natcat.Base.{Bool, List, Option, [], if◌then◌else◌, is_nil, none, some, suc, ℕ, ◌++◌, ◌||◌, ◌∷◌}
use natcat.Int.{leb_ℤ, pos}
use natcat.Probe.{ProbeError, other, round_failed}
use natcat.Result.{Result, err, ok}
use natcat.Rotation.{Cursors, ordered_server_endpoint_batch, set_server_cursor_after}
use natcat.Servers.{endpoint_host_port}
use natcat.Stun.{Bytes, StunResult, stun_request}
use natcat.Text.{Text, codes}
use natcat.Types.{ServerEndpoint}
use natcat.Udp.{Attempt, Resolve, UdpError, UdpStunRequest, stun_udp_shared_fanout}

-- `describeServerEndpoint`.
unfoldable pub describe_server_endpoint : ServerEndpoint → Text
describe_server_endpoint e =
    if is_nil e.host || leb_ℤ e.port (pos 0) then codes "-" else endpoint_host_port e

abbrev pub udp_public_probe_fanout : ℕ
udp_public_probe_fanout = 3

-- What the packages and the socket do in a round: `random` gives the id of a request by the place
-- of its server, none where `rand.Read` fails, and `says` is the text of an error.
pub record Round : Type 0 where
  pub resolve : Resolve
  pub random : ℕ → Option Bytes
  pub retries : ℕ
  pub attempts : ℕ → Attempt
  pub is_done : Bool
  pub cannot_resolve : ServerEndpoint → Text
  pub no_random : Text
  pub says : UdpError → Text

-- The loop that builds the requests: the requests, and the last error.
unfoldable pub build_requests :
    Round → Text → List ServerEndpoint → ℕ → Option Text → List UdpStunRequest × Option Text
build_requests round network [] at last = ([], last)
build_requests round network (e ∷ endpoints) at last =
    elim (round.resolve network (endpoint_host_port e)) [
      | none ↦ build_requests round network endpoints (suc at) (some (round.cannot_resolve e))
      | some addr ↦ elim (round.random at) [
        | none ↦ build_requests round network endpoints (suc at) (some round.no_random)
        | some tid ↦
            let rest = build_requests round network endpoints (suc at) last in
            (
              record { endpoint = e; addr = addr; packet = stun_request tid; tid = tid } ∷ rest.0,
              rest.1,
            )
      ]
    ]

abbrev pub no_udp_servers : Text
no_udp_servers = codes "no udp public probe servers configured"

abbrev pub or_text : Option Text → Text → Text
or_text none default = default
or_text (some s) default = s

-- The end of a round whose fan-out failed: `lastErr` of the requests stands in front.
unfoldable pub round_error : Round → Option Text → UdpError → ProbeError
round_error round last e =
    if round.is_done
    then other (round.says e)
    else round_failed
        (elim last [ none ↦ round.says e | some message ↦ message ++ codes "; " ++ round.says e ])

-- `udpPublicProbe`: the cursors of the servers after it, and its result.
unfoldable pub udp_public_probe :
    Round → Text → Cursors → List ServerEndpoint → Cursors × Result ProbeError StunResult
unfolding build_requests round_error describe_server_endpoint
udp_public_probe round network cs endpoints =
    let batch = ordered_server_endpoint_batch cs (codes "stun") endpoints udp_public_probe_fanout in
    let built = build_requests round network batch.1 0 none in
    if is_nil endpoints
    then (cs, err (other no_udp_servers))
    else if is_nil built.0
    then (batch.0, err (round_failed (or_text built.1 no_udp_servers)))
    else elim (stun_udp_shared_fanout round.resolve round.retries round.attempts built.0) [
      | err e ↦ (batch.0, err (round_error round built.1 e))
      | ok (result, endpoint) ↦ (
        set_server_cursor_after batch.0 (codes "stun") endpoints endpoint,
        ok (record result { server = describe_server_endpoint endpoint }),
      )
    ]
