-- ===== src/Udp.antt =====
-- internal/core/runner.go: STUN requests over the UDP socket that the QUIC session shares.
-- `net.ResolveUDPAddr` is an argument; what the socket, the timer and the context of a call do is
-- given as values, in the order in which the source looks at them.
pub mod Shared
pub mod Match
pub mod Answered
pub mod Probe
use natcat.Base.{
  Bool, List, Option, [], false, if◌then◌else◌, is_nil, none, some, suc, true, zero, ℕ, ◌&&◌, ◌==◌,
  ◌∷◌,
}
use natcat.Int.{eq_ℤ, ℤ}
use natcat.Net.{Ip, ip_equal}
use natcat.Result.{Result, err, ok}
use natcat.Stun.{Bytes, StunResult}
use natcat.Text.{Text, codes, text_eq}
use natcat.Types.{ServerEndpoint}

pub record UdpAddr : Type 0 where
  pub ip : Ip
  pub port : ℤ

-- `net.ResolveUDPAddr`, at a network and an address.
abbrev pub Resolve : Type 0
Resolve = Text → Text → Option UdpAddr

pub record UdpStunRequest : Type 0 where
  pub endpoint : ServerEndpoint
  pub addr : UdpAddr
  pub packet : Bytes
  pub tid : Bytes

pub data UdpError : Type 0 where
  cancelled channel_closed : UdpError
  no_servers : UdpError
  send_failed : Option Text → UdpError
  timed_out : Option Text → UdpError
  no_request : Text → UdpError

-- `stunSourceMatches`.
unfoldable pub stun_source_matches : Resolve → Text → Option UdpAddr → Bool
stun_source_matches resolve source none = true
stun_source_matches resolve source (some expected) =
    if is_nil source then true else elim (resolve (codes "udp") source) [
      | none ↦ false
      | some actual ↦ eq_ℤ actual.port expected.port && ip_equal actual.ip expected.ip
    ]

-- `byTID[tid]`: a later request of the same id has taken the place of an earlier one.
unfoldable pub by_tid : List UdpStunRequest → Bytes → Option UdpStunRequest
by_tid [] tid = none
by_tid (request ∷ requests) tid = elim (by_tid requests tid) [
  | some found ↦ some found
  | none ↦ if text_eq request.tid tid then some request else none
]

-- What the inner `select` takes; a closed channel gives none. After the last one the timer fires.
pub data Event : Type 0 where
  context_ends : Event
  response : Option StunResult → Event

-- What the wait of an attempt comes to.
pub data Waited : Type 0 where
  matched : StunResult → UdpStunRequest → Waited
  ended closed_channel fired : Waited

-- The request that a result answers.
unfoldable pub answers : Resolve → List UdpStunRequest → StunResult → Option UdpStunRequest
unfolding by_tid stun_source_matches
answers resolve requests result = elim (by_tid requests result.tid) [
  | none ↦ none
  | some request ↦
      if stun_source_matches resolve result.source (some request.addr) then some request else none
]

-- The inner loop.
unfoldable pub await : Resolve → List UdpStunRequest → List Event → Waited
unfolding answers
await resolve requests [] = fired
await resolve requests (context_ends ∷ events) = ended
await resolve requests (response none ∷ events) = closed_channel
await resolve requests (response (some result) ∷ events) = elim (answers resolve requests result) [
  | some request ↦ matched result request
  | none ↦ await resolve requests events
]

-- What a write comes to: an error is seen with whether the context is done behind it.
pub data Write : Type 0 where
  written : Write
  fails : Bool → Text → Write

-- One attempt: whether the context is done at its start, what the writes come to, and the events.
pub record Attempt : Type 0 where
  pub begins_done : Bool
  pub write : UdpStunRequest → Write
  pub events : List Event

-- The loop that writes: the count and the last error, none if the context ended it.
unfoldable pub send_all_requests :
    (UdpStunRequest → Write) → List UdpStunRequest → ℕ → Option Text → Option (ℕ × Option Text)
send_all_requests write [] sent last = some (sent, last)
send_all_requests write (request ∷ requests) sent last = elim (write request) [
  | written ↦ send_all_requests write requests (suc sent) last
  | fails is_done message ↦
      let rest = send_all_requests write requests sent (some message) in
      if is_done then none else rest
]

abbrev pub Found : Type 0
Found = Result UdpError (StunResult × ServerEndpoint)

-- Behind the writes of an attempt, before `rest`, the attempts that are left.
unfoldable pub after_writes :
    Resolve → List UdpStunRequest → List Event → ℕ → Option Text → Found → Found
unfolding await
after_writes resolve requests events sent last rest =
    if sent == 0 then err (send_failed last) else elim (await resolve requests events) [
      | ended ↦ err cancelled
      | closed_channel ↦ err channel_closed
      | matched result request ↦ ok (result, request.endpoint)
      | fired ↦ rest
    ]

-- The attempts that are left, from number `at` on.
unfoldable pub fanout_attempts :
    Resolve → (ℕ → Attempt) → List UdpStunRequest → ℕ → ℕ → Option Text → Found
unfolding send_all_requests after_writes
fanout_attempts resolve attempts requests zero at last = err (timed_out last)
fanout_attempts resolve attempts requests (suc left) at last =
    if (attempts at).begins_done
    then err cancelled
    else elim (send_all_requests (attempts at).write requests 0 last) [
      | none ↦ err cancelled
      | some (sent, last') ↦
          after_writes resolve requests (attempts at).events sent last'
            (fanout_attempts resolve attempts requests left (suc at) last')
    ]

-- `udpSTUNTiming`, with the number of the query that `nextUDPQueryIndex` gave: milliseconds and
-- retries.
unfoldable pub udp_stun_timing : Bool → ℕ → ℕ × ℕ
udp_stun_timing windows query_index =
    if windows then (100, if query_index == 0 then 30 else 3) else (1200, 3)

-- `stunUDPSharedFanout`, by the retries that the timing gave.
unfoldable pub stun_udp_shared_fanout : Resolve → ℕ → (ℕ → Attempt) → List UdpStunRequest → Found
unfolding fanout_attempts
stun_udp_shared_fanout resolve retries attempts requests =
    if is_nil requests
    then err no_servers
    else fanout_attempts resolve attempts requests retries 0 none
