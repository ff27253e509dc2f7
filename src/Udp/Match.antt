-- ===== src/Udp/Match.antt =====
-- Which response a fan-out accepts: internal/core/runner.go, `stunUDPSharedFanout`.
use mathlib.Core.List.{Mem, mem-cons_of_mem, mem-cons_self}
use natcat.Base.{
  Bool-cases, List, Option, Option-cases, [], ap, arith, inl, inr, is_nil, none, refl, some, subst,
  suc, true, zero, ℕ, ◌+◌, ◌<◌, ◌∙◌, ◌∷◌, ◌≡◌, ◌⊎◌,
}
use natcat.Int.{eq_ℤ_iff}
use natcat.Net.{ip_equal}
use natcat.Result.{ok}
use natcat.Stun.{Bytes, StunResult}
use natcat.Text.{Text, codes, text_eq, text_eq_iff}
use natcat.Types.{ServerEndpoint}
use natcat.Udp.{
  Attempt, Event, Found, Resolve, UdpAddr, UdpStunRequest, Waited, after_writes, answers, await,
  by_tid, closed_channel, context_ends, ended, fanout_attempts, fired, matched, response,
  send_all_requests, stun_source_matches, stun_udp_shared_fanout,
}

-- The source is not known, or it resolves to the port and the IP address of the request.
abbrev pub CameFrom : Resolve → Text → UdpAddr → Type 0
CameFrom resolve source addr =
    (is_nil source ≡ true)
    ⊎ ((actual : UdpAddr) × (resolve (codes "udp") source ≡ some actual)
        × (actual.port ≡ addr.port)
        × (ip_equal actual.ip addr.ip ≡ true))

-- A result that was sent by the address of one of the requests and has its transaction id.
abbrev pub IsAnswerTo : Resolve → List UdpStunRequest → StunResult → UdpStunRequest → Type 0
IsAnswerTo resolve requests result request =
    Mem request requests × (request.tid ≡ result.tid) × CameFrom resolve result.source request.addr

-- The result is one that the channel gave.
abbrev pub IsGiven : List Event → StunResult → Type 0
IsGiven events result = Mem (response (some result)) events

first_found : {A : Type 0} (a b : A) → some a ≡ some b → a ≡ b
first_found a b h = cc

by_tid-Mem :
    (requests : List UdpStunRequest) (tid : Bytes) (request : UdpStunRequest)
    → by_tid requests tid ≡ some request
    → Mem request requests × (request.tid ≡ tid)
unfolding by_tid
by_tid-Mem [] tid request h = cc
by_tid-Mem (first ∷ requests) tid request h = elim (Option-cases (by_tid requests tid)) [
  | inr (found, e) ↦
      let rest = by_tid-Mem requests tid request (ground (arith, e, h)) in
      (mem-cons_of_mem first (rest.0), rest.1)
  | inl e ↦ elim (Bool-cases (text_eq first.tid tid)) [
    | inl same ↦
        let it = first_found first request (ground (arith, e, same, h)) in
        (
          subst (λ x. Mem x (first ∷ requests)) it mem-cons_self,
          ground (arith, it, same, text_eq_iff first.tid tid),
        )
    | inr differs ↦ ground (arith, e, differs, h)
  ]
]

stun_source_matches-CameFrom :
    (resolve : Resolve) (source : Text) (addr : UdpAddr)
    → stun_source_matches resolve source (some addr) ≡ true
    → CameFrom resolve source addr
unfolding stun_source_matches
stun_source_matches-CameFrom resolve source addr h = elim (Bool-cases (is_nil source)) [
  | inl empty ↦ inl empty
  | inr full ↦ elim (Option-cases (resolve (codes "udp") source)) [
    | inl e ↦ ground (arith, h, full, e)
    | inr (actual, e) ↦ inr (
      actual,
      e,
      ground (arith, h, full, e, eq_ℤ_iff actual.port addr.port),
      ground (arith, h, full, e),
    )
  ]
]

answers-IsAnswerTo :
    (resolve : Resolve) (requests : List UdpStunRequest) (result : StunResult)
    (request : UdpStunRequest)
    → answers resolve requests result ≡ some request
    → IsAnswerTo resolve requests result request
unfolding answers
answers-IsAnswerTo resolve requests result request h =
    elim (Option-cases (by_tid requests result.tid)) [
      | inl e ↦ ground (arith, e, h)
      | inr (found, e) ↦
          let it = first_found found request (ground (arith, e, h)) in
          let there = by_tid-Mem requests result.tid request (e ∙ ap some it) in
          let from =
            stun_source_matches-CameFrom resolve result.source request.addr
              (ground (arith, e, h, it)) in
          (there.0, there.1, from)
    ]

same_match :
    (a b : StunResult) (q r : UdpStunRequest) → matched a q ≡ matched b r → (a ≡ b) × (q ≡ r)
same_match a b q r h = (cc, cc)

await-IsAnswerTo :
    (resolve : Resolve) (requests : List UdpStunRequest) (events : List Event) (result : StunResult)
    (request : UdpStunRequest)
    → await resolve requests events ≡ matched result request
    → IsAnswerTo resolve requests result request × IsGiven events result
unfolding await
await-IsAnswerTo resolve requests [] result request h = ground (arith, h)
await-IsAnswerTo resolve requests (context_ends ∷ events) result request h = ground (arith, h)
await-IsAnswerTo resolve requests (response none ∷ events) result request h = ground (arith, h)
await-IsAnswerTo resolve requests (response (some first) ∷ events) result request h =
    elim (Option-cases (answers resolve requests first)) [
      | inl e ↦
          let rest =
            await-IsAnswerTo resolve requests events result request (ground (arith, e, h)) in
          (rest.0, mem-cons_of_mem (response (some first)) (rest.1))
      | inr (found, e) ↦
          let it = same_match first result found request (ground (arith, e, h)) in
          (
            answers-IsAnswerTo resolve requests result request (
                subst (λ r. answers resolve requests r ≡ some request) (it.0) (e ∙ ap some (it.1))),
            subst (λ r. Mem (response (some r)) (response (some first) ∷ events)) (it.0)
                mem-cons_self,
          )
    ]

-- The attempt of a number gave the result.
abbrev pub IsOfRound : (ℕ → Attempt) → ℕ → StunResult → Type 0
IsOfRound attempts retries result = (at : ℕ) × (at < retries) × IsGiven (attempts at).events result

module _ (resolve : Resolve) (attempts : ℕ → Attempt) (requests : List UdpStunRequest)
    (result : StunResult) (endpoint : ServerEndpoint) where
  abbrev IsIt : Found → Type 0
  IsIt found = found ≡ ok (result, endpoint)

  -- The wait gave it, or the attempts behind it did.
  after_writes-cases :
      (events : List Event) (sent : ℕ) (last : Option Text) (rest : Found) (w : Waited)
      → await resolve requests events ≡ w
      → IsIt (after_writes resolve requests events sent last rest)
      → ((request : UdpStunRequest) × (await resolve requests events ≡ matched result request)
          × (request.endpoint ≡ endpoint))
        ⊎ IsIt rest
  unfolding after_writes
  after_writes-cases events sent last rest fired e h = inr (ground (arith, e, h))
  after_writes-cases events sent last rest ended e h = ground (arith, e, h)
  after_writes-cases events sent last rest closed_channel e h = ground (arith, e, h)
  after_writes-cases events sent last rest (matched first request) e h =
      inl (request, ground (arith, e, h), ground (arith, e, h))

  -- The attempts that are left at some number gave it.
  attempt-cases :
      (left at : ℕ) (last : Option Text)
      → IsIt (fanout_attempts resolve attempts requests (suc left) at last)
      → (sent : ℕ) × (last' : Option Text) × IsIt (
          after_writes resolve requests
            (attempts at).events
            sent
            last'
            (fanout_attempts resolve attempts requests left (suc at) last'))
  unfolding fanout_attempts
  attempt-cases left at last h = elim (Bool-cases (attempts at).begins_done) [
    | inl e ↦ ground (arith, e, h)
    | inr e ↦ elim (Option-cases (send_all_requests (attempts at).write requests 0 last)) [
      | inl f ↦ ground (arith, e, f, h)
      | inr ((sent, last'), f) ↦ (sent, last', ground (arith, e, f, h))
    ]
  ]

  fanout_attempts-IsAnswerTo :
      (left at : ℕ) (last : Option Text)
      → IsIt (fanout_attempts resolve attempts requests left at last)
      → ((k : ℕ) × (k < at + left) × IsGiven (attempts k).events result)
        × ((request : UdpStunRequest) × IsAnswerTo resolve requests result request
            × (request.endpoint ≡ endpoint))
  unfolding fanout_attempts
  fanout_attempts-IsAnswerTo zero at last h = ground (arith, h)
  fanout_attempts-IsAnswerTo (suc left) at last h =
      let (sent, last', g) = attempt-cases left at last h in
      elim (after_writes-cases (attempts at).events sent last' _
        (await resolve requests (attempts at).events) refl g) [
          | inl (request, e, f) ↦
              let it = await-IsAnswerTo resolve requests (attempts at).events result request e in
              ((at, omega arith, it.1), (request, it.0, f))
          | inr later ↦
              let rest = fanout_attempts-IsAnswerTo left (suc at) last' later in
              ((rest.0.0, omega (arith, rest.0.1), rest.0.2), rest.1)
        ]

-- A fan-out with `retries` attempts that returns a result and an endpoint returns what the channel
-- gave in one of these attempts, and one of the requests has that endpoint and the transaction id
-- of the result, and was sent to the port and the IP address that the source of the result resolves
-- to, where it names one: no other response is taken for an answer.
pub stun_udp_shared_fanout-IsAnswerTo :
    (resolve : Resolve) (retries : ℕ) (attempts : ℕ → Attempt) (requests : List UdpStunRequest)
    (result : StunResult) (endpoint : ServerEndpoint)
    → stun_udp_shared_fanout resolve retries attempts requests ≡ ok (result, endpoint)
    → IsOfRound attempts retries result
      × ((request : UdpStunRequest) × IsAnswerTo resolve requests result request
          × (request.endpoint ≡ endpoint))
unfolding stun_udp_shared_fanout
stun_udp_shared_fanout-IsAnswerTo resolve retries attempts requests result endpoint h =
    elim (Bool-cases (is_nil requests)) [
      | inl e ↦ ground (arith, e, h)
      | inr e ↦
          let rest =
            fanout_attempts-IsAnswerTo resolve attempts requests result endpoint retries 0 none
              (ground (arith, e, h)) in
          ((rest.0.0, omega (arith, rest.0.1), rest.0.2), rest.1)
    ]
