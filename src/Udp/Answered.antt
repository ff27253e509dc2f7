-- ===== src/Udp/Answered.antt =====
-- A fan-out whose answer arrives returns: internal/core/runner.go, `stunUDPSharedFanout`.
use natcat.Base.{
  All, Bool, Bool-cases, List, Option, Option-cases, [], any, ap, arith, false, inl, inr, is_nil,
  is_some, length, none, refl, some, subst, suc, sym, true, zero, ℕ, ◌++◌, ◌+◌, ◌<◌, ◌∙◌, ◌∷◌, ◌≡◌,
  ◌≢◌, ◌≤◌, ◌⊎◌,
}
use natcat.Int.{eq_ℤ_iff}
use natcat.Net.{ip_equal_refl}
use natcat.Result.{ok}
use natcat.Stun.{Bytes, StunResult}
use natcat.Text.{Text, codes, text_eq}
use natcat.Types.{ServerEndpoint}
use natcat.Udp.{
  Attempt, Event, Found, Resolve, UdpAddr, UdpStunRequest, Write, after_writes, answers, await,
  by_tid, context_ends, fanout_attempts, fired, matched, response, send_all_requests,
  stun_source_matches, stun_udp_shared_fanout, written,
}

-- The event ends neither the context nor the channel.
abbrev pub is_open : Event → Bool
is_open context_ends = false
is_open (response none) = false
is_open (response (some result)) = true

-- The context is not done, every write works, and the channel stays open.
abbrev pub IsUndisturbed : Attempt → Type 0
IsUndisturbed a =
    (a.begins_done ≡ false)
    × ((request : UdpStunRequest) → a.write request ≡ written)
    × All (λ event. is_open event ≡ true) a.events

send_all_requests-written :
    (write : UdpStunRequest → Write) (requests : List UdpStunRequest) (sent : ℕ)
    (last : Option Text)
    → ((request : UdpStunRequest) → write request ≡ written)
    → send_all_requests write requests sent last ≡ some (sent + length requests, last)
unfolding send_all_requests
send_all_requests-written write [] sent last works = ground arith
send_all_requests-written write (request ∷ requests) sent last works =
    ground (arith, works request, send_all_requests-written write requests (suc sent) last works)

length-full : (requests : List UdpStunRequest) → is_nil requests ≡ false → 0 < length requests
length-full [] h = ground (arith, h)
length-full (q ∷ requests) h = omega arith

fired-matched : (result : StunResult) (request : UdpStunRequest) → fired ≢ matched result request
fired-matched result request h = cc

-- A response of a request: there are requests with its transaction, all of them were sent to one
-- address, and the response names no source, or one that resolves to that address.
abbrev pub IsResponse : Resolve → List UdpStunRequest → StunResult → Type 0
IsResponse resolve requests result =
    (addr : UdpAddr) × (any (λ (q : UdpStunRequest). text_eq q.tid result.tid) requests ≡ true)
    × All (λ (q : UdpStunRequest). text_eq q.tid result.tid ≡ true → q.addr ≡ addr) requests
    × ((is_nil result.source ≡ true) ⊎ (resolve (codes "udp") result.source ≡ some addr))

by_tid-some :
    (tid : Bytes) (requests : List UdpStunRequest)
    → any (λ (q : UdpStunRequest). text_eq q.tid tid) requests ≡ true
    → is_some (by_tid requests tid) ≡ true
unfolding by_tid
by_tid-some tid [] there = ground (arith, there)
by_tid-some tid (q ∷ requests) there = ground (arith, there, by_tid-some tid requests)

by_tid-addr :
    (tid : Bytes) (addr : UdpAddr) (requests : List UdpStunRequest) (found : UdpStunRequest)
    → All (λ (q : UdpStunRequest). text_eq q.tid tid ≡ true → q.addr ≡ addr) requests
    → by_tid requests tid ≡ some found
    → found.addr ≡ addr
unfolding by_tid
by_tid-addr tid addr [] found same e = ground (arith, e)
by_tid-addr tid addr (q ∷ requests) found same e = elim (Option-cases (by_tid requests tid)) [
  | inr (later, f) ↦ by_tid-addr tid addr requests found (same.1) (ground (arith, e, f))
  | inl f ↦ elim (Bool-cases (text_eq q.tid tid)) [
    | inl here_it_is ↦ ground (arith, e, f, here_it_is, same.0)
    | inr elsewhere ↦ ground (arith, e, f, elsewhere)
  ]
]

stun_source_matches-same :
    (resolve : Resolve) (source : Text) (addr : UdpAddr)
    → (is_nil source ≡ true) ⊎ (resolve (codes "udp") source ≡ some addr)
    → stun_source_matches resolve source (some addr) ≡ true
unfolding stun_source_matches
stun_source_matches-same resolve source addr (inl e) = rw (stun_source_matches, e) refl
stun_source_matches-same resolve source addr (inr e) =
    ground (arith, e, ip_equal_refl addr.ip, eq_ℤ_iff addr.port addr.port)

-- A response of a request is taken.
answers-some :
    (resolve : Resolve) (requests : List UdpStunRequest) (result : StunResult)
    → IsResponse resolve requests result
    → (request : UdpStunRequest) × (answers resolve requests result ≡ some request)
unfolding answers
answers-some resolve requests result (addr, there, same, source) =
    elim (Option-cases (by_tid requests result.tid)) [
      | inl e ↦
          let impossible : false ≡ true =
            sym (ap is_some e) ∙ by_tid-some result.tid requests there in
          ground (arith, impossible)
      | inr (request, e) ↦
          let at = by_tid-addr result.tid addr requests request same e in
          let fits : stun_source_matches resolve result.source (some request.addr) ≡ true =
            subst (λ a. stun_source_matches resolve result.source (some a) ≡ true) (sym at)
              (stun_source_matches-same resolve result.source addr source) in
          (request, rw (answers, e, fits) refl)
    ]

module _ (resolve : Resolve) (attempts : ℕ → Attempt) (requests : List UdpStunRequest)
    (some_request : is_nil requests ≡ false)
    (undisturbed : (k : ℕ) → IsUndisturbed (attempts k)) where
  abbrev pub HasFound : Found → Type 0
  HasFound found =
      (result : StunResult) × (endpoint : ServerEndpoint) × (found ≡ ok (result, endpoint))

  await-open :
      (events : List Event)
      → All (λ event. is_open event ≡ true) events
      → (await resolve requests events ≡ fired)
        ⊎ ((result : StunResult) × (request : UdpStunRequest) × (await resolve requests events
              ≡ matched result request))
  unfolding await
  await-open [] a = inl refl
  await-open (context_ends ∷ events) a = ground (arith, a.0)
  await-open (response none ∷ events) a = ground (arith, a.0)
  await-open (response (some result) ∷ events) a =
      elim (Option-cases (answers resolve requests result)) [
        | inl e ↦ rw (await, e) (await-open events (a.1))
        | inr (request, e) ↦ inr (result, request, ground (arith, e))
      ]

  -- The wait does not end before a response that is taken, whatever comes before it.
  await-heard :
      (before after : List Event) (result : StunResult) (request : UdpStunRequest)
      → All (λ event. is_open event ≡ true) (before ++ response (some result) ∷ after)
      → answers resolve requests result ≡ some request
      → (r : StunResult) × (q : UdpStunRequest) × (await resolve requests
            (before ++ response (some result) ∷ after)
          ≡ matched r q)
  unfolding await
  await-heard [] after result request a taken = (result, request, rw (await, taken) refl)
  await-heard (context_ends ∷ before) after result request a taken = ground (arith, a.0)
  await-heard (response none ∷ before) after result request a taken = ground (arith, a.0)
  await-heard (response (some x) ∷ before) after result request a taken =
      elim (Option-cases (answers resolve requests x)) [
        | inl e ↦ rw (await, e) (await-heard before after result request (a.1) taken)
        | inr (q, e) ↦ (x, q, rw (await, e) refl)
      ]

  attempt-lem :
      (left at : ℕ) (last : Option Text)
      → fanout_attempts resolve attempts requests (suc left) at last
        ≡ after_writes resolve requests
            (attempts at).events
            (length requests)
            last
            (fanout_attempts resolve attempts requests left (suc at) last)
  unfolding fanout_attempts
  attempt-lem left at last =
      let calm = undisturbed at in
      rw
        (
          fanout_attempts,
          calm.0,
          send_all_requests-written (attempts at).write requests 0 last (calm.1),
        )
        (ap
          (λ n.
            after_writes resolve requests (attempts at).events n last
              (fanout_attempts resolve attempts requests left (suc at) last))
          (omega arith))

  after_writes-fired :
      (events : List Event) (last : Option Text) (rest : Found)
      → await resolve requests events ≡ fired
      → after_writes resolve requests events (length requests) last rest ≡ rest
  unfolding after_writes
  after_writes-fired events last rest e = ground (arith, e, length-full requests some_request)

  after_writes-matched :
      (events : List Event) (last : Option Text) (rest : Found) (result : StunResult)
      (request : UdpStunRequest)
      → await resolve requests events ≡ matched result request
      → after_writes resolve requests events (length requests) last rest
        ≡ ok (result, request.endpoint)
  unfolding after_writes
  after_writes-matched events last rest result request e =
      ground (arith, e, length-full requests some_request)

  not_fired :
      (at k : ℕ) (result : StunResult) (request : UdpStunRequest)
      → await resolve requests (attempts k).events ≡ matched result request
      → await resolve requests (attempts at).events ≡ fired
      → at ≢ k
  not_fired at k result request given e same =
      fired-matched result request
        (sym e ∙ ap (λ n. await resolve requests (attempts n).events) same ∙ given)

  answered_from :
      (left at : ℕ) (last : Option Text) (k : ℕ) (result : StunResult) (request : UdpStunRequest)
      → at ≤ k
      → k < at + left
      → await resolve requests (attempts k).events ≡ matched result request
      → HasFound (fanout_attempts resolve attempts requests left at last)
  answered_from zero at last k result request low high given = ground (arith, low, high)
  answered_from (suc left) at last k result request low high given =
      elim (await-open (attempts at).events (undisturbed at).2) [
        | inl e ↦
            let apart = not_fired at k result request given e in
            let (r, p, f) =
              answered_from left (suc at) last k result request (ground (arith, low, apart))
                (omega (arith, high)) given in
            (r, p, attempt-lem left at last ∙ after_writes-fired (attempts at).events last _ e ∙ f)
        | inr (r, q, e) ↦ (
          r,
          q.endpoint,
          attempt-lem left at last ∙ after_writes-matched (attempts at).events last _ r q e,
        )
      ]

  -- If the context is not done, every write works and the channel stays open, then a fan-out over
  -- one request or more returns a result if a response of one of its requests comes before the
  -- timer of an attempt, whatever else comes before and after it.
  pub stun_udp_shared_fanout_answered :
      (limit k : ℕ) (before after : List Event) (result : StunResult)
      → k < limit
      → (attempts k).events ≡ before ++ response (some result) ∷ after
      → IsResponse resolve requests result
      → HasFound (stun_udp_shared_fanout resolve limit attempts requests)
  unfolding stun_udp_shared_fanout
  stun_udp_shared_fanout_answered limit k before after result soon heard fits =
      let (request, taken) = answers-some resolve requests result fits in
      let still_open = subst (All (λ event. is_open event ≡ true)) heard ((undisturbed k).2) in
      let (r, q, given) = await-heard before after result request still_open taken in
      rw (stun_udp_shared_fanout, some_request)
        (answered_from limit 0 none k r q (omega arith) (omega (arith, soon))
          (ap (await resolve requests) heard ∙ given))
