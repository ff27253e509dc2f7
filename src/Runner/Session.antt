-- ===== src/Runner/Session.antt =====
-- How a keep-alive ends: internal/core/runner.go, `tcpKeepAlive` and `quicKeepAliveOnce`.
use natcat.Base.{
  Bool, List, Option-cases, [], any, arith, false, inl, inr, none, refl, some, true, ℕ, ◌||◌, ◌∷◌,
  ◌≡◌, ◌⊎◌,
}
use natcat.Result.{Result-cases, err}
use natcat.Runner.{RunError, failed, session_closed, stopped_run}
use natcat.Runner.Request.{
  Beat, Exchange, Look, Peek, QuicEvent, Reading, answered, arrived, connection_over, context_over,
  quic_keep_alive_once, read_response, tcp_keep_alive, tcp_keep_alive_request, timer, unless_done,
  wait_interval, waited_out,
}
use natcat.Text.{Text}
use natcat.Types.{Time}

-- An error that closes the session, or that stops the run where the context was found done.
abbrev pub is_end : Bool → RunError → Bool
is_end is_done stopped_run = is_done
is_end is_done (session_closed message) = true
is_end is_done (failed message) = false

abbrev pub is_done_in : Exchange → Bool
is_done_in x = x.begins_done || x.write_done || x.read_done

abbrev pub is_done_at : Look → Bool
is_done_at look = look.begins_done || look.peek_done

-- The context is found done somewhere in the keep-alive.
abbrev pub is_done_during : List Beat → Bool
is_done_during [] = false
is_done_during (beat ∷ beats) =
    is_done_in beat.exchange || (any is_done_at beat.looks || is_done_during beats)

unless_done-is_end :
    {A : Type 0} (b : Bool) (message : Text) (e : RunError)
    → unless_done {A = A} b message ≡ err e
    → is_end b e ≡ true
unless_done-is_end true message e h = ground (arith, h)
unless_done-is_end false message e h = ground (arith, h)

read_response-is_end :
    (x : Exchange) (last : ℕ) (reading : Reading) (e : RunError)
    → x.reading ≡ reading
    → read_response x last ≡ err e
    → is_end x.read_done e ≡ true
unfolding read_response
read_response-is_end x last Reading.at_end e r h = ground (arith, r, h)
read_response-is_end x last (Reading.not_read message) e r h = ground (arith, r, h)
read_response-is_end x last (answered true) e r h = ground (arith, r, h)
read_response-is_end x last (answered false) e r h = ground (arith, r, h)

request-is_end :
    (x : Exchange) (last : ℕ) (e : RunError)
    → tcp_keep_alive_request x last ≡ err e
    → is_end (is_done_in x) e ≡ true
unfolding tcp_keep_alive_request
request-is_end x last e h = ground (arith, h, read_response-is_end x last x.reading e refl)

look-is_end :
    (deadline : Time) (look : Look) (looks : List Look) (peek : Peek) (e : RunError)
    → look.peek ≡ peek
    → wait_interval deadline (look ∷ looks) ≡ some (err e)
    → (is_end (is_done_at look) e ≡ true) ⊎ (wait_interval deadline looks ≡ some (err e))
unfolding wait_interval
look-is_end deadline look looks arrived e r h = ground (arith, r, h)
look-is_end deadline look looks waited_out e r h = ground (arith, r, h)
look-is_end deadline look looks Peek.at_end e r h = ground (arith, r, h)
look-is_end deadline look looks (Peek.not_read message) e r h = ground (arith, r, h)

more_done : (a b : Bool) (e : RunError) → is_end a e ≡ true → is_end (a || b) e ≡ true
more_done a b stopped_run h = ground (arith, h)
more_done a b (session_closed message) h = refl
more_done a b (failed message) h = h

done_more : (a b : Bool) (e : RunError) → is_end b e ≡ true → is_end (a || b) e ≡ true
done_more a b stopped_run h = ground (arith, h)
done_more a b (session_closed message) h = refl
done_more a b (failed message) h = h

wait-is_end :
    (deadline : Time) (looks : List Look) (e : RunError)
    → wait_interval deadline looks ≡ some (err e)
    → is_end (any is_done_at looks) e ≡ true
unfolding wait_interval
wait-is_end deadline [] e h = ground (arith, h)
wait-is_end deadline (look ∷ looks) e h =
    elim (look-is_end deadline look looks look.peek e refl h) [
      | inl now_it_is ↦ more_done (is_done_at look) (any is_done_at looks) e now_it_is
      | inr later ↦
          done_more (is_done_at look) (any is_done_at looks) e (wait-is_end deadline looks e later)
    ]

beat-cases :
    (beat : Beat) (beats : List Beat) (last : ℕ) (e : RunError)
    → (tcp_keep_alive (beat ∷ beats) last).1 ≡ some e
    → (tcp_keep_alive_request beat.exchange last ≡ err e)
      ⊎ ((wait_interval beat.deadline beat.looks ≡ some (err e))
          ⊎ ((latency : ℕ) × ((tcp_keep_alive beats latency).1 ≡ some e)))
unfolding tcp_keep_alive
beat-cases beat beats last e h = elim (Result-cases (tcp_keep_alive_request beat.exchange last)) [
  | inr (f, g) ↦ inl (ground (arith, g, h))
  | inl (latency, g) ↦ elim (Option-cases (wait_interval beat.deadline beat.looks)) [
    | inl w ↦ ground (arith, g, w, h)
    | inr (waited, w) ↦ elim (Result-cases waited) [
      | inr (f, k) ↦ inr (inl (ground (arith, g, w, k, h)))
      | inl (u, k) ↦ inr (inr (latency, ground (arith, g, w, k, h)))
    ]
  ]
]

tcp_keep_alive-is_end :
    (beats : List Beat) (last : ℕ) (e : RunError)
    → (tcp_keep_alive beats last).1 ≡ some e
    → is_end (is_done_during beats) e ≡ true
unfolding tcp_keep_alive
tcp_keep_alive-is_end [] last e h = ground (arith, h)
tcp_keep_alive-is_end (beat ∷ beats) last e h =
    let in_request = is_done_in beat.exchange in
    let in_wait = any is_done_at beat.looks in
    elim (beat-cases beat beats last e h) [
      | inl g ↦
          more_done in_request (in_wait || is_done_during beats) e
            (request-is_end beat.exchange last e g)
      | inr (inl g) ↦
          done_more in_request (in_wait || is_done_during beats) e
            (more_done in_wait (is_done_during beats) e (wait-is_end beat.deadline beat.looks e g))
      | inr (inr (latency, g)) ↦
          done_more in_request (in_wait || is_done_during beats) e
            (done_more in_wait (is_done_during beats) e (tcp_keep_alive-is_end beats latency e g))
    ]

-- The context is found done in the event.
abbrev pub is_done_by : QuicEvent → Bool
is_done_by context_over = true
is_done_by (connection_over is_done cause) = is_done
is_done_by (timer message is_done latency) = is_done

quic_keep_alive_once-is_end :
    (event : QuicEvent) (e : RunError)
    → quic_keep_alive_once event ≡ err e
    → is_end (is_done_by event) e ≡ true
unfolding quic_keep_alive_once
quic_keep_alive_once-is_end context_over e h = ground (arith, h)
quic_keep_alive_once-is_end (connection_over is_done none) e h = unless_done-is_end is_done _ e h
quic_keep_alive_once-is_end (connection_over is_done (some cause)) e h =
    unless_done-is_end is_done _ e h
quic_keep_alive_once-is_end (timer none is_done latency) e h = ground (arith, h)
quic_keep_alive_once-is_end (timer (some message) is_done latency) e h =
    unless_done-is_end is_done _ e h

-- Whatever ends a keep-alive over TCP or over QUIC, its error closes the session, or it stops the
-- run and the context was found done at some point of it; it is never an error that `Run` shows.
pub keep_alive-is_end :
    ((beats : List Beat) (last : ℕ) (e : RunError)
      → (tcp_keep_alive beats last).1 ≡ some e
      → is_end (is_done_during beats) e ≡ true)
    × ((event : QuicEvent) (e : RunError)
        → quic_keep_alive_once event ≡ err e
        → is_end (is_done_by event) e ≡ true)
keep_alive-is_end = (tcp_keep_alive-is_end, quic_keep_alive_once-is_end)
