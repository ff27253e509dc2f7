-- ===== src/Tests/Loops.antt =====
-- Runs of the loops of a runner.
use natcat.Base.{
  List, [], arith, false, inr, is_some, length, none, refl, some, suc, true, zero, ℕ, ◌<◌, ◌==◌,
  ◌∷◌, ◌≡◌, ◌≤◌,
}
use natcat.Dict.{get}
use natcat.Int.{eq_ℤ, pos}
use natcat.Net.{ip_equal}
use natcat.Probe.{confirm_public_probe, round_failed}
use natcat.Result.{err, ok}
use natcat.Rotation.{
  choose_start, index_of_server_endpoint, next_server_cursor, ordered_server_endpoints,
  rotate_server_endpoints, same_server_endpoint, start_after,
}
use natcat.Runner.{RunError, is_local_port_unavailable, session_closed, stopped_run}
use natcat.Runner.GivesUp.{HasAnswered, reconnect_tcp_lem}
use natcat.Runner.Lifecycle.{EndsStopped, IsLast, run-EndsStopped}
use natcat.Runner.Reconnect.{reconnect_tcp_keep_alive_for_probe}
use natcat.Runner.Retry.{ProbeAttempt, ProbeRun, mapping_of, publishes, retries, start_public_probe}
use natcat.Runner.Run.{Turn, run}
use natcat.Runner.Select.{connects, unresolved}
use natcat.Runner.Session.{is_end}
use natcat.Runner.Tcp.{TcpRun, TcpSession, run_tcp}
use natcat.Stun.{StunResult, no_result}
use natcat.Text.{Text, codes, contains, text_eq, to_lower}
use natcat.Types.{ServerEndpoint, no_config}
use natcat.Udp.{
  Attempt, Resolve, UdpAddr, UdpStunRequest, response, stun_udp_shared_fanout, written,
}
use natcat.Udp.Answered.{HasFound, IsResponse, IsUndisturbed, stun_udp_shared_fanout_answered}
use natcat.Udp.Match.{IsAnswerTo, IsOfRound, stun_udp_shared_fanout-IsAnswerTo}
use natcat.Udp.Shared.{IsForQuic, Packet, read_from, read_from-IsForQuic, responses_size}

abbrev here_addr : UdpAddr
here_addr = record { ip = 1 ∷ 2 ∷ 3 ∷ 4 ∷ []; port = pos 3478 }

abbrev by_name : Resolve
by_name network name = some here_addr

abbrev stun_server : ServerEndpoint
stun_server = record { host = codes "stun"; port = pos 3478 }

abbrev one_request : List UdpStunRequest
one_request = record { endpoint = stun_server; addr = here_addr; packet = []; tid = 7 ∷ [] } ∷ []

abbrev stranger : StunResult
stranger = record no_result { tid = 8 ∷ []; source = codes "x" }

abbrev reply : StunResult
reply = record no_result { tid = 7 ∷ []; source = codes "x"; port = 99 }

-- The first attempt times out; in the others a stranger is heard first.
abbrev tries_of : ℕ → Attempt
tries_of zero = record { begins_done = false; write = λ request. written; events = [] }
tries_of (suc k) = record {
  begins_done = false;
  write = λ request. written;
  events = response (some stranger) ∷ response (some reply) ∷ [];
}

found_reply : stun_udp_shared_fanout by_name 3 tries_of one_request ≡ ok (reply, stun_server)
unfolding stun_udp_shared_fanout natcat.Text.text_eq natcat.Int.eq_ℤ natcat.Net.ip_equal
found_reply = refl

stun_udp_shared_fanout-IsAnswerTo_example :
    IsOfRound tries_of 3 reply
    × ((request : UdpStunRequest) × IsAnswerTo by_name one_request reply request
        × (request.endpoint ≡ stun_server))
stun_udp_shared_fanout-IsAnswerTo_example =
    stun_udp_shared_fanout-IsAnswerTo by_name 3 tries_of one_request reply stun_server found_reply

calm : (k : ℕ) → IsUndisturbed (tries_of k)
calm zero = (refl, (λ request. refl), tt)
calm (suc k) = (refl, (λ request. refl), (refl, (refl, tt)))

reply-IsResponse : IsResponse by_name one_request reply
unfolding natcat.Text.text_eq
reply-IsResponse = (here_addr, refl, ((λ _. refl), tt), inr refl)

stun_udp_shared_fanout_answered_example :
    HasFound by_name tries_of one_request refl calm
      (stun_udp_shared_fanout by_name 3 tries_of one_request)
stun_udp_shared_fanout_answered_example =
    stun_udp_shared_fanout_answered by_name tries_of one_request refl calm 3 1
      (response (some stranger) ∷ []) [] reply (omega arith) refl reply-IsResponse

abbrev datagrams : List Packet
datagrams = record { bytes = 1 ∷ 2 ∷ 3 ∷ []; addr = none } ∷ []

read_from-IsForQuic_example :
    (length (read_from 2 datagrams []).queue ≤ responses_size)
    × ((given : Packet)
        → (read_from 2 datagrams []).for_quic ≡ some given
        → IsForQuic 2 datagrams given)
read_from-IsForQuic_example = read_from-IsForQuic 2 datagrams [] (omega arith)

-- A session closes in each turn, and the context ends in the third.
abbrev turn_of : ℕ → Turn
turn_of k = record {
  begins_done = k == 2;
  result = some (session_closed []);
  reports = [];
  ends_done = false;
  pause_done = false;
  now = k;
  later = k;
}

run-EndsStopped_example :
    ((fuel : ℕ) → EndsStopped (run no_config 5 turn_of fuel))
    × ((fuel k : ℕ) → k < fuel → IsLast (turn_of k) → (run no_config 5 turn_of fuel).1 ≡ true)
run-EndsStopped_example = run-EndsStopped no_config turn_of 5 (λ k. tt)

abbrev two_servers : List ServerEndpoint
two_servers = stun_server ∷ record stun_server { host = codes "b" } ∷ []

abbrev nobody_answers : ℕ → natcat.Runner.Reconnect.Attempt
nobody_answers k = record {
  begins_done = false;
  tries = λ e. unresolved (codes "no such host");
  pause_done = false;
}

reconnect_tcp_lem_example :
    let outcome = λ (fuel : ℕ).
      (reconnect_tcp_keep_alive_for_probe nobody_answers stun_server two_servers fuel []).result in
    (1 < length two_servers → (fuel : ℕ) → 3 ≤ fuel → is_some (outcome fuel) ≡ true)
    × ((fuel : ℕ) (e : ServerEndpoint) (latency : ℕ)
        → outcome fuel ≡ some (ok (e, latency))
        → HasAnswered nobody_answers two_servers e latency)
    × ((fuel : ℕ) (e : RunError) → outcome fuel ≡ some (err e) → is_end true e ≡ true)
reconnect_tcp_lem_example = reconnect_tcp_lem nobody_answers stun_server two_servers []

-- The first session is closed by the server, and the second ends with the run.
abbrev sessions_of : ℕ → TcpSession
sessions_of zero = record {
  kept = session_closed (codes "session closed: EOF");
  is_done = false;
  attempts = λ k. record { begins_done = false; tries = λ e. connects 7; pause_done = false };
  attempts_fuel = 1;
  skips = false;
}
sessions_of (suc k) = record {
  kept = stopped_run;
  is_done = true;
  attempts = nobody_answers;
  attempts_fuel = 0;
  skips = false;
}

abbrev one_run : TcpRun
one_run = record {
  servers = two_servers;
  bind_ip = 0 ∷ 0 ∷ 0 ∷ 0 ∷ [];
  local_ip = 10 ∷ 0 ∷ 0 ∷ 2 ∷ [];
  local_port = pos 4000;
  local_text = codes "0.0.0.0:4000";
  show_ip = λ ip. codes "10.0.0.2";
  tries = λ e. connects 5;
  sessions = sessions_of;
}

run_tcp_returns : (run_tcp one_run 2 []).1 ≡ some stopped_run
unfolding run_tcp natcat.Rotation.ordered_server_endpoints natcat.Rotation.rotate_server_endpoints
    natcat.Rotation.choose_start natcat.Rotation.start_after natcat.Rotation.next_server_cursor
    natcat.Dict.get natcat.Rotation.index_of_server_endpoint natcat.Rotation.same_server_endpoint
    eq_ℤ
run_tcp_returns = refl

abbrev seen : StunResult
seen = record no_result { ip = 9 ∷ 9 ∷ 9 ∷ 9 ∷ []; port = 40000 }

-- The first round fails, and the next ones see an address.
abbrev probing : ℕ → ProbeAttempt
probing zero = record {
  begins_done = false;
  env = record {
    probe = λ n. err (round_failed (codes "public probe round failed: timeout"));
    ctx_done = λ n. false;
    wait_done = λ n. false;
  };
  ends_done = false;
  pause_done = false;
}
probing (suc k) = record {
  begins_done = false;
  env = record { probe = λ n. ok seen; ctx_done = λ n. false; wait_done = λ n. false };
  ends_done = false;
  pause_done = false;
}

abbrev probe_run : ProbeRun
probe_run = record {
  protocol = codes "tcp";
  servers = 1;
  confirmations = pos 1;
  private_ip = 10 ∷ 0 ∷ 0 ∷ 2 ∷ [];
  private_port = pos 4000;
  error = λ e. codes "public probe round failed: timeout";
  is_stop = λ e. false;
}

second_attempt_publishes : start_public_probe probe_run probing 2 ≡ (
  retries 1 (codes "public probe round failed: timeout")
      ∷ publishes (mapping_of probe_run seen)
      ∷ [],
  true,
)
unfolding start_public_probe confirm_public_probe natcat.Runner.is_local_port_unavailable
    natcat.Text.contains natcat.Text.to_lower
second_attempt_publishes = refl
