-- ===== src/Manager/PortCheck.antt =====
-- internal/core/port_check.go: whether the public address of an instance can be reached over TCP.
-- What the dial came to is an argument, with the time at which it ended.
use natcat.Base.{
  Bool, ap, arith, false, if◌then◌else◌, is_nil, ltb, none, not, refl, some, true, ℕ, ◌||◌, ◌∙◌,
  ◌≡◌,
}
use natcat.Config.{tcp}
use natcat.Dict.{get-put, text_eq_refl}
use natcat.Int.{leb_ℤ, pos}
use natcat.Manager.{Manager, notify_status, put_status, status_for}
use natcat.Manager.Control.{report}
use natcat.Result.{Result, err, is_ok, ok}
use natcat.Status.{has_check, merge, merge_rest}
use natcat.Store.{Io, Outside}
use natcat.Store.Instances.{get_instance}
use natcat.Text.{Text, codes, text_eq}
use natcat.Types.{
  PortCheck, PortState, RuntimeStatus, Time, closed, empty_status, open_port, timeout, unknown_port,
}

pub data Dial : Type 0 where
  connected_in : ℕ → Dial
  failed_with : Bool → Text → Dial

pub data CheckError : Type 0 where
  no_instance only_tcp : CheckError

-- `classifyTCPCheckError`, of an error that is a deadline or a timeout or not.
unfoldable pub classify : Bool → PortState
classify timed_out = if timed_out then timeout else closed

-- `maxInt64(1, …)`.
abbrev pub at_least_one : ℕ → ℕ
at_least_one n = if ltb 1 n then n else 1

-- The check that a dial gives.
unfoldable pub dialed : Time → Dial → PortCheck
unfolding classify
dialed now (connected_in millis) = record {
  protocol = tcp;
  state = open_port;
  latency_ms = at_least_one millis;
  checked_at = now;
  message = codes "tcp connect succeeded from NATCat host";
}
dialed now (failed_with timed_out message) = record {
  protocol = tcp;
  state = classify timed_out;
  latency_ms = 0;
  checked_at = now;
  message = message;
}

-- The check of an instance without a public address.
unfoldable pub not_mapped : Time → Text → PortCheck
not_mapped now message = record {
  protocol = tcp;
  state = unknown_port;
  latency_ms = 0;
  checked_at = now;
  message = message;
}

-- A status that names a port check alone.
abbrev pub only_check : PortCheck → RuntimeStatus
only_check check = record empty_status { port_check = check }

-- `CheckTCPPort`; `no_mapping` is the text of `errNoTCPMapping`, and `meanwhile` is what the other
-- goroutines do during the dial.
unfoldable pub check_tcp_port :
    Outside
    → Io
    → Time
    → Text
    → Dial
    → (Manager → Manager)
    → Text
    → Manager
    → Manager × Result CheckError PortCheck
unfolding dialed not_mapped
check_tcp_port out io now no_mapping dial meanwhile id m = elim (get_instance m.store id) [
  | none ↦ (m, err no_instance)
  | some cfg ↦
      let st = status_for now m id in
      let lost = not_mapped now no_mapping in
      let tried = dialed now dial in
      if not (text_eq cfg.protocol tcp)
      then (m, err only_tcp)
      else if is_nil st.public_address || leb_ℤ st.public_port (pos 0)
      then (report out io now id (only_check lost) m, ok lost)
      else (report out io now id (only_check tried) (meanwhile m), ok tried)
]

merge-only_check :
    (now : Time) (cur : RuntimeStatus) (check : PortCheck)
    → has_check check.state ≡ true
    → (merge now cur (only_check check)).port_check ≡ check
unfolding merge merge_rest
merge-only_check now cur check h = ground (arith, h)

dialed-has_check : (now : Time) (dial : Dial) → has_check (dialed now dial).state ≡ true
unfolding dialed classify
dialed-has_check now (connected_in millis) = refl
dialed-has_check now (failed_with true message) = refl
dialed-has_check now (failed_with false message) = refl

not_mapped-has_check :
    (now : Time) (message : Text) → has_check (not_mapped now message).state ≡ true
unfolding not_mapped
not_mapped-has_check now message = refl

status_for-report :
    (out : Outside) (io : Io) (now later : Time) (id : Text) (update : RuntimeStatus) (m : Manager)
    → status_for later (report out io now id update m) id ≡ merge now (status_for now m id) update
unfolding report put_status notify_status status_for
status_for-report out io now later id update m =
    let current = merge now (status_for now m id) update in
    ground (arith, get-put id id current m.status, text_eq_refl id)

report-only_check :
    (out : Outside) (io : Io) (now later : Time) (id : Text) (check : PortCheck) (m : Manager)
    → has_check check.state ≡ true
    → (status_for later (report out io now id (only_check check) m) id).port_check ≡ check
report-only_check out io now later id check m h =
    ap (λ (st : RuntimeStatus). st.port_check)
      (status_for-report out io now later id (only_check check) m)
    ∙ merge-only_check now (status_for now m id) check h

-- A check of the port that returns no error leaves its result as the port check of the status,
-- whatever happened during the dial; one that returns an error changes nothing.
pub check_tcp_port_lem :
    (out : Outside) (io : Io) (now later : Time) (no_mapping : Text) (dial : Dial)
    (meanwhile : Manager → Manager) (id : Text) (m : Manager)
    → let answer = check_tcp_port out io now no_mapping dial meanwhile id m in
      ((check : PortCheck)
        → answer.1 ≡ ok check
        → (status_for later answer.0 id).port_check ≡ check)
      × (is_ok answer.1 ≡ false → answer.0 ≡ m)
unfolding check_tcp_port
check_tcp_port_lem out io now later no_mapping dial meanwhile id m =
    let lost = not_mapped now no_mapping in
    let tried = dialed now dial in
    (
      (λ check done. ground (
        arith,
        done,
        report-only_check out io now later id lost m (not_mapped-has_check now no_mapping),
        report-only_check out io now later id tried (meanwhile m) (dialed-has_check now dial),
      )),
      λ failed. ground arith,
    )
