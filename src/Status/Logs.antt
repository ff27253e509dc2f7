-- ===== src/Status/Logs.antt =====
-- The log of an instance keeps its newest entries.
use mathlib.Core.List.{append-nil}
use natcat.Base.{
  Bool-cases, List, Option, [], ap, arith, if◌then◌else◌, inl, inr, is_nil, length, length-drop,
  ltb, refl, sym, take, take-append-drop, true, ◌++◌, ◌-◌, ◌∙◌, ◌∷◌, ◌≡◌, ◌≤◌,
}
use natcat.Status.{
  clear_public, max_logs, merge, merge_fields, merge_keep_alive, merge_rest, merge_state, news,
  set_state, trim_logs,
}
use natcat.Text.{Text}
use natcat.Types.{LogEntry, RuntimeStatus, State, Time}

-- At most a hundred entries.
abbrev pub IsBounded : RuntimeStatus → Type 0
IsBounded st = length st.logs ≤ max_logs

pub length-trim_logs : (logs : List LogEntry) → length (trim_logs logs) ≤ max_logs
unfolding trim_logs
length-trim_logs logs = ground (arith, length-drop (length logs - max_logs) logs)

-- What is dropped stands in front of what is kept.
pub trim_logs-suffix :
    (logs : List LogEntry) → (dropped : List LogEntry) × (dropped ++ trim_logs logs ≡ logs)
unfolding trim_logs
trim_logs-suffix logs = elim (Bool-cases (ltb max_logs (length logs))) [
  | inl e ↦ rw e (take (length logs - max_logs) logs, take-append-drop _ logs)
  | inr e ↦ rw e ([], refl)
]

merge_state-logs : (cur u : RuntimeStatus) → (merge_state cur u).logs ≡ cur.logs
unfolding merge_state
merge_state-logs cur u = ground arith

merge_keep_alive-logs : (cur u : RuntimeStatus) → (merge_keep_alive cur u).logs ≡ cur.logs
unfolding merge_keep_alive
merge_keep_alive-logs cur u = ground arith

merge-logs_lem :
    (now : Time) (cur u : RuntimeStatus)
    → (merge now cur u).logs ≡ (if is_nil u.logs then cur.logs else trim_logs (cur.logs ++ u.logs))
unfolding merge merge_rest merge_fields
merge-logs_lem now cur u =
    let kept =
      merge_keep_alive-logs (merge_fields (merge_state cur u) u) u ∙ merge_state-logs cur u in
    rw kept refl

is_nil→nil : {A : Type 0} (l : List A) → is_nil l ≡ true → l ≡ []
is_nil→nil [] h = refl
is_nil→nil (x ∷ l) h = cc

-- A report keeps the log of an instance within a hundred entries; it drops entries only from the
-- front of the old log followed by the entries of the report.
pub merge-logs :
    (now : Time) (cur u : RuntimeStatus)
    → IsBounded cur
    → IsBounded (merge now cur u)
      × ((dropped : List LogEntry) × (dropped ++ (merge now cur u).logs ≡ cur.logs ++ u.logs))
merge-logs now cur u b = elim (Bool-cases (is_nil u.logs)) [
  | inl none_new ↦
      rw (merge-logs_lem now cur u, none_new)
        (b, ([], sym (ap (◌++◌ cur.logs) (is_nil→nil u.logs none_new) ∙ append-nil cur.logs)))
  | inr some_new ↦
      rw (merge-logs_lem now cur u, some_new)
        (length-trim_logs (cur.logs ++ u.logs), trim_logs-suffix (cur.logs ++ u.logs))
]

-- A change of state by the manager leaves at most a hundred entries, whatever there were.
pub set_state-logs :
    (now : Time) (st : RuntimeStatus) (state : State) (message : Text) (failure : Option Text)
    → IsBounded (set_state now st state message failure)
unfolding set_state
set_state-logs now st state message failure = length-trim_logs (st.logs ++ news now message failure)

pub clear_public-logs : (st : RuntimeStatus) → IsBounded st → IsBounded (clear_public st)
unfolding clear_public
clear_public-logs st b = b
