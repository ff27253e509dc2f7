-- ===== src/Manager/Well.antt =====
-- What holds of a manager whatever its goroutines do.
use natcat.Base.{
  All, Bool, Bool-cases, List, Option-cases, [], arith, drop, false, if◌then◌else◌, inl, inr,
  length-drop, none, refl, some, subst, suc, true, ℕ, ◌++◌, ◌∷◌, ◌≡◌,
}
use natcat.Dict.{get, put, remove}
use natcat.Dict.All.{All-get, All-put, All-remove}
use natcat.Manager.{
  Manager, Runner, Subscriber, is_running, new_manager, notify_status, put_status,
  remove_subscriber, set_status, status_for, subscribe, unsubscribe,
}
use natcat.Manager.Control.{
  clear_runtime, is_current, names_public, new_runner, report, run_begins, runner_ended, start,
  stop_all, stop_each, stop_runner,
}
use natcat.Manager.Events.{IsWithin, send_all-IsWithin}
use natcat.Manager.Steps.{
  IsNumbered, IsShown, IsWell, Reach, Step, begins, clears, ends, forgets, here, marks, receives,
  reports, sets, starts, stops_all, stores, subscribes, then_step, unsubscribes,
}
use natcat.Status.{is_state, merge, state_blocks_keep_alive}
use natcat.Status.Alive.{IsQuiet, merge-IsQuiet, set_state-IsQuiet}
use natcat.Status.Logs.{IsBounded, clear_public-logs, merge-logs, set_state-logs}
use natcat.Store.{Io, Outside, Store}
use natcat.Store.Instances.{get_instance}
use natcat.Store.Saved.{save_runtime_status}
use natcat.Text.{Text}
use natcat.Types.{RuntimeStatus, State, Time, starting, stopped}

status_for-IsShown :
    (now : Time) (m : Manager) (id : Text)
    → All IsShown m.status
    → IsQuiet (status_for now m id) × IsBounded (status_for now m id)
unfolding status_for state_blocks_keep_alive
status_for-IsShown now m id a = elim (Option-cases (get id m.status)) [
  | inl e ↦ rw (status_for, e) ((λ blocked. refl), omega arith)
  | inr (st, e) ↦ rw (status_for, e) (All-get IsShown id st m.status a e).1
]

put_status-IsWell :
    (now : Time) (id : Text) (st : RuntimeStatus) (m : Manager)
    → IsWell m
    → IsQuiet st × IsBounded st
    → IsWell (put_status now id st m)
unfolding put_status notify_status
put_status-IsWell now id st m w good = record {
  statuses = All-put IsShown id st m.status w.statuses good;
  queues = send_all-IsWithin _ m.subscribers w.queues;
  numbers = w.numbers;
}

put_store-IsWell : (store : Store) (m : Manager) → IsWell m → IsWell (record m { store = store })
put_store-IsWell store m w = record {
  statuses = w.statuses;
  queues = w.queues;
  numbers = w.numbers;
}

put_runners-IsWell :
    (runners : List (Text × Runner)) (m : Manager)
    → IsWell m
    → All (IsNumbered m.next_number) runners
    → IsWell (record m { runners = runners })
put_runners-IsWell runners m w a = record { statuses = w.statuses; queues = w.queues; numbers = a }

set_status-IsWell :
    (now : Time) (id : Text) (state : State) (message : Text) (m : Manager)
    → IsWell m
    → IsWell (set_status now id state message m)
unfolding set_status
set_status-IsWell now id state message m w = put_status-IsWell now id _ m w (
  (set_state-IsQuiet now (status_for now m id) state message none).0,
  set_state-logs now (status_for now m id) state message none,
)

if_store-IsWell :
    (b : Bool) (store : Store) (m : Manager)
    → IsWell m
    → IsWell (if b then record m { store = store } else m)
if_store-IsWell true store m w = put_store-IsWell store m w
if_store-IsWell false store m w = w

report-IsWell :
    (out : Outside) (io : Io) (now : Time) (id : Text) (update : RuntimeStatus) (m : Manager)
    → IsWell m
    → IsWell (report out io now id update m)
unfolding report
report-IsWell out io now id update m w =
    let good = status_for-IsShown now m id w.statuses in
    let current = merge now (status_for now m id) update in
    if_store-IsWell (names_public update)
      (save_runtime_status out io id current (put_status now id current m).store).0
      (put_status now id current m)
      (put_status-IsWell now id (merge now (status_for now m id) update) m w
        (merge-IsQuiet now _ update (good.0), (merge-logs now _ update (good.1)).0))

clear_runtime-IsWell :
    (out : Outside) (io : Io) (now : Time) (id : Text) (m : Manager)
    → IsWell m
    → IsWell (clear_runtime out io now id m)
unfolding clear_runtime
clear_runtime-IsWell out io now id m w =
    let good = status_for-IsShown now m id w.statuses in
    put_store-IsWell _ _ (
      put_status-IsWell now id _ m w (
        (set_state-IsQuiet now (status_for now m id) State.error [] none).1 (good.0),
        clear_public-logs (status_for now m id) (good.1),
      ))

remove_subscriber-All :
    (n : ℕ) (subscribers : List Subscriber)
    → All IsWithin subscribers
    → All IsWithin (remove_subscriber n subscribers)
unfolding remove_subscriber
remove_subscriber-All n [] a = tt
remove_subscriber-All n (ch ∷ rest) a = ground (arith, a, remove_subscriber-All n rest (a.1))

drop_first-All :
    (ch : Subscriber) (before after : List Subscriber)
    → All IsWithin (before ++ ch ∷ after)
    → All IsWithin (before ++ record ch { queue = drop 1 ch.queue } ∷ after)
drop_first-All ch [] after a = (ground (arith, a.0, length-drop 1 ch.queue), a.1)
drop_first-All ch (first ∷ before) after a = (a.0, drop_first-All ch before after (a.1))

more_numbers :
    (n : ℕ) (runners : List (Text × Runner))
    → All (IsNumbered n) runners
    → All (IsNumbered (suc n)) runners
more_numbers n [] a = tt
more_numbers n (e ∷ runners) a = (ground (arith, a.0), more_numbers n runners (a.1))

start-IsWell :
    (out : Outside) (now : Time) (id : Text) (m : Manager)
    → IsWell m
    → IsWell (start out now id m).0
unfolding start new_runner
start-IsWell out now id m w = elim (Option-cases (get_instance m.store id)) [
  | inl e ↦ rw (start, e) w
  | inr (cfg, e) ↦ elim (Bool-cases (is_running m id)) [
    | inl there ↦ rw (start, e, there) w
    | inr free ↦
        rw (start, e, free)
          (set_status-IsWell now id starting [] _ (record {
            statuses = w.statuses;
            queues = w.queues;
            numbers =
                All-put (IsNumbered (suc m.next_number)) id (new_runner out now id cfg m) m.runners
                  (more_numbers m.next_number m.runners w.numbers) (omega arith);
          }))
  ]
]

runner_ended-IsWell :
    (now : Time) (id : Text) (number : ℕ) (m : Manager)
    → IsWell m
    → IsWell (runner_ended now id number m)
unfolding runner_ended
runner_ended-IsWell now id number m w =
    let left = record m { runners = remove id m.runners } in
    let left_well =
      put_runners-IsWell (remove id m.runners) m w (All-remove _ id m.runners w.numbers) in
    elim (Bool-cases (is_current id number m)) [
      | inr other_runner ↦ rw other_runner w
      | inl same ↦ elim (Bool-cases (is_state (status_for now left id).state State.error)) [
        | inl failed ↦ rw (same, failed) left_well
        | inr fine ↦ rw (same, fine) (set_status-IsWell now id stopped [] left left_well)
      ]
    ]

run_begins-IsWell : (id : Text) (m : Manager) → IsWell m → IsWell (run_begins id m)
unfolding run_begins
run_begins-IsWell id m w = elim (Option-cases (get id m.runners)) [
  | inl e ↦ rw (run_begins, e) w
  | inr (r, e) ↦ rw e (
      put_runners-IsWell _ m w (
        All-put (IsNumbered m.next_number) id (record r { can_cancel = true }) m.runners w.numbers
          (All-get (IsNumbered m.next_number) id r m.runners w.numbers e).1))
]

stop_runner-number : (r : Runner) → (stop_runner r).number ≡ r.number
unfolding stop_runner
stop_runner-number r = ground arith

marked-IsWell :
    (id : Text) (r : Runner) (m : Manager)
    → get id m.runners ≡ some r
    → IsWell m
    → IsWell (record m { runners = put id (stop_runner r) m.runners })
marked-IsWell id r m e w =
    let old = (All-get (IsNumbered m.next_number) id r m.runners w.numbers e).1 in
    put_runners-IsWell _ m w (
      All-put (IsNumbered m.next_number) id (stop_runner r) m.runners w.numbers
        (ground (arith, old, stop_runner-number r)))

stop_each-IsNumbered :
    (n : ℕ) (runners : List (Text × Runner))
    → All (IsNumbered n) runners
    → All (IsNumbered n) (stop_each runners)
unfolding stop_each
stop_each-IsNumbered n [] a = tt
stop_each-IsNumbered n ((id, r) ∷ rest) a =
    (ground (arith, a.0, stop_runner-number r), stop_each-IsNumbered n rest (a.1))

stop_all-IsWell : (m : Manager) → IsWell m → IsWell (stop_all m)
unfolding stop_all
stop_all-IsWell m w =
    put_runners-IsWell (stop_each m.runners) m w
      (stop_each-IsNumbered m.next_number m.runners w.numbers)

pub Step-IsWell : (out : Outside) (a b : Manager) → Step out a b → IsWell a → IsWell b
unfolding subscribe unsubscribe
Step-IsWell out _ _ (starts now id m) w = start-IsWell out now id m w
Step-IsWell out _ _ (begins id m) w = run_begins-IsWell id m w
Step-IsWell out _ _ (reports io now id update m) w = report-IsWell out io now id update m w
Step-IsWell out _ _ (clears io now id m) w = clear_runtime-IsWell out io now id m w
Step-IsWell out _ _ (ends now id number m) w = runner_ended-IsWell now id number m w
Step-IsWell out _ _ (sets now id state message m) w = set_status-IsWell now id state message m w
Step-IsWell out _ _ (marks id r m e) w = marked-IsWell id r m e w
Step-IsWell out _ _ (stops_all m) w = stop_all-IsWell m w
Step-IsWell out _ _ (forgets id m) w =
    put_runners-IsWell _ m w (All-remove _ id m.runners w.numbers)
Step-IsWell out _ _ (subscribes m) w = record {
  statuses = w.statuses;
  queues = (omega arith, w.queues);
  numbers = more_numbers m.next_number m.runners w.numbers;
}
Step-IsWell out _ _ (unsubscribes number m) w = record {
  statuses = w.statuses;
  queues = remove_subscriber-All number m.subscribers w.queues;
  numbers = w.numbers;
}
Step-IsWell out _ _ (receives ch before after m e) w = record {
  statuses = w.statuses;
  queues = drop_first-All ch before after (subst (All IsWithin) e w.queues);
  numbers = w.numbers;
}
Step-IsWell out _ _ (stores store m) w = put_store-IsWell store m w

Reach-from : (out : Outside) (a b : Manager) → Reach out a b → IsWell a → IsWell b
Reach-from out _ _ (here m) w = w
Reach-from out _ _ (then_step a b c r s) w = Step-IsWell out b c s (Reach-from out a b r w)

-- From a new manager, whatever order its sections run in: a status never shows a session of an
-- instance that is stopped or stopping, a log stays within a hundred entries and the channel of a
-- subscriber within 64, and every registered runner has a number below the next one to be given,
-- so that a new runner is never taken for an old one.
pub Reach-IsWell :
    (out : Outside) (store : Store) (m : Manager) → Reach out (new_manager store) m → IsWell m
unfolding new_manager
Reach-IsWell out store m r =
    Reach-from out (new_manager store) m r (record { statuses = tt; queues = tt; numbers = tt })
