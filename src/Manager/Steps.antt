-- ===== src/Manager/Steps.antt =====
-- The manager as the goroutines move it: every section under its lock is a step, in any order.
use natcat.Base.{All, List, drop, some, ℕ, ◌++◌, ◌<◌, ◌∷◌, ◌≡◌}
use natcat.Dict.{get, put, remove}
use natcat.Manager.{Manager, Runner, Subscriber, set_status, subscribe, unsubscribe}
use natcat.Manager.Control.{
  clear_runtime, report, run_begins, runner_ended, start, stop_all, stop_runner,
}
use natcat.Manager.Events.{IsWithin}
use natcat.Status.Alive.{IsQuiet}
use natcat.Status.Logs.{IsBounded}
use natcat.Store.{Io, Outside, Store}
use natcat.Text.{Text}
use natcat.Types.{RuntimeStatus, State, Time}

-- The store may change on its own, a subscriber may take its oldest event, and a caller of `Stop`
-- or `ReplaceConfig` marks a runner before it waits, and forgets a runner that is done.
pub data Step (out : Outside) : Manager → Manager → Type 0 where
  starts : (now : Time) (id : Text) (m : Manager) → Step out m (start out now id m).0
  begins : (id : Text) (m : Manager) → Step out m (run_begins id m)
  reports :
      (io : Io) (now : Time) (id : Text) (update : RuntimeStatus) (m : Manager)
      → Step out m (report out io now id update m)
  clears :
      (io : Io) (now : Time) (id : Text) (m : Manager) → Step out m (clear_runtime out io now id m)
  ends :
      (now : Time) (id : Text) (number : ℕ) (m : Manager)
      → Step out m (runner_ended now id number m)
  sets :
      (now : Time) (id : Text) (state : State) (message : Text) (m : Manager)
      → Step out m (set_status now id state message m)
  marks :
      (id : Text) (r : Runner) (m : Manager)
      → get id m.runners ≡ some r
      → Step out m (record m { runners = put id (stop_runner r) m.runners })
  stops_all : (m : Manager) → Step out m (stop_all m)
  forgets : (id : Text) (m : Manager) → Step out m (record m { runners = remove id m.runners })
  subscribes : (m : Manager) → Step out m (subscribe m).0
  unsubscribes : (number : ℕ) (m : Manager) → Step out m (unsubscribe number m)
  receives :
      (ch : Subscriber) (before after : List Subscriber) (m : Manager)
      → m.subscribers ≡ before ++ ch ∷ after
      → Step out m
          (record m { subscribers = before ++ record ch { queue = drop 1 ch.queue } ∷ after })
  stores : (store : Store) (m : Manager) → Step out m (record m { store = store })

pub data Reach (out : Outside) : Manager → Manager → Type 0 where
  here : (m : Manager) → Reach out m m
  then_step : (a b c : Manager) → Reach out a b → Step out b c → Reach out a c

-- A status that can be shown: no session where the instance is stopped, and a log within bounds.
abbrev pub IsShown : Text × RuntimeStatus → Type 0
IsShown e = IsQuiet (e.1) × IsBounded (e.1)

abbrev pub IsNumbered : ℕ → Text × Runner → Type 0
IsNumbered next e = e.1.number < next

-- The statuses can be shown, the channels hold at most their size, and the number that a runner or
-- channel gets next is new among the runners.
pub record IsWell (m : Manager) : Type 0 where
  pub statuses : All IsShown m.status
  pub queues : All IsWithin m.subscribers
  pub numbers : All (IsNumbered m.next_number) m.runners
