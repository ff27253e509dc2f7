-- ===== src/Rotation.antt =====
-- internal/core/runner.go, `orderedServerEndpoints` and what it calls: which server is tried
-- first. The cursors of `serverCursor` are never negative, and a missing one is 0; the index of
-- `indexOfServerEndpoint` is none for -1; the step and the limit are the positive constants of
-- the calls.
pub mod Order
pub mod Turns
use natcat.Base.{
  Bool, List, Option, [], arith, drop, if◌then◌else◌, is_nil, leb, length, map, none, some, suc,
  take, ℕ, ◌%◌, ◌&&◌, ◌++◌, ◌+◌, ◌==◌, ◌||◌, ◌∷◌, ◌≡◌,
}
use natcat.Dict.{get, get-put, put, text_eq_refl}
use natcat.Int.{eq_ℤ}
use natcat.Text.{Text, equal_fold}
use natcat.Types.{ServerEndpoint}
use mathlib.Core.Option

abbrev pub Cursors : Type 0
Cursors = List (Text × ℕ)

abbrev pub cursor : Cursors → Text → ℕ
cursor cs kind = elim (get kind cs) [ none ↦ 0 | some n ↦ n ]

unfoldable pub same_server_endpoint : ServerEndpoint → ServerEndpoint → Bool
unfolding equal_fold
same_server_endpoint a b = equal_fold a.host b.host && eq_ℤ a.port b.port

unfoldable pub index_of_server_endpoint : List ServerEndpoint → ServerEndpoint → Option ℕ
index_of_server_endpoint [] target = none
index_of_server_endpoint (e ∷ rest) target =
    if same_server_endpoint e target
    then some 0
    else Option.map suc (index_of_server_endpoint rest target)

unfoldable pub rotate_server_endpoints : List ServerEndpoint → ℕ → List ServerEndpoint
rotate_server_endpoints endpoints start =
    let at = start % length endpoints in
    if is_nil endpoints then [] else drop at endpoints ++ take at endpoints

unfoldable pub set_server_cursor : Cursors → Text → ℕ → Cursors
unfolding put
set_server_cursor cs kind next = put kind next cs

unfoldable pub next_server_cursor_step : Cursors → Text → ℕ → ℕ → Cursors × ℕ
next_server_cursor_step cs kind len step =
    let start = cursor cs kind % len in
    if len == 0 then (cs, 0) else (put kind (start + (if step == 0 then 1 else step)) cs, start)

unfoldable pub next_server_cursor : Cursors → Text → ℕ → Cursors × ℕ
unfolding next_server_cursor_step
next_server_cursor cs kind len = next_server_cursor_step cs kind len 1

-- `setServerCursorAfter`.
unfoldable pub set_server_cursor_after :
    Cursors → Text → List ServerEndpoint → ServerEndpoint → Cursors
set_server_cursor_after cs kind endpoints e = elim (index_of_server_endpoint endpoints e) [
  | none ↦ cs
  | some idx ↦ set_server_cursor cs kind (idx + 1)
]

-- The index of the server behind `after`, where that is in the list.
unfoldable pub start_after : List ServerEndpoint → Option ServerEndpoint → Option ℕ
start_after endpoints none = none
start_after endpoints (some after) =
    Option.map (λ idx. (idx + 1) % length endpoints) (index_of_server_endpoint endpoints after)

unfoldable pub choose_start : Cursors → Text → ℕ → Option ℕ → Cursors × ℕ
choose_start cs kind len none = next_server_cursor cs kind len
choose_start cs kind len (some start) = (set_server_cursor cs kind (start + 1), start)

unfoldable pub ordered_server_endpoints :
    Cursors → Text → List ServerEndpoint → Option ServerEndpoint → Cursors × List ServerEndpoint
ordered_server_endpoints cs kind endpoints after =
    if leb (length endpoints) 1
    then (cs, endpoints)
    else let (cs', start) = choose_start cs kind (length endpoints) (start_after endpoints after) in
      (cs', rotate_server_endpoints endpoints start)

unfoldable pub ordered_server_endpoint_batch :
    Cursors → Text → List ServerEndpoint → ℕ → Cursors × List ServerEndpoint
ordered_server_endpoint_batch cs kind endpoints limit =
    if leb (length endpoints) 1 || limit == 0 || leb (length endpoints) limit
    then ordered_server_endpoints cs kind endpoints none
    else let (cs', start) = next_server_cursor_step cs kind (length endpoints) limit in
      (cs', take limit (rotate_server_endpoints endpoints start))

pub cursor-put : (cs : Cursors) (kind : Text) (n : ℕ) → cursor (put kind n cs) kind ≡ n
cursor-put cs kind n = ground (arith, get-put kind kind n cs, text_eq_refl kind)
