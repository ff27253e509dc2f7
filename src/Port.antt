-- ===== src/Port.antt =====
-- internal/core/port.go: the ports that an instance binds, and the part of a runner's state
-- (internal/core/runner.go) that holds on to one of them.
-- A picker's ports have passed the test for 0 to 65535, so they are natural numbers. The port to
-- avoid is an `int`, since -1 stands for none. `rand.Int` is the argument `rand`: its answer to
-- each attempt, or none where it fails.
pub mod Range
pub mod Spec
pub mod Cycle
pub mod Bind
use natcat.Base.{
  Bool, List, Option, [], false, if◌then◌else◌, is_nil, ltb, none, not, some, suc, true, zero, ℕ,
  ◌+◌, ◌-◌, ◌==◌, ◌||◌, ◌∷◌,
}
use natcat.Int.{eq_ℤ, ltb_ℤ, negsuc, pos, pos_part, ℤ}
use natcat.Result.{Result, err, fail_if, ok, or_fail, ◌>>=◌, ◌>>◌}
use natcat.Text.{Text, atoi, contains, split, trim_space}

pub record PortPicker : Type 0 where
  pub start : ℕ
  pub end : ℕ
  pub randomized : Bool
  pub next : ℕ

pub data PortError : Type 0 where
  bad_random_range bad_sequential_range invalid_range : PortError
  invalid_port : Text → PortError

abbrev pub max_port : ℕ
max_port = 65535

-- The range test of `parsePortRange`.
unfoldable pub check_range : ℤ → ℤ → Result PortError (ℕ × ℕ)
check_range start end = do
  fail_if
      (ltb_ℤ start (pos 0)
        || ltb_ℤ end (pos 0)
        || ltb_ℤ (pos max_port) start
        || ltb_ℤ (pos max_port) end
        || ltb_ℤ end start)
      invalid_range
  ok (pos_part start, pos_part end)

unfoldable pub parse_port_range : Text → Text → Result PortError (ℕ × ℕ)
unfolding check_range
parse_port_range raw_start raw_end = do
  start ← or_fail (atoi (trim_space raw_start)) (invalid_port raw_start)
  end ← or_fail (atoi (trim_space raw_end)) (invalid_port raw_end)
  check_range start end

-- A range of two parts, or the error of its separator.
unfoldable pub range_picker : List Text → PortError → Bool → Result PortError PortPicker
unfolding parse_port_range
range_picker (raw_start ∷ raw_end ∷ []) e randomized = do
  (start, end) ← parse_port_range raw_start raw_end
  ok (record { start = start; end = end; randomized = randomized; next = start })
range_picker _ e randomized = err e

unfoldable pub single_picker : Text → Result PortError PortPicker
single_picker spec = do
  port ← or_fail (atoi spec) (invalid_port spec)
  fail_if (ltb_ℤ port (pos 0) || ltb_ℤ (pos max_port) port) (invalid_port spec)
  ok (record {
    start = pos_part port;
    end = pos_part port;
    randomized = false;
    next = pos_part port;
  })

abbrev pub or_zero : Text → Text
or_zero s = if is_nil s then b'0' ∷ [] else s

unfoldable pub new_port_picker : Text → Result PortError PortPicker
unfolding range_picker single_picker
new_port_picker raw =
    let spec = or_zero (trim_space raw) in
    if contains spec (b'~' ∷ [])
    then range_picker (split spec b'~') bad_random_range true
    else if contains spec (b'-' ∷ [])
    then range_picker (split spec b'-') bad_sequential_range false
    else single_picker spec

-- The attempts at a random port: `left` of them, from number `attempt` on.
unfoldable pub draw : PortPicker → ℤ → (ℕ → Option ℕ) → ℕ → ℕ → Option ℕ
draw p except rand zero attempt = none
draw p except rand (suc left) attempt = elim (rand attempt) [
  | none ↦ none
  | some n ↦
      let more = draw p except rand left (attempt + 1) in
      if eq_ℤ (pos (p.start + n)) except then more else some (p.start + n)
]

-- The first port from `port` on, in `left` ports, that is not `except`.
unfoldable pub scan : ℤ → ℕ → ℕ → Option ℕ
scan except zero port = none
scan except (suc left) port =
    let more = scan except left (port + 1) in if eq_ℤ (pos port) except then more else some port

abbrev pub size : PortPicker → ℕ
size p = p.end - p.start + 1

abbrev pub first_of_two : Option ℕ → Option ℕ → ℕ → ℕ
first_of_two (some a) b c = a
first_of_two none (some b) c = b
first_of_two none none c = c

unfoldable pub random_port : PortPicker → ℤ → (ℕ → Option ℕ) → ℕ
unfolding draw scan
random_port p except rand =
    first_of_two (draw p except rand (size p) 0) (scan except (size p) p.start) p.start

-- `port := p.next; p.next++`, back to the start behind the end.
unfoldable pub step_next : PortPicker → PortPicker × ℕ
step_next p = (record p { next = if ltb p.end (p.next + 1) then p.start else p.next + 1 }, p.next)

unfoldable pub sequential_port : PortPicker → ℤ → PortPicker × ℕ
unfolding step_next
sequential_port p except =
    let (q, port) = step_next p in
    let again = step_next q in if eq_ℤ (pos port) except then again else (q, port)

unfoldable pub next_except : PortPicker → ℤ → (ℕ → Option ℕ) → PortPicker × ℕ
unfolding random_port sequential_port
next_except p except rand =
    if p.start == p.end
    then (p, p.start)
    else if p.randomized
    then (p, random_port p except rand)
    else sequential_port p except

abbrev pub no_port : ℤ
no_port = negsuc 0

unfoldable pub next_port : PortPicker → (ℕ → Option ℕ) → PortPicker × ℕ
unfolding next_except
next_port p rand = next_except p no_port rand

-- The fields of `Runner` that `portMu` guards.
pub record BindState : Type 0 where
  pub picker : PortPicker
  pub current_port : ℕ
  pub failed_port : ℤ
  pub has_port : Bool
  pub advance_port : Bool

-- What `NewRunner` sets.
unfoldable pub init_bind : PortPicker → BindState
init_bind p = record {
  picker = p;
  current_port = 0;
  failed_port = no_port;
  has_port = false;
  advance_port = false;
}

unfoldable pub pick : BindState → PortPicker × ℕ → BindState × ℕ
pick r (q, port) = (
  record r {
    picker = q;
    current_port = port;
    failed_port = no_port;
    has_port = true;
    advance_port = false;
  },
  port,
)

unfoldable pub bind_port : BindState → (ℕ → Option ℕ) → BindState × ℕ
unfolding pick
bind_port r rand =
    if not r.has_port || r.advance_port
    then pick r (next_except r.picker r.failed_port rand)
    else (r, r.current_port)

unfoldable pub advance_bind_port : BindState → BindState
advance_bind_port r = record r { failed_port = pos r.current_port; advance_port = true }

unfoldable pub keep_bind_port : BindState → ℕ → BindState
keep_bind_port r actual =
    if ltb 0 actual
    then record r {
      current_port = actual;
      failed_port = no_port;
      has_port = true;
      advance_port = false;
    }
    else record r { advance_port = false }
