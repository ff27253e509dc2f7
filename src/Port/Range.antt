-- ===== src/Port/Range.antt =====
-- The ports that a picker hands out lie in its range, and avoid the one that failed.
use natcat.Base.{
  Bool, Bool-cases, List, Option, Option-cases, [], arith, false, inl, inr, none, some, suc, true,
  zero, ℕ, ◌+◌, ◌-◌, ◌<◌, ◌==◌, ◌∷◌, ◌≡◌, ◌≢◌, ◌≤◌,
}
use natcat.Int.{eq_ℤ_iff, pos, ℤ}
use natcat.Port.{
  PortError, PortPicker, bad_random_range, bad_sequential_range, check_range, draw, max_port,
  new_port_picker, next_except, or_zero, random_port, range_picker, scan, sequential_port,
  single_picker, size,
}
use natcat.Result.{ok}
use natcat.Text.{Text, split, trim_space}

-- A picker of `newPortPicker`: a range of ports, and the next one inside it.
pub record IsValid (p : PortPicker) : Type 0 where
  pub ordered : p.start ≤ p.end
  pub fits : p.end ≤ max_port
  pub low : p.start ≤ p.next
  pub high : p.next ≤ p.end

-- `rand.Int` answers below the size of the range.
abbrev pub DrawsBelow : PortPicker → (ℕ → Option ℕ) → Type 0
DrawsBelow p rand = (k n : ℕ) → rand k ≡ some n → n < size p

check_range-IsValid :
    (start end : ℤ) (randomized : Bool) {a b : ℕ}
    → check_range start end ≡ ok (a, b)
    → IsValid (record { start = a; end = b; randomized = randomized; next = a })
unfolding check_range
check_range-IsValid start end randomized h = ground arith

range_picker-IsValid :
    (parts : List Text) (e : PortError) (randomized : Bool) {p : PortPicker}
    → range_picker parts e randomized ≡ ok p
    → IsValid p
unfolding range_picker
range_picker-IsValid [] e randomized h = cc
range_picker-IsValid (s ∷ []) e randomized h = cc
range_picker-IsValid (s ∷ t ∷ []) e randomized h = ground arith
range_picker-IsValid (s ∷ t ∷ u ∷ r) e randomized h = cc

single_picker-IsValid : (spec : Text) {p : PortPicker} → single_picker spec ≡ ok p → IsValid p
unfolding single_picker
single_picker-IsValid spec h = ground arith

-- A picker that `newPortPicker` returns holds a range of ports within 0 to 65535, and starts
-- inside it, whatever the text was.
pub new_port_picker-IsValid : (raw : Text) {p : PortPicker} → new_port_picker raw ≡ ok p → IsValid p
unfolding new_port_picker
new_port_picker-IsValid raw {p} h =
    let spec = or_zero (trim_space raw) in
    ground (
      arith,
      range_picker-IsValid (split spec b'~') bad_random_range true {p = p},
      range_picker-IsValid (split spec b'-') bad_sequential_range false {p = p},
      single_picker-IsValid spec {p = p},
    )

draw-bounds :
    (p : PortPicker) (except : ℤ) (rand : ℕ → Option ℕ) (left attempt port : ℕ)
    → DrawsBelow p rand
    → p.start ≤ p.end
    → draw p except rand left attempt ≡ some port
    → (p.start ≤ port) × (port ≤ p.end) × (pos port ≢ except)
unfolding draw
draw-bounds p except rand zero attempt port d o h = cc
draw-bounds p except rand (suc left) attempt port d o h = elim (Option-cases (rand attempt)) [
  | inl e ↦ ground arith
  | inr (n, e) ↦ ground (
    arith,
    d attempt n,
    draw-bounds p except rand left (attempt + 1) port d o,
    eq_ℤ_iff (pos (p.start + n)) except,
  )
]

scan-bounds :
    (except : ℤ) (left port q : ℕ)
    → scan except left port ≡ some q
    → (port ≤ q) × (q < port + left) × (pos q ≢ except)
unfolding scan
scan-bounds except zero port q h = cc
scan-bounds except (suc left) port q h =
    ground (arith, scan-bounds except left (port + 1) q, eq_ℤ_iff (pos port) except)

-- Of two ports the scan finds one.
scan-ne-none : (except : ℤ) (left port : ℕ) → scan except (suc (suc left)) port ≢ none
unfolding scan
scan-ne-none except left port =
    ground (arith, eq_ℤ_iff (pos port) except, eq_ℤ_iff (pos (port + 1)) except)

random_port-bounds :
    (p : PortPicker) (except : ℤ) (rand : ℕ → Option ℕ)
    → IsValid p
    → p.start < p.end
    → DrawsBelow p rand
    → (p.start ≤ random_port p except rand)
      × (random_port p except rand ≤ p.end)
      × (pos (random_port p except rand) ≢ except)
unfolding random_port
random_port-bounds p except rand v lt d = elim (Option-cases (draw p except rand (size p) 0)) [
  | inr (a, e) ↦ rw (e, random_port) (draw-bounds p except rand (size p) 0 a d v.ordered e)
  | inl e ↦ elim (Option-cases (scan except (size p) p.start)) [
    | inr (b, s) ↦
        let (low, high, ne) = scan-bounds except (size p) p.start b s in
        rw (e, random_port) (rw (s, random_port) (low, omega arith, ne))
    | inl s ↦ absurd (scan_two s)
  ]
]
  where
    scan_two : scan except (size p) p.start ≢ none
    scan_two =
        let two : size p ≡ suc (suc (p.end - p.start - 1)) = omega arith in
        rw two (scan-ne-none except _ p.start)

sequential_port-bounds :
    (p : PortPicker) (except : ℤ)
    → IsValid p
    → p.start < p.end
    → IsValid (sequential_port p except).0
      × (p.start ≤ (sequential_port p except).1)
      × ((sequential_port p except).1 ≤ p.end)
      × (pos (sequential_port p except).1 ≢ except)
unfolding sequential_port
sequential_port-bounds p except v lt = ground (arith, eq_ℤ_iff (pos p.next) except)

-- Asked for the next port, with random draws below the size of the range, a valid picker stays
-- valid and keeps its range, and the port lies in the range; whenever the range has two ports or
-- more, it is not the port to avoid.
pub next_except_lem :
    (p : PortPicker) (except : ℤ) (rand : ℕ → Option ℕ)
    → IsValid p
    → DrawsBelow p rand
    → IsValid (next_except p except rand).0
      × ((next_except p except rand).0.start ≡ p.start)
      × ((next_except p except rand).0.end ≡ p.end)
      × (p.start ≤ (next_except p except rand).1)
      × ((next_except p except rand).1 ≤ p.end)
      × (p.start < p.end → pos (next_except p except rand).1 ≢ except)
unfolding next_except
next_except_lem p except rand v d = elim (Bool-cases (p.start == p.end)) [
  | inl e ↦ ground arith
  | inr e ↦
      let lt : p.start < p.end = ground arith in
      ground (arith, random_port-bounds p except rand v lt d, sequential_port-bounds p except v lt)
]
