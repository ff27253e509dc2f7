-- ===== src/Port/Spec.antt =====
-- What `newPortPicker` reads: internal/core/port.go.
use natcat.Base.{
  Bool, Bool-cases, List, Option-cases, [], arith, false, if◌then◌else◌, inl, inr, refl, some,
  subst, sym, true, ℕ, ◌↔◌, ◌∷◌, ◌≡◌, ◌≤◌,
}
use natcat.Int.{negsuc, pos}
use natcat.Notify.{plain}
use natcat.Port.{
  PortError, bad_random_range, bad_sequential_range, check_range, max_port, new_port_picker,
  or_zero, parse_port_range, range_picker, single_picker,
}
use natcat.Result.{is_ok}
use natcat.Text.{Text, atoi, contains, split, trim_space}

-- The text reads as a port.
abbrev pub IsPort : Text → Type 0
IsPort s = (n : ℕ) × (atoi s ≡ some (pos n)) × (n ≤ max_port)

-- The parts are two texts that read as ports, but for blanks around them, the first not above the
-- second.
abbrev pub IsRange : List Text → Type 0
IsRange parts =
    (a : Text) × (b : Text) × (parts ≡ a ∷ b ∷ [])
    × (m : ℕ) × (n : ℕ) × (atoi (trim_space a) ≡ some (pos m))
    × (atoi (trim_space b) ≡ some (pos n))
    × (m ≤ n)
    × (n ≤ max_port)

-- What a bind port may be without blanks around it: a range that is written with a tilde, one with
-- a dash, or a port.
abbrev pub IsPortText : Text → Type 0
IsPortText s =
    if contains s (b'~' ∷ [])
    then IsRange (split s b'~')
    else if contains s (b'-' ∷ [])
    then IsRange (split s b'-')
    else IsPort s

-- An empty one is the port 0.
abbrev pub IsBindPort : Text → Type 0
IsBindPort raw = IsPortText (or_zero (trim_space raw))

single_picker-IsPort : (s : Text) → is_ok (single_picker s) ≡ true → IsPort s
unfolding single_picker
single_picker-IsPort s h = elim (Option-cases (atoi s)) [
  | inl e ↦ ground (arith, h, e)
  | inr (negsuc k, e) ↦ ground (arith, h, e)
  | inr (pos n, e) ↦ (n, e, ground (arith, h, e))
]

single_picker-ok : (s : Text) → IsPort s → is_ok (single_picker s) ≡ true
unfolding single_picker
single_picker-ok s (n, e, small) = ground (arith, e, small)

module _ (e : PortError) (randomized : Bool) where
  range_picker-IsRange :
      (parts : List Text) → is_ok (range_picker parts e randomized) ≡ true → IsRange parts
  unfolding range_picker check_range parse_port_range
  range_picker-IsRange [] h = ground (arith, h)
  range_picker-IsRange (a ∷ []) h = ground (arith, h)
  range_picker-IsRange (a ∷ b ∷ c ∷ parts) h = ground (arith, h)
  range_picker-IsRange (a ∷ b ∷ []) h = elim (Option-cases (atoi (trim_space a))) [
    | inl f ↦ ground (arith, h, f)
    | inr (negsuc k, f) ↦ ground (arith, h, f)
    | inr (pos m, f) ↦ elim (Option-cases (atoi (trim_space b))) [
      | inl g ↦ ground (arith, h, f, g)
      | inr (negsuc k, g) ↦ ground (arith, h, f, g)
      | inr (pos n, g) ↦ (a, b, refl, m, n, f, g, ground (arith, h, f, g), ground (arith, h, f, g))
    ]
  ]

  range_picker-two :
      (a b : Text) (m n : ℕ)
      → atoi (trim_space a) ≡ some (pos m)
      → atoi (trim_space b) ≡ some (pos n)
      → m ≤ n
      → n ≤ max_port
      → is_ok (range_picker (a ∷ b ∷ []) e randomized) ≡ true
  unfolding range_picker check_range parse_port_range
  range_picker-two a b m n f g order small = ground (arith, f, g, order, small)

  range_picker-ok :
      (parts : List Text) → IsRange parts → is_ok (range_picker parts e randomized) ≡ true
  range_picker-ok parts (a, b, two, m, n, f, g, order, small) =
      subst (λ (ps : List Text). is_ok (range_picker ps e randomized) ≡ true) (sym two)
        (range_picker-two a b m n f g order small)

-- A picker is made exactly of a port or a range of ports from 0 to 65535.
pub new_port_picker-IsBindPort :
    (raw : Text) → (is_ok (new_port_picker raw) ≡ true) ↔ IsBindPort raw
unfolding new_port_picker
new_port_picker-IsBindPort raw =
    let s = or_zero (trim_space raw) in
    elim (Bool-cases (contains s (b'~' ∷ []))) [
      | inl tilde ↦
          rw tilde
            (range_picker-IsRange bad_random_range true _, range_picker-ok bad_random_range true _)
      | inr plain ↦ elim (Bool-cases (contains s (b'-' ∷ []))) [
        | inl dash ↦
            rw (plain, dash)
              (
                range_picker-IsRange bad_sequential_range false _,
                range_picker-ok bad_sequential_range false _,
              )
        | inr single ↦ rw (plain, single) (single_picker-IsPort _, single_picker-ok _)
      ]
    ]
