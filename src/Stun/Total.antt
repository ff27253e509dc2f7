-- ===== src/Stun/Total.antt =====
-- The parser never reads out of range, and its loop ends.
use natcat.Base.{
  Bool, Bool-cases, arith, false, inl, inr, leb, leb→le, length, ltb, not, refl, suc, true, zero, ℕ,
  ◌*◌, ◌+◌, ◌≡◌, ◌≤◌,
}
use natcat.Result.{Result, err, ok, ◌>>=◌}
use natcat.Stun.{
  Bytes, StunError, align, attributes, is_mapped, out_of_fuel, out_of_range, parse_mapped_address,
  parse_stun, slice,
}
use natcat.Stun.Slices.{byte_at-ok, slice-ok, u16_at-ok, u32_at-ok}

-- A panic, or a loop that was cut off.
abbrev pub is_fault : StunError → Bool
is_fault out_of_range = true
is_fault out_of_fuel = true
is_fault _ = false

-- A result, or an error that the source writes.
abbrev pub safe : {A : Type 0} → Result StunError A → Bool
safe (ok a) = true
safe (err e) = not (is_fault e)

not-ltb : (a b : ℕ) → ltb a b ≡ false → b ≤ a
not-ltb a b h = ground arith

parse_mapped_address-safe :
    (attr_type : ℕ) (value : Bytes) → safe (parse_mapped_address attr_type value) ≡ true
unfolding parse_mapped_address
parse_mapped_address-safe attr_type value =
    ground (arith, byte_at-ok value 1, u16_at-ok value 2, slice-ok value 4 8)

safe-bind :
    {A B : Type 0} (m : Result StunError A) (f : A → Result StunError B)
    → safe m ≡ true
    → ((a : A) → safe (f a) ≡ true)
    → safe (m >>= f) ≡ true
safe-bind (ok a) f h k = k a
safe-bind (err e) f h k = h

align-bounds : (n : ℕ) → (n ≤ align n) × (align n ≤ n + 3)
align-bounds n = ground arith

attributes_step-safe :
    (tid body : Bytes) (fuel place : ℕ)
    → ((next : ℕ)
        → place + 4 ≤ next
        → next ≤ length body + 3
        → safe (attributes tid body fuel next) ≡ true)
    → safe (attributes tid body (suc fuel) place) ≡ true
unfolding attributes
attributes_step-safe tid body fuel place later = elim (Bool-cases (leb (place + 4) (length body))) [
  | inr e ↦ rw e
  | inl e ↦
      let room = leb→le (place + 4) (length body) e in
      let (kind, read_kind) = u16_at-ok body place (omega arith) in
      let (len, read_len) = u16_at-ok body (place + 2) (omega arith) in
      let next = place + 4 + len in
      rw (e, read_kind, read_len)
        (elim (Bool-cases (ltb (length body) next)) [
          | inl long ↦ rw long
          | inr fits ↦
              let (value, cut, _) =
                slice-ok body (place + 4) next (omega arith) (not-ltb _ _ fits) in
              rw (fits, cut)
                (elim (Bool-cases (is_mapped kind)) [
                  | inl m ↦ rw m (safe-bind _ _ (parse_mapped_address-safe kind value) (λ r. refl))
                  | inr m ↦ rw m (
                      later (align next) (omega (arith, align-bounds next))
                        (omega (arith, align-bounds next, not-ltb (length body) next fits)))
                ])
        ])
]

attributes-safe :
    (tid body : Bytes) (fuel place : ℕ)
    → length body + 4 ≤ place + 4 * fuel
    → place ≤ length body + 3
    → safe (attributes tid body fuel place) ≡ true
attributes-safe tid body zero place h k = absurd (omega arith)
attributes-safe tid body (suc fuel) place h k =
    attributes_step-safe tid body fuel place
      λ next above below. attributes-safe tid body fuel next (omega arith) below

-- Whatever bytes arrive, `parseSTUN` makes no access out of range and its loop over the
-- attributes ends: it returns a result or one of the errors that the source writes.
pub parse_stun-safe : (packet : Bytes) → safe (parse_stun packet) ≡ true
unfolding parse_stun
parse_stun-safe packet = elim (Bool-cases (ltb (length packet) 20)) [
  | inl e ↦ rw e
  | inr e ↦
      let twenty = not-ltb (length packet) 20 e in
      let (kind, read_kind) = u16_at-ok packet 0 (omega arith) in
      let (len, read_len) = u16_at-ok packet 2 (omega arith) in
      let (magic, read_magic) = u32_at-ok packet 4 (omega arith) in
      let (tid, cut_tid, _) = slice-ok packet 8 20 (omega arith) twenty in
      rw (e, read_kind, read_len, read_magic, cut_tid) (ground (arith, rest tid len))
]
  where
    rest :
        (tid : Bytes) (len : ℕ)
        → ltb (length packet) (20 + len) ≡ false
        → safe (slice packet 20 (20 + len) >>= λ body. attributes tid body (suc len) 0) ≡ true
    rest tid len fits =
        let (body, cut, full) =
          slice-ok packet 20 (20 + len) (omega arith) (not-ltb (length packet) (20 + len) fits) in
        rw cut (attributes-safe tid body (suc len) 0 (omega arith) (omega arith))
