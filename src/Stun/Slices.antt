-- ===== src/Stun/Slices.antt =====
-- Reads inside a packet succeed.
use natcat.Base.{
  [], ap, arith, drop, drop-append, length, length-append, length-drop, length-take, refl, suc,
  take, take-append, zero, ℕ, ◌*◌, ◌++◌, ◌+◌, ◌-◌, ◌<◌, ◌∙◌, ◌∷◌, ◌≡◌, ◌≤◌,
}
use natcat.Result.{ok}
use natcat.Stun.{Bytes, byte_at, slice, u16, u16_at, u32, u32_at}

pub slice_lem :
    (s : Bytes) (lo hi : ℕ)
    → lo ≤ hi
    → hi ≤ length s
    → slice s lo hi ≡ ok (take (hi - lo) (drop lo s))
unfolding slice
slice_lem s lo hi h k = ground arith

pub slice-ok :
    (s : Bytes) (lo hi : ℕ)
    → lo ≤ hi
    → hi ≤ length s
    → (t : Bytes) × (slice s lo hi ≡ ok t) × (length t ≡ hi - lo)
slice-ok s lo hi h k = (
  take (hi - lo) (drop lo s),
  slice_lem s lo hi h k,
  omega (arith, length-take (hi - lo) (drop lo s), length-drop lo s),
)

u16-ok : (t : Bytes) → 2 ≤ length t → (v : ℕ) × (u16 t ≡ ok v)
unfolding u16
u16-ok [] h = absurd (omega arith)
u16-ok (a ∷ []) h = absurd (omega arith)
u16-ok (a ∷ b ∷ t) h = (a * 256 + b, refl)

u32-ok : (t : Bytes) → 4 ≤ length t → (v : ℕ) × (u32 t ≡ ok v)
unfolding u32
u32-ok [] h = absurd (omega arith)
u32-ok (a ∷ []) h = absurd (omega arith)
u32-ok (a ∷ b ∷ []) h = absurd (omega arith)
u32-ok (a ∷ b ∷ c ∷ []) h = absurd (omega arith)
u32-ok (a ∷ b ∷ c ∷ d ∷ t) h = (((a * 256 + b) * 256 + c) * 256 + d, refl)

pub u16_at-ok : (s : Bytes) (lo : ℕ) → lo + 2 ≤ length s → (v : ℕ) × (u16_at s lo ≡ ok v)
unfolding u16_at
u16_at-ok s lo h =
    let (t, e, l) = slice-ok s lo (lo + 2) (omega arith) h in
    let (v, f) = u16-ok t (omega arith) in (v, rw e f)

pub u32_at-ok : (s : Bytes) (lo : ℕ) → lo + 4 ≤ length s → (v : ℕ) × (u32_at s lo ≡ ok v)
unfolding u32_at
u32_at-ok s lo h =
    let (t, e, l) = slice-ok s lo (lo + 4) (omega arith) h in
    let (v, f) = u32-ok t (omega arith) in (v, rw e f)

pub byte_at-ok : (s : Bytes) (i : ℕ) → i < length s → (v : ℕ) × (byte_at s i ≡ ok v)
unfolding byte_at
byte_at-ok [] i h = absurd (omega arith)
byte_at-ok (c ∷ s) zero h = (c, refl)
byte_at-ok (c ∷ s) (suc i) h = byte_at-ok s i (omega arith)

-- A slice in the middle of three pieces.
pub drop-append_middle :
    (xs ys zs : Bytes) (n : ℕ) → n ≡ length xs → take (length ys) (drop n (xs ++ (ys ++ zs))) ≡ ys
drop-append_middle xs ys zs n e = rw (e, drop-append) (take-append ys zs)

pub slice-append_middle :
    (xs ys zs : Bytes) (lo hi : ℕ)
    → lo ≡ length xs
    → hi ≡ lo + length ys
    → slice (xs ++ (ys ++ zs)) lo hi ≡ ok ys
slice-append_middle xs ys zs lo hi e f =
    slice_lem _ lo hi (omega arith)
      (omega (arith, length-append xs (ys ++ zs), length-append ys zs))
    ∙ ap ok (
        ap (λ (n : ℕ). take n (drop lo (xs ++ (ys ++ zs)))) (omega arith)
        ∙ drop-append_middle xs ys zs lo e)
