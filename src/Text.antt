-- ===== src/Text.antt =====
-- The functions of Go's `strings` and `strconv` packages that the program uses.
-- A text is the list of its code points. Every single character that the source tests for is
-- ASCII. Case is folded for the letters A to Z alone, as in the host names, protocols and error
-- texts that the program folds; Go folds the other letters of Unicode as well.
pub mod Trim
use Prim.Native.Char.{code}
use Prim.Native.String.{String}
use natcat.Base.{
  Bool, List, Option, [], arith, false, if◌then◌else◌, is_nil, leb, ltb, map, none, some, suc, true,
  zero, ℕ, ◌%◌, ◌&&◌, ◌*◌, ◌++◌, ◌+◌, ◌-◌, ◌/◌, ◌==◌, ◌^◌, ◌||◌, ◌↔◌, ◌∷◌, ◌≡◌,
}
use natcat.Int.{neg, negsuc, pos, ℤ}

abbrev pub Text : Type 0
Text = List ℕ

abbrev pub codes : String → Text
codes String.[] = []
codes (String.◌∷◌ c s) = code c ∷ codes s

-- `==` on strings.
unfoldable pub text_eq : Text → Text → Bool
text_eq [] [] = true
text_eq (a ∷ s) (b ∷ t) = a == b && text_eq s t
text_eq _ _ = false

pub text_eq_iff : (s t : Text) → (text_eq s t ≡ true) ↔ (s ≡ t)
unfolding text_eq
text_eq_iff (a ∷ s) (b ∷ t) = ground (arith, text_eq_iff s t)
text_eq_iff _ _ = ground arith

-- `unicode.IsSpace`.
unfoldable pub is_space : ℕ → Bool
is_space c =
    leb 9 c && leb c 13
    || c == 32
    || c == 0x85
    || c == 0xa0
    || c == 0x1680
    || leb 0x2000 c && leb c 0x200a
    || c == 0x2028
    || c == 0x2029
    || c == 0x202f
    || c == 0x205f
    || c == 0x3000

unfoldable pub drop_while : (ℕ → Bool) → Text → Text
drop_while p [] = []
drop_while p (c ∷ s) = if p c then drop_while p s else c ∷ s

unfoldable pub trim_right : (ℕ → Bool) → Text → Text
trim_right p [] = []
trim_right p (c ∷ s) = let r = trim_right p s in if is_nil r && p c then [] else c ∷ r

-- `strings.TrimFunc`.
unfoldable pub trim : (ℕ → Bool) → Text → Text
unfolding drop_while trim_right
trim p s = trim_right p (drop_while p s)

-- `strings.TrimSpace`.
unfoldable pub trim_space : Text → Text
unfolding trim is_space
trim_space = trim is_space

unfoldable pub lower : ℕ → ℕ
lower c = if leb b'A' c && leb c b'Z' then c + 32 else c

-- `strings.ToLower`.
unfoldable pub to_lower : Text → Text
unfolding lower
to_lower = map lower

-- `strings.EqualFold`.
unfoldable pub equal_fold : Text → Text → Bool
unfolding to_lower text_eq
equal_fold s t = text_eq (to_lower s) (to_lower t)

-- `strings.CutPrefix`.
unfoldable pub cut_prefix : Text → Text → Option Text
cut_prefix s [] = some s
cut_prefix [] (b ∷ t) = none
cut_prefix (a ∷ s) (b ∷ t) = let rest = cut_prefix s t in if a == b then rest else none

-- `strings.HasPrefix`.
unfoldable pub has_prefix : Text → Text → Bool
unfolding cut_prefix
has_prefix s t = elim (cut_prefix s t) [ none ↦ false | some _ ↦ true ]

-- `strings.TrimPrefix`.
unfoldable pub trim_prefix : Text → Text → Text
unfolding cut_prefix
trim_prefix s t = elim (cut_prefix s t) [ none ↦ s | some rest ↦ rest ]

-- `strings.Contains`.
unfoldable pub contains : Text → Text → Bool
unfolding has_prefix
contains [] t = has_prefix [] t
contains (c ∷ s) t = has_prefix (c ∷ s) t || contains s t

abbrev pub cons_head : ℕ → List Text → List Text
cons_head c [] = (c ∷ []) ∷ []
cons_head c (s ∷ rest) = (c ∷ s) ∷ rest

-- `strings.Split` at one character.
unfoldable pub split : Text → ℕ → List Text
split [] sep = [] ∷ []
split (c ∷ s) sep = let rest = split s sep in if c == sep then [] ∷ rest else cons_head c rest

abbrev pub is_digit : ℕ → Bool
is_digit c = leb b'0' c && leb c b'9'

-- The digits after the sign; `none` at another character.
unfoldable pub digits : ℕ → Text → Option ℕ
digits acc [] = some acc
digits acc (c ∷ s) =
    let rest = digits (acc * 10 + (c - b'0')) s in if is_digit c then rest else none

abbrev pub in_range : Option ℕ → (ℕ → Bool) → (ℕ → ℤ) → Option ℤ
in_range none fits sign = none
in_range (some n) fits sign = if fits n then some (sign n) else none

unfoldable pub unsigned : Text → (ℕ → Bool) → (ℕ → ℤ) → Option ℤ
unfolding digits
unsigned [] fits sign = none
unsigned (c ∷ s) fits sign = in_range (digits 0 (c ∷ s)) fits sign

-- `strconv.Atoi` on 64 bits: an optional sign, decimal digits, and the range of `int64`.
unfoldable pub atoi : Text → Option ℤ
unfolding unsigned
atoi [] = none
atoi (c ∷ s) =
    if c == b'-'
    then unsigned s (λ n. leb n (2 ^ 63)) neg
    else if c == b'+'
    then unsigned s (λ n. ltb n (2 ^ 63)) pos
    else unsigned (c ∷ s) (λ n. ltb n (2 ^ 63)) pos

-- The digits of a number below `10 ^ fuel`, in front of `rest`.
unfoldable pub decimal : ℕ → ℕ → Text → Text
decimal zero n rest = rest
decimal (suc fuel) n rest =
    let d = (b'0' + n % 10) ∷ rest in
    let more = decimal fuel (n / 10) d in if ltb n 10 then d else more

-- `strconv.Itoa`: twenty digits hold every 64-bit value.
unfoldable pub itoa : ℤ → Text
unfolding decimal
itoa (pos n) = decimal 20 n []
itoa (negsuc n) = b'-' ∷ decimal 20 (n + 1) []

-- `net.JoinHostPort`.
unfoldable pub join_host_port : Text → Text → Text
unfolding contains
join_host_port host port =
    if contains host (b':' ∷ []) then b'[' ∷ (host ++ codes "]:" ++ port) else host ++ (b':' ∷ port)

unfoldable pub hex_digit : ℕ → ℕ
hex_digit d = if ltb d 10 then d + 48 else d + 87

-- `hex.EncodeToString`.
unfoldable pub hex : List ℕ → Text
unfolding hex_digit
hex [] = []
hex (b ∷ bytes) = hex_digit (b / 16) ∷ hex_digit (b % 16) ∷ hex bytes
