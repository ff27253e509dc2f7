-- ===== src/Notify/Template.antt =====
-- Scripts written as templates: what is expanded, and what is left as it stands.
use natcat.Base.{
  All, Bool-cases, List, Option-cases, [], ap, arith, false, inl, inr, length, length-append, refl,
  some, suc, zero, ℕ, ◌++◌, ◌==◌, ◌∷◌, ◌≡◌, ◌≤◌,
}
use natcat.Dict.{get}
use natcat.Notify.{braced, cut_brace, expand_from, expand_notify_script, plain, span_name, variable}
use natcat.Text.{Text}

-- A character that stands for itself, or a variable in braces with its value.
pub data Piece : Type 0 where
  literal : ℕ → Piece
  braces : Text → Text → Piece

unfoldable pub render : List Piece → Text
render [] = []
render (literal c ∷ pieces) = c ∷ render pieces
render (braces name value ∷ pieces) = b'$' ∷ b'{' ∷ (name ++ b'}' ∷ render pieces)

-- The values in their places.
unfoldable pub fill : List Piece → Text
fill [] = []
fill (literal c ∷ pieces) = c ∷ fill pieces
fill (braces name value ∷ pieces) = value ++ fill pieces

-- A literal is not `$`; a name has no closing brace, and its value is the one of the variable.
abbrev pub IsPiece : List (Text × Text) → Piece → Type 0
IsPiece vars (literal c) = (c == b'$') ≡ false
IsPiece vars (braces name value) =
    All (λ (c : ℕ). (c == b'}') ≡ false) name × (get name vars ≡ some value)

cut_brace-append :
    (name rest : Text)
    → All (λ (c : ℕ). (c == b'}') ≡ false) name
    → cut_brace (name ++ b'}' ∷ rest) ≡ some (name, rest)
unfolding cut_brace
cut_brace-append [] rest a = refl
cut_brace-append (c ∷ name) rest a = rw (a.0, cut_brace-append name rest (a.1)) refl

braced-append :
    (vars : List (Text × Text)) (name value rest : Text)
    → All (λ (c : ℕ). (c == b'}') ≡ false) name
    → get name vars ≡ some value
    → braced vars (b'{' ∷ (name ++ b'}' ∷ rest)) ≡ some (value, rest)
unfolding braced
braced-append vars name value rest a known = ground (arith, cut_brace-append name rest a, known)

variable-braces :
    (vars : List (Text × Text)) (name value rest : Text)
    → All (λ (c : ℕ). (c == b'}') ≡ false) name
    → get name vars ≡ some value
    → variable vars (b'{' ∷ (name ++ b'}' ∷ rest)) ≡ (value, rest)
unfolding variable
variable-braces vars name value rest a known =
    ground (arith, braced-append vars name value rest a known)

expand_from-render :
    (vars : List (Text × Text)) (pieces : List Piece) (fuel : ℕ)
    → All (IsPiece vars) pieces
    → length (render pieces) ≤ fuel
    → expand_from vars fuel (render pieces) ≡ fill pieces
unfolding expand_from render fill
expand_from-render vars [] fuel a room = refl
expand_from-render vars (literal c ∷ pieces) zero a room = absurd (omega arith)
expand_from-render vars (literal c ∷ pieces) (suc fuel) a room =
    rw (a.0) (ap (◌∷◌ c) (expand_from-render vars pieces fuel (a.1) (omega arith)))
expand_from-render vars (braces name value ∷ pieces) zero a room = absurd (omega arith)
expand_from-render vars (braces name value ∷ pieces) (suc fuel) a room =
    rw (variable-braces vars name value (render pieces) (a.0.0) (a.0.1)) (
      ap (◌++◌ value) (
        expand_from-render vars pieces fuel (a.1)
          (omega (arith, length-append name (b'}' ∷ render pieces)))))

-- A script of characters other than `$` and of known variables in braces, whose names have no
-- closing brace, becomes the characters with the values in their places; a value is not expanded
-- again, even if it holds a `$`.
pub expand_notify_script-render :
    (vars : List (Text × Text)) (pieces : List Piece)
    → All (IsPiece vars) pieces
    → expand_notify_script (render pieces) vars ≡ fill pieces
unfolding expand_notify_script
expand_notify_script-render vars pieces a =
    expand_from-render vars pieces (length (render pieces)) a (omega arith)

cut_brace-length :
    (s name after : Text) → cut_brace s ≡ some (name, after) → length after ≤ length s
unfolding cut_brace
cut_brace-length [] name after h = cc
cut_brace-length (c ∷ s) name after h = elim (Option-cases (cut_brace s)) [
  | inl e ↦ ground (arith, e)
  | inr ((n, left), e) ↦ ground (arith, e, cut_brace-length s n left e)
]

span_name-length : (s : Text) → length (span_name s).1 ≤ length s
unfolding span_name
span_name-length [] = omega arith
span_name-length (c ∷ s) = ground (arith, span_name-length s)

plain-length : (vars : List (Text × Text)) (s : Text) → length (plain vars s).1 ≤ length s
unfolding plain
plain-length vars [] = omega arith
plain-length vars (c ∷ s) = ground (arith, span_name-length s)

braced-length :
    (vars : List (Text × Text)) (s value after : Text)
    → braced vars s ≡ some (value, after)
    → length after ≤ length s
unfolding braced
braced-length vars [] value after h = cc
braced-length vars (c ∷ s) value after h = elim (Option-cases (cut_brace s)) [
  | inl e ↦ ground (arith, e)
  | inr ((n, left), e) ↦ ground (arith, e, cut_brace-length s n left e)
]

variable-length : (vars : List (Text × Text)) (s : Text) → length (variable vars s).1 ≤ length s
unfolding variable
variable-length vars s = elim (Option-cases (braced vars s)) [
  | inl e ↦ ground (arith, e, plain-length vars s)
  | inr ((value, after), e) ↦ ground (arith, e, braced-length vars s value after e)
]

-- Fuel beyond the length of the script changes nothing.
pub expand_from-fuel :
    (vars : List (Text × Text)) (n : ℕ) (s : Text)
    → length s ≤ n
    → expand_from vars (suc n) s ≡ expand_from vars n s
unfolding expand_from
expand_from-fuel vars n [] room = refl
expand_from-fuel vars zero (c ∷ s) room = absurd (omega arith)
expand_from-fuel vars (suc n) (c ∷ s) room = elim (Bool-cases (c == b'$')) [
  | inl e ↦ rw e (
      ap (◌++◌ (variable vars s).0)
        (expand_from-fuel vars n (variable vars s).1 (omega (arith, variable-length vars s))))
  | inr e ↦ rw e (ap (◌∷◌ c) (expand_from-fuel vars n s (omega arith)))
]
