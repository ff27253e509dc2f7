-- ===== src/Notify.antt =====
-- internal/core/runner.go, `expandNotifyScript`: the variables of a notify script replaced by their
-- values. The tests are on ASCII bytes, which are code points of their own in UTF-8. The loop runs
-- on the length of the script, since each round takes a byte or more.
pub mod Template
pub mod Command
pub mod Run
pub mod Tested
use natcat.Base.{
  Bool, List, Option, [], if◌then◌else◌, leb, length, none, not, some, suc, zero, ℕ, ◌&&◌, ◌++◌,
  ◌==◌, ◌||◌, ◌∷◌,
}
use natcat.Dict.{get}
use natcat.Text.{Text}

unfoldable pub is_shell_var_start : ℕ → Bool
is_shell_var_start c = c == b'_' || (leb b'A' c && leb c b'Z') || (leb b'a' c && leb c b'z')

unfoldable pub is_shell_var_char : ℕ → Bool
unfolding is_shell_var_start
is_shell_var_char c = is_shell_var_start c || (leb b'0' c && leb c b'9')

-- The name in front of the closing brace and what follows it: `strings.IndexByte`.
unfoldable pub cut_brace : Text → Option (Text × Text)
cut_brace [] = none
cut_brace (c ∷ rest) =
    if c == b'}'
    then some ([], rest)
    else elim (cut_brace rest) [ none ↦ none | some (name, after) ↦ some (c ∷ name, after) ]

-- The characters of a name, and what follows them.
unfoldable pub span_name : Text → Text × Text
unfolding is_shell_var_char
span_name [] = ([], [])
span_name (c ∷ rest) =
    let more = span_name rest in
    if is_shell_var_char c then (c ∷ more.0, more.1) else ([], c ∷ rest)

-- A known variable in braces behind `$`: its value and what follows it.
unfoldable pub braced : List (Text × Text) → Text → Option (Text × Text)
unfolding cut_brace
braced vars [] = none
braced vars (c ∷ more) =
    if c == b'{'
    then elim (cut_brace more) [
      | none ↦ none
      | some (name, after) ↦ elim (get name vars) [ none ↦ none | some value ↦ some (value, after) ]
    ]
    else none

-- A variable without braces behind `$`: what is written for it, and what follows it.
unfoldable pub plain : List (Text × Text) → Text → Text × Text
unfolding span_name
plain vars [] = (b'$' ∷ [], [])
plain vars (c ∷ rest) =
    if not (is_shell_var_start c)
    then (b'$' ∷ [], c ∷ rest)
    else let more = span_name rest in
      elim (get (c ∷ more.0) vars) [
        | none ↦ (b'$' ∷ c ∷ more.0, more.1)
        | some value ↦ (value, more.1)
      ]

-- A round at `$`: what is written, and what is left of the script.
unfoldable pub variable : List (Text × Text) → Text → Text × Text
unfolding braced plain
variable vars rest = elim (braced vars rest) [ none ↦ plain vars rest | some found ↦ found ]

unfoldable pub expand_from : List (Text × Text) → ℕ → Text → Text
unfolding variable
expand_from vars fuel [] = []
expand_from vars zero (c ∷ rest) = []
expand_from vars (suc fuel) (c ∷ rest) =
    if c == b'$'
    then (let (out, left) = variable vars rest in out ++ expand_from vars fuel left)
    else c ∷ expand_from vars fuel rest

unfoldable pub expand_notify_script : Text → List (Text × Text) → Text
unfolding expand_from
expand_notify_script script vars = expand_from vars (length script) script
