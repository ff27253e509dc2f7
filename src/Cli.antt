-- ===== src/Cli.antt =====
-- cmd/natcat/main.go: the password command and the defaults of the flags. `flag`, the environment
-- and `filepath.Join` are parameters; a flag set that does not parse ends the program.
pub mod Login
use natcat.Auth.{Bytes, Crypto}
use natcat.Base.{Bool, List, Option, [], if◌then◌else◌, is_nil, none, not, some, ◌||◌, ◌∷◌}
use natcat.Result.{Result, err, fail_if, ok, or_fail, ◌>>=◌, ◌>>◌}
use natcat.Store.{Io, Outside, Store, StoreError}
use natcat.Store.Open.{ReadResult, change_admin_password}
use natcat.Text.{Text, codes, text_eq}
use natcat.Types.{Time}

unfoldable pub is_password_command : Text → Bool
unfolding text_eq
is_password_command command =
    text_eq command (codes "password")
    || text_eq command (codes "passwd")
    || text_eq command (codes "change-password")

-- `os.Getenv`, which is empty for a variable that is not set.
abbrev pub Getenv : Type 0
Getenv = Text → Text

unfoldable pub env_default : Getenv → Text → Text → Text
env_default getenv key fallback = if is_nil (getenv key) then fallback else getenv key

abbrev pub or_empty : Option Text → Text
or_empty none = []
or_empty (some dir) = dir

-- `defaultDataPath`; `config_dir` is the answer of `os.UserConfigDir`, none where it fails.
unfoldable pub default_data_path : Getenv → Option Text → (List Text → Text) → Text
default_data_path getenv config_dir join =
    let set = getenv (codes "NATCAT_DATA") in
    let dir = or_empty config_dir in
    if not (is_nil set)
    then set
    else if is_nil dir
    then codes "natcat.json"
    else join (dir ∷ codes "natcat" ∷ codes "data.json" ∷ [])

-- The flags of the password command, and the values behind them.
pub record PasswordFlags : Type 0 where
  pub data_path : Text
  pub username : Text
  pub password : Text
  pub args : List Text

-- The flag counts before the value behind the flags.
unfoldable pub given_password : PasswordFlags → Text
given_password flags = elim flags.args [
  | [] ↦ flags.password
  | arg ∷ args ↦ if is_nil flags.password then arg else flags.password
]

-- The ends of the program by `log.Fatal`.
pub data Fatal : Type 0 where
  no_flags no_password : Fatal
  not_changed : StoreError → Fatal

abbrev pub or_not_changed : Result StoreError Store → Result Fatal Store
or_not_changed (ok s) = ok s
or_not_changed (err e) = err (not_changed e)

-- What is printed in place of a name that is not given.
unfoldable pub shown_name : PasswordFlags → Text
shown_name flags = if is_nil flags.username then codes "current admin" else flags.username

-- `changePassword`: the store behind it, and the name that is printed; `parse` is the flag set, and
-- `read` gives the file at a path.
unfoldable pub change_password :
    Outside
    → Crypto
    → (List Text → Option PasswordFlags)
    → (Text → ReadResult)
    → Io
    → Option Bytes
    → Time
    → List Text
    → Result Fatal (Store × Text)
unfolding given_password shown_name change_admin_password
change_password out crypto parse read io salt now args = do
  flags ← or_fail (parse args) no_flags
  fail_if (is_nil (given_password flags)) no_password
  changed ← or_not_changed (
      change_admin_password out crypto (read flags.data_path) io salt now flags.username
        (given_password flags))
  ok (changed, shown_name flags)
