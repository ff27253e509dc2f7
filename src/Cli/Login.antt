-- ===== src/Cli/Login.antt =====
-- What the password command leaves: cmd/natcat/main.go, `changePassword`, with
-- internal/core/store.go, `ChangeAdminPassword`.
use natcat.Auth.{Bytes, Crypto, check_password, salt_size}
use natcat.Auth.Check.{IsCrypto, check_password-new_admin_credential}
use natcat.Base.{
  Bool-cases, List, Option, arith, false, if◌then◌else◌, inl, inr, is_nil, length, refl, some, true,
  ◌<◌, ◌≡◌, ◌≤◌,
}
use natcat.Cli.{Fatal, PasswordFlags, change_password, given_password}
use natcat.Result.{Result, Result-cases, ok}
use natcat.Store.{
  Io, Outside, Store, has_credential, load, newer_admin, read_file, refresh_admin, save,
  write_store,
}
use natcat.Store.Open.{ReadResult, change_admin_password, content, dated_credential, normalize_db}
use natcat.Text.{Text}
use natcat.Types.{AdminCredential, Database, Time}

saved-admin :
    (out : Outside) (io : Io) (s : Store)
    → (save out io s).0.db.admin ≡ (refresh_admin out io s).db.admin
unfolding save write_store
saved-admin out io s = ground arith

module _ (out : Outside) (crypto : Crypto) (io : Io) (salt : Option Bytes) (now : Time) (raw : Text)
    (db : Database) (username password : Text) where
  abbrev pub who : Text
  who = if is_nil username then db.admin.username else username

  -- The store that the command saves, with a credential.
  abbrev pub store_with : AdminCredential → Store
  store_with cred = record { db = normalize_db (record db { admin = cred }); file = some raw }

  store_with-refreshed :
      (cred : AdminCredential)
      → out.unmarshal raw ≡ some db
      → (refresh_admin out io (store_with cred)).db.admin
        ≡ (if io.readable then newer_admin cred db.admin else cred)
  unfolding refresh_admin load read_file normalize_db
  store_with-refreshed cred decoded = elim (Bool-cases io.readable) [
    | inl can ↦ rw (can, decoded) refl
    | inr cannot ↦ rw (cannot) refl
  ]

  dated-made :
      (cred : AdminCredential) (s : Store)
      → out.unmarshal raw ≡ some db
      → dated_credential out crypto now who password salt ≡ ok cred
      → change_admin_password out crypto (content raw) io salt now username password ≡ ok s
      → s.db.admin ≡ (if io.readable then newer_admin cred db.admin else cred)
  unfolding change_admin_password
  dated-made cred s decoded dated changed = elim (Result-cases (save out io (store_with cred)).1) [
    | inl (u, saved) ↦ ground (
      arith,
      decoded,
      dated,
      changed,
      saved,
      saved-admin out io (store_with cred),
      store_with-refreshed cred decoded,
    )
    | inr (e, failed_so) ↦ ground (arith, decoded, dated, changed, failed_so)
  ]

module _ (out : Outside) (crypto : Crypto) (lawful : IsCrypto crypto) (io : Io) (bytes : Bytes)
    (now : Time) (parse : List Text → Option PasswordFlags) (read : Text → ReadResult)
    (args : List Text) (flags : PasswordFlags) (raw : Text) (db : Database) where
  abbrev pub ran : Result Fatal (Store × Text)
  ran = change_password out crypto parse read io (some bytes) now args

  -- The file at the path is the database, and the name, the password and the salt can be used.
  abbrev pub IsUsable : Type 0
  IsUsable =
      (parse args ≡ some flags)
      × (read flags.data_path ≡ content raw)
      × (out.unmarshal raw ≡ some db)
      × (is_nil (given_password flags) ≡ false)
      × (is_nil (if is_nil flags.username then db.admin.username else flags.username) ≡ false)
      × (length bytes ≡ salt_size)

  ran-changed :
      (s : Store) (name : Text)
      → IsUsable
      → ran ≡ ok (s, name)
      → change_admin_password out crypto
          (content raw)
          io
          (some bytes)
          now
          flags.username
          (given_password flags)
        ≡ ok s
  unfolding change_password
  ran-changed s name usable h =
      elim (Result-cases (
        change_admin_password out crypto (content raw) io (some bytes) now flags.username
          (given_password flags))) [
            | inl (s', left) ↦ ground (arith, usable.0, usable.1, usable.3, h, left)
            | inr (e, failed_so) ↦ ground (arith, usable.0, usable.1, usable.3, h, failed_so)
          ]

  -- A password command that ends without an error, for a database that can be decoded and whose
  -- last change of the password is not in the future, leaves a credential that lets the name and the
  -- new password in. If the last change is in the future, as on a clock that was set back, and the
  -- file can be read again, then the command leaves the old credential, without an error.
  pub change_password-LetsIn :
      (s : Store) (name : Text)
      → IsUsable
      → ran ≡ ok (s, name)
      → let user = if is_nil flags.username then db.admin.username else flags.username in
        (0 < now
          → db.admin.last_password ≤ now
          → check_password crypto s.db.admin user (given_password flags) ≡ true)
        × (io.readable ≡ true
            → has_credential db.admin ≡ true
            → now < db.admin.last_password
            → s.db.admin ≡ db.admin)
  unfolding dated_credential newer_admin check_password
  change_password-LetsIn s name usable h =
      let user = if is_nil flags.username then db.admin.username else flags.username in
      let (cred, made, lets_in) =
        check_password-new_admin_credential crypto lawful user (given_password flags) bytes
          (usable.4) (usable.3) (usable.5) in
      let dated = record cred { last_password = now } in
      let left =
        dated-made out crypto io (some bytes) now raw db flags.username (given_password flags) dated
          s (usable.2) (ground (arith, made)) (ran-changed s name usable h) in
      (
        (λ later newest. ground (arith, left, later, newest, lets_in)),
        λ can full newer. ground (arith, left, can, full, newer),
      )
