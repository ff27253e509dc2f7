-- ===== src/Store.antt =====
-- internal/core/store.go: the store, a database in memory that is kept in a JSON file.
-- The encoder and decoder of JSON and `net.ParseIP` are the fields of `Outside`. What the calls of
-- the system came to while an operation ran is its argument `io`. The file is its text, none where
-- it does not exist; the temporary file that is renamed to it is read by nobody.
pub mod Open
pub mod Instances
pub mod Saved
pub mod Groups
pub mod Items
pub mod Sound
pub mod Laws
pub mod Disk
pub mod Reopen
use natcat.Auth.{AuthError}
use natcat.Base.{
  Bool, Option, [], if◌then◌else◌, is_nil, ltb, none, not, some, ◌&&◌, ◌++◌, ◌||◌, ◌∷◌,
}
use natcat.Config.{ConfigError, or_positive}
use natcat.Int.{pos, ℤ}
use natcat.Net.{Ip}
use natcat.Result.{Result, err, ok, ◌>>◌}
use natcat.Servers.{ServersError}
use natcat.Text.{Text}
use natcat.Types.{AdminCredential, Database, is_zero}

pub record Outside : Type 0 where
  pub marshal : Database → Option Text
  pub unmarshal : Text → Option Database
  pub parse_ip : Text → Option Ip

-- Whether reading the file, making its directory (where the path has one), writing the temporary
-- file and renaming it worked.
pub record Io : Type 0 where
  pub readable : Bool
  pub dir_made : Bool
  pub written : Bool
  pub renamed : Bool

pub record Store : Type 0 where
  pub db : Database
  pub file : Option Text

pub data StoreError : Type 0 where
  io_failed not_json not_encoded not_exist already_exists : StoreError
  invalid : ConfigError → StoreError
  bad_servers : Text → ServersError → StoreError
  bad_admin : AuthError → StoreError

-- An operation: the store after it, and its value or error.
abbrev pub Answer : Type 0 → Type 0
Answer A = Store × Result StoreError A

-- `os.ReadFile`.
unfoldable pub read_file : Io → Option Text → Option Text
read_file io file = if io.readable then file else none

abbrev pub has_credential : AdminCredential → Bool
has_credential a = not (is_nil a.username) && not (is_nil a.salt) && not (is_nil a.hash)

-- The credential to go on with: the one on the disk if it is complete and newer.
unfoldable pub newer_admin : AdminCredential → AdminCredential → AdminCredential
newer_admin mine disk =
    if has_credential disk
      && (is_zero mine.last_password || ltb mine.last_password disk.last_password)
    then disk
    else mine

module _ (out : Outside) where
  -- The database in the file, if it can be read and decoded.
  unfoldable pub load : Io → Option Text → Option Database
  unfolding read_file
  load io file = elim (read_file io file) [ none ↦ none | some raw ↦ out.unmarshal raw ]

  -- `refreshAdminFromDiskLocked`.
  unfoldable pub refresh_admin : Io → Store → Store
  unfolding load newer_admin
  refresh_admin io s = elim (load io s.file) [
    | none ↦ s
    | some disk ↦ record s { db = record (s.db) { admin = newer_admin s.db.admin disk.admin } }
  ]

  -- `saveLocked` after the credential was read again: the encoding, the temporary file, its name.
  unfoldable pub write_store : Io → Store → Answer (Unit {0})
  write_store io s = if not io.dir_made then (s, err io_failed) else elim (out.marshal s.db) [
    | none ↦ (s, err not_encoded)
    | some raw ↦
        if io.written && io.renamed
        then (record s { file = some (raw ++ b'\n' ∷ []) }, ok tt)
        else (s, err io_failed)
  ]

  -- `saveLocked`.
  unfoldable pub save : Io → Store → Answer (Unit {0})
  unfolding write_store
  save io s = write_store io (refresh_admin io s)

  -- `if err := s.saveLocked(); err != nil { return err }` and then a value.
  abbrev pub save_then : {A : Type 0} → Io → Store → (Store → A) → Answer A
  save_then io s value = let saved = save io s in (saved.0, saved.1 >> ok (value saved.0))

  -- `Admin`.
  unfoldable pub admin : Io → Store → Store × AdminCredential
  unfolding refresh_admin
  admin io s = let s' = refresh_admin io s in (s', s'.db.admin)

-- `SessionHours`.
unfoldable pub session_hours : Store → ℤ
session_hours s = or_positive s.db.options.session_hours (pos 12)
