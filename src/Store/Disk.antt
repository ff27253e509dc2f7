-- ===== src/Store/Disk.antt =====
-- What is on the disk after a save, and what a restart finds there.
use natcat.Base.{Option-cases, [], arith, inl, inr, map, some, true, ◌++◌, ◌<◌, ◌∷◌, ◌≡◌, ◌≢◌}
use natcat.Result.{ok}
use natcat.Store.{
  Io, Outside, Store, has_credential, load, newer_admin, read_file, refresh_admin, save,
  write_store,
}
use natcat.Text.{Text}
use natcat.Types.{Database, InstanceConfig}

-- The fields of a configuration that the encoder does not see are empty when it is read back.
unfoldable pub erase_config : InstanceConfig → InstanceConfig
erase_config c = record c { resolved_stun_servers = []; resolved_keep_alive_servers = [] }

unfoldable pub erase : Database → Database
erase db = record db { items = map erase_config db.items }

-- What JSON makes of a database is read back, with the line end behind it.
abbrev pub IsJson : Outside → Database → Type 0
IsJson out db =
    (raw : Text) → out.marshal db ≡ some raw → out.unmarshal (raw ++ b'\n' ∷ []) ≡ some (erase db)

abbrev pub all_well : Io
all_well = record { readable = true; dir_made = true; written = true; renamed = true }

refresh_admin-file : (out : Outside) (io : Io) (s : Store) → (refresh_admin out io s).file ≡ s.file
unfolding refresh_admin
refresh_admin-file out io s = ground arith

-- Given that JSON reads back what it makes of this database: a save that returns no error has put
-- the whole database on the disk, where it can be read again, and one that fails has left the file
-- as it was.
pub load-save :
    (out : Outside) (io : Io) (s : Store)
    → IsJson out (refresh_admin out io s).db
    → ((save out io s).1 ≡ ok tt
        → load out all_well (save out io s).0.file ≡ some (erase (save out io s).0.db))
      × ((save out io s).1 ≢ ok tt → (save out io s).0.file ≡ s.file)
unfolding save write_store load read_file
load-save out io s json = elim (Option-cases (out.marshal (refresh_admin out io s).db)) [
  | inl none_made ↦ ((λ saved. ground arith), λ failed. ground (arith, refresh_admin-file out io s))
  | inr (raw, made) ↦ (
    (λ saved. ground (arith, json raw made)),
    λ failed. ground (arith, refresh_admin-file out io s),
  )
]

-- The credential that another program wrote to the file since is not lost by a save, whether or not
-- it works: if the file can be read and its credential is complete and newer than the one in
-- memory, the store takes it.
pub save-admin :
    (out : Outside) (io : Io) (s : Store) (disk : Database)
    → load out io s.file ≡ some disk
    → has_credential disk.admin ≡ true
    → s.db.admin.last_password < disk.admin.last_password
    → (save out io s).0.db.admin ≡ disk.admin
unfolding save write_store refresh_admin newer_admin
save-admin out io s disk h full newer = ground (arith, h)
