-- ===== src/Store/Reopen.antt =====
-- What a restart of the program finds after a save.
use natcat.Auth.{Crypto}
use natcat.Base.{
  All, List, Option-cases, [], ap, arith, inl, inr, map, refl, some, sym, ◌++◌, ◌∙◌, ◌∷◌, ◌≡◌,
}
use natcat.Config.{default_config, normalize_config, trim_config}
use natcat.Result.{ok}
use natcat.Store.{Io, Outside, Store, refresh_admin, save, write_store}
use natcat.Store.Disk.{IsJson, erase, erase_config}
use natcat.Store.Items.{save-items}
use natcat.Store.Open.{Random, content, normalize_db, open_store}
use natcat.Text.{Text}
use natcat.Types.{Database, InstanceConfig, Time}

normalize_config-erase_config :
    (c : InstanceConfig) → normalize_config (erase_config c) ≡ erase_config (normalize_config c)
unfolding normalize_config default_config trim_config erase_config
normalize_config-erase_config c = refl

normalize-erase :
    (items : List InstanceConfig)
    → All (λ (c : InstanceConfig). normalize_config c ≡ c) items
    → map normalize_config (map erase_config items) ≡ map erase_config items
normalize-erase [] a = refl
normalize-erase (c ∷ items) a =
    λ i. (normalize_config-erase_config c ∙ ap erase_config (a.0)) i ∷ normalize-erase items (a.1) i

save-ok :
    (out : Outside) (io : Io) (s : Store)
    → (save out io s).1 ≡ ok tt
    → (raw : Text) × (out.marshal (refresh_admin out io s).db ≡ some raw)
      × ((save out io s).0.file ≡ some (raw ++ b'\n' ∷ []))
      × ((save out io s).0.db ≡ (refresh_admin out io s).db)
unfolding save write_store
save-ok out io s h = elim (Option-cases (out.marshal (refresh_admin out io s).db)) [
  | inl none_made ↦ absurd (ground arith)
  | inr (raw, made) ↦ (raw, made, ground arith, ground arith)
]

-- After a save that returned no error, a start of the program that reads the file opens a store
-- with the same credential and the same instances, without the server lists that were resolved
-- into them and are not kept: given that JSON reads back this database and that the configurations
-- were normal.
pub open_store-save :
    (out : Outside) (crypto : Crypto) (io later : Io) (random : Random) (now : Time)
    (user password : Text) (s : Store)
    → IsJson out (refresh_admin out io s).db
    → All (λ (c : InstanceConfig). normalize_config c ≡ c) s.db.items
    → (save out io s).1 ≡ ok tt
    → (raw : Text) × (reopened : Store) × ((save out io s).0.file ≡ some raw)
      × (open_store out crypto (content raw) later random now user password ≡ ok (reopened, []))
      × (reopened.db.items ≡ map erase_config s.db.items)
      × (reopened.db.admin ≡ (save out io s).0.db.admin)
unfolding open_store normalize_db erase
open_store-save out crypto io later random now user password s json normal h =
    let (raw, made, file, db) = save-ok out io s h in
    let kept = (refresh_admin out io s).db in
    let items = save-items out io s in
    (
      raw ++ b'\n' ∷ [],
      record { db = normalize_db (erase kept); file = some (raw ++ b'\n' ∷ []) },
      file,
      ground (arith, json raw made),
      ap (λ (d : Database). map normalize_config (map erase_config d.items)) (sym db)
          ∙ ap (λ (l : List InstanceConfig). map normalize_config (map erase_config l)) items
          ∙ normalize-erase s.db.items normal,
      ap (λ (d : Database). d.admin) (sym db),
    )
