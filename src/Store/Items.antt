-- ===== src/Store/Items.antt =====
-- The list of instances by their ids, and what a save leaves as it was.
use natcat.Base.{
  List, [], ap, arith, if◌then◌else◌, is_some, none, refl, some, ◌&&◌, ◌++◌, ◌∷◌, ◌≡◌,
}
use natcat.Config.{default_config, normalize_config, trim_config}
use natcat.Result.{is_ok}
use natcat.Store.{Io, Outside, Store, refresh_admin, save, write_store}
use natcat.Store.Instances.{
  add_instance, added_config, delete_instance, find_instance, put_items, remove_instance, removed,
  replace_instance, update_instance, updated_config, validate_in,
}
use natcat.Text.{Text, text_eq, text_eq_iff}
use natcat.Types.{Database, InstanceConfig}

-- No two instances have one id.
abbrev pub IsUnique : List InstanceConfig → Type 0
IsUnique [] = Unit
IsUnique (c ∷ items) = (find_instance c.id items ≡ none) × IsUnique items

pub find_instance-append :
    (id : Text) (items : List InstanceConfig) (c : InstanceConfig)
    → find_instance id (items ++ c ∷ []) ≡ elim (find_instance id items) [
      | none ↦ if text_eq c.id id then some c else none
      | some d ↦ some d
    ]
unfolding find_instance
find_instance-append id [] c = refl
find_instance-append id (d ∷ items) c = ground (arith, find_instance-append id items c)

pub find_instance-replace_instance :
    (id j : Text) (c : InstanceConfig) (items : List InstanceConfig)
    → c.id ≡ id
    → find_instance j (replace_instance id c items)
      ≡ (if text_eq id j && is_some (find_instance id items) then some c else find_instance j items)
unfolding find_instance replace_instance
find_instance-replace_instance id j c [] e = ground arith
find_instance-replace_instance id j c (d ∷ items) e = ground (
  arith,
  find_instance-replace_instance id j c items e,
  text_eq_iff d.id id,
  text_eq_iff id j,
  text_eq_iff d.id j,
  text_eq_iff c.id j,
)

pub find_instance-remove_instance :
    (id j : Text) (items : List InstanceConfig)
    → IsUnique items
    → find_instance j (remove_instance id items)
      ≡ (if text_eq id j then none else find_instance j items)
unfolding find_instance remove_instance
find_instance-remove_instance id j [] u = ground arith
find_instance-remove_instance id j (d ∷ items) u = ground (
  arith,
  find_instance-remove_instance id j items (u.1),
  text_eq_iff d.id id,
  text_eq_iff id j,
  text_eq_iff d.id j,
  u.0,
)

append-IsUnique :
    (items : List InstanceConfig) (c : InstanceConfig)
    → IsUnique items
    → find_instance c.id items ≡ none
    → IsUnique (items ++ c ∷ [])
unfolding find_instance
append-IsUnique [] c u h = (refl, tt)
append-IsUnique (d ∷ items) c u h = ground (
  arith,
  append-IsUnique items c (u.1),
  find_instance-append d.id items c,
  text_eq_iff d.id c.id,
  text_eq_iff c.id d.id,
)

replace_instance-IsUnique :
    (id : Text) (c : InstanceConfig) (items : List InstanceConfig)
    → c.id ≡ id
    → IsUnique items
    → IsUnique (replace_instance id c items)
unfolding replace_instance
replace_instance-IsUnique id c [] e u = tt
replace_instance-IsUnique id c (d ∷ items) e u = ground (
  arith,
  replace_instance-IsUnique id c items e (u.1),
  find_instance-replace_instance id d.id c items e,
  text_eq_iff d.id id,
  text_eq_iff id d.id,
)

remove_instance-IsUnique :
    (id : Text) (items : List InstanceConfig) → IsUnique items → IsUnique (remove_instance id items)
unfolding remove_instance
remove_instance-IsUnique id [] u = tt
remove_instance-IsUnique id (d ∷ items) u = ground (
  arith,
  remove_instance-IsUnique id items (u.1),
  find_instance-remove_instance id d.id items (u.1),
  text_eq_iff d.id id,
  text_eq_iff id d.id,
)

pub replace_instance-missing :
    (id : Text) (c : InstanceConfig) (items : List InstanceConfig)
    → find_instance id items ≡ none
    → replace_instance id c items ≡ items
unfolding find_instance replace_instance
replace_instance-missing id c [] h = refl
replace_instance-missing id c (d ∷ items) h = ground (arith, replace_instance-missing id c items)

pub remove_instance-missing :
    (id : Text) (items : List InstanceConfig)
    → find_instance id items ≡ none
    → remove_instance id items ≡ items
unfolding find_instance remove_instance
remove_instance-missing id [] h = refl
remove_instance-missing id (d ∷ items) h = ground (arith, remove_instance-missing id items)

-- A save changes nothing of the database but the credential.
pub save-kept :
    (out : Outside) (io : Io) (s : Store)
    → (save out io s).0.db ≡ record (s.db) { admin = (save out io s).0.db.admin }
unfolding save write_store refresh_admin
save-kept out io s = ground arith

-- An update keeps the id that it is for.
pub updated_config-id : (id : Text) (cfg : InstanceConfig) → (updated_config id cfg).id ≡ id
unfolding updated_config normalize_config default_config trim_config
updated_config-id id cfg = refl

-- The items that a saved operation leaves are those that it saved.
pub save-items : (out : Outside) (io : Io) (s : Store) → (save out io s).0.db.items ≡ s.db.items
save-items out io s = ap (λ (db : Database). db.items) (save-kept out io s)

pub save-options :
    (out : Outside) (io : Io) (s : Store) → (save out io s).0.db.options ≡ s.db.options
save-options out io s = ap (λ (db : Database). db.options) (save-kept out io s)

abbrev pub add_to : List InstanceConfig → InstanceConfig → List InstanceConfig
add_to items c = if is_some (find_instance c.id items) then items else items ++ c ∷ []

-- The instances in memory after each operation do not depend on whether the save worked: an
-- addition or change that the validation passes, and a removal, stay even if an error is returned.
pub instances-items :
    (out : Outside) (io : Io) (fresh id : Text) (cfg : InstanceConfig) (s : Store)
    → ((add_instance out io fresh cfg s).0.db.items ≡ (
        if is_ok (validate_in out.parse_ip s.db.options (added_config fresh cfg))
        then add_to s.db.items (added_config fresh cfg)
        else s.db.items))
      × ((update_instance out io id cfg s).0.db.items ≡ (
          if is_ok (validate_in out.parse_ip s.db.options (updated_config id cfg))
          then replace_instance id (updated_config id cfg) s.db.items
          else s.db.items))
      × ((delete_instance out io id s).0.db.items ≡ remove_instance id s.db.items)
unfolding add_instance update_instance delete_instance
instances-items out io fresh id cfg s = (
  ground (arith, save-items out io (put_items s (s.db.items ++ added_config fresh cfg ∷ []))),
  ground (
    arith,
    save-items out io (put_items s (replace_instance id (updated_config id cfg) s.db.items)),
    replace_instance-missing id (updated_config id cfg) s.db.items,
  ),
  ground (arith, save-items out io (removed id s), remove_instance-missing id s.db.items),
)

-- The ids of a store stay different through every operation on its instances, whether or not the
-- save worked.
pub instances-IsUnique :
    (out : Outside) (io : Io) (fresh id : Text) (cfg : InstanceConfig) (s : Store)
    → IsUnique s.db.items
    → IsUnique (add_instance out io fresh cfg s).0.db.items
      × IsUnique (update_instance out io id cfg s).0.db.items
      × IsUnique (delete_instance out io id s).0.db.items
instances-IsUnique out io fresh id cfg s u =
    let items = instances-items out io fresh id cfg s in
    rw (items.0, items.1, items.2)
      (
        ground (
          arith,
          append-IsUnique s.db.items (added_config fresh cfg) u,
          replace_instance-IsUnique id (updated_config id cfg) s.db.items (updated_config-id id cfg)
              u,
        ),
        ground (
          arith,
          replace_instance-IsUnique id (updated_config id cfg) s.db.items (updated_config-id id cfg)
              u,
        ),
        remove_instance-IsUnique id s.db.items u,
      )
