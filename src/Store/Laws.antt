-- ===== src/Store/Laws.antt =====
-- What a caller reads back after an operation on the instances.
use natcat.Base.{
  Bool, List, Option, [], ap, arith, if◌then◌else◌, is_some, none, some, true, ◌++◌, ◌∷◌, ◌≡◌,
}
use natcat.Dict.{get-remove, remove}
use natcat.Result.{is_ok, ok}
use natcat.Store.{Answer, Io, Outside, Store}
use natcat.Store.Instances.{
  add_instance, added_config, delete_instance, find_instance, get_instance, put_items, removed,
  replace_instance, resolve_config, update_instance, updated_config, validate_in,
}
use natcat.Store.Items.{
  IsUnique, find_instance-append, find_instance-remove_instance, find_instance-replace_instance,
  instances-items, save-kept, save-options, updated_config-id,
}
use natcat.Store.Saved.{runtime_status}
use natcat.Store.Sound.{instances-options}
use natcat.Text.{Text, text_eq, text_eq_iff}
use natcat.Types.{Database, InstanceConfig, SystemOptions, no_config}

abbrev pub is_done : {A : Type 0} → Answer A → Bool
is_done answer = is_ok answer.1

abbrev resolved : SystemOptions → Option InstanceConfig → Option InstanceConfig
resolved options none = none
resolved options (some c) = some (resolve_config options c)

get_instance_lem :
    (s : Store) (options : SystemOptions) (items : List InstanceConfig) (j : Text)
    → s.db.options ≡ options
    → s.db.items ≡ items
    → get_instance s j ≡ resolved options (find_instance j items)
unfolding get_instance
get_instance_lem s options items j e f = ground (arith, e, f)

module _ (out : Outside) (io : Io) (s : Store) where
  pub add_instance-ok :
      (fresh : Text) (cfg added : InstanceConfig)
      → (add_instance out io fresh cfg s).1 ≡ ok added
      → (is_ok (validate_in out.parse_ip s.db.options (added_config fresh cfg)) ≡ true)
        × (find_instance (added_config fresh cfg).id s.db.items ≡ none)
        × (added ≡ resolve_config s.db.options (added_config fresh cfg))
  unfolding add_instance
  add_instance-ok fresh cfg added h =
      ground (arith, save-options out io (put_items s (s.db.items ++ added_config fresh cfg ∷ [])))

  pub update_instance-ok :
      (id : Text) (cfg changed : InstanceConfig)
      → (update_instance out io id cfg s).1 ≡ ok changed
      → (is_ok (validate_in out.parse_ip s.db.options (updated_config id cfg)) ≡ true)
        × (is_some (find_instance id s.db.items) ≡ true)
        × (changed ≡ resolve_config s.db.options (updated_config id cfg))
  unfolding update_instance
  update_instance-ok id cfg changed h = ground (
    arith,
    save-options out io (put_items s (replace_instance id (updated_config id cfg) s.db.items)),
  )

  -- After an instance was added, its id gives the configuration that the call returned, and the
  -- other ids give what they gave before.
  pub get_instance-add_instance :
      (fresh : Text) (cfg added : InstanceConfig) (j : Text)
      → (add_instance out io fresh cfg s).1 ≡ ok added
      → get_instance (add_instance out io fresh cfg s).0 j
        ≡ (if text_eq (added_config fresh cfg).id j then some added else get_instance s j)
  unfolding get_instance
  get_instance-add_instance fresh cfg added j h =
      let c = added_config fresh cfg in
      let done = add_instance-ok fresh cfg added h in
      let options = (instances-options out io fresh [] cfg s).0 in
      let items = (instances-items out io fresh [] cfg s).0 in
      rw
        (
          get_instance_lem (add_instance out io fresh cfg s).0 _ _ j options items,
          done.0,
          done.1,
          find_instance-append j s.db.items c,
        )
        (ground (arith, done.1, done.2, text_eq_iff c.id j))

  -- After an instance was updated, its id gives the configuration that the call returned, and the
  -- other ids give what they gave before.
  pub get_instance-update_instance :
      (id : Text) (cfg changed : InstanceConfig) (j : Text)
      → (update_instance out io id cfg s).1 ≡ ok changed
      → get_instance (update_instance out io id cfg s).0 j
        ≡ (if text_eq id j then some changed else get_instance s j)
  unfolding get_instance
  get_instance-update_instance id cfg changed j h =
      let c = updated_config id cfg in
      let done = update_instance-ok id cfg changed h in
      let options = (instances-options out io [] id cfg s).1 in
      let items = (instances-items out io [] id cfg s).1 in
      rw
        (
          get_instance_lem (update_instance out io id cfg s).0 _ _ j options items,
          done.0,
          find_instance-replace_instance id j c s.db.items (updated_config-id id cfg),
          done.1,
        )
        (ground (arith, done.2))

  delete_instance-runtime :
      (id : Text)
      → is_some (find_instance id s.db.items) ≡ true
      → (delete_instance out io id s).0.db.runtime ≡ remove id s.db.runtime
  unfolding delete_instance
  delete_instance-runtime id there =
      ground (arith, ap (λ (db : Database). db.runtime) (save-kept out io (removed id s)))

  -- After an instance was deleted from a store whose ids are different, its id gives neither an
  -- instance nor a public address, and the other ids give what they gave before; this holds even if
  -- the save failed.
  pub get_instance-delete_instance :
      (id j : Text)
      → IsUnique s.db.items
      → is_some (find_instance id s.db.items) ≡ true
      → (get_instance (delete_instance out io id s).0 j
          ≡ (if text_eq id j then none else get_instance s j))
        × (runtime_status (delete_instance out io id s).0 j
            ≡ (if text_eq id j then none else runtime_status s j))
  unfolding get_instance runtime_status
  get_instance-delete_instance id j u there =
      let options = (instances-options out io [] id no_config s).2 in
      let items = (instances-items out io [] id no_config s).2 in
      (
        rw
            (
              get_instance_lem (delete_instance out io id s).0 _ _ j options items,
              find_instance-remove_instance id j s.db.items u,
            )
            (ground arith),
        ground (arith, delete_instance-runtime id there, get-remove id j s.db.runtime),
      )
