-- ===== src/Store/Sound.antt =====
-- Every instance of a list can be run: its configuration is normal and passes the validation with
-- the server lists of the options.
use natcat.Base.{
  All, Bool-cases, List, Option, [], arith, if◌then◌else◌, inl, inr, is_some, refl, true, ◌++◌, ◌∷◌,
  ◌≡◌,
}
use natcat.Config.{normalize_config}
use natcat.Config.Normal.{normalize_config_idem}
use natcat.Net.{Ip}
use natcat.Result.{Result, err, is_ok, ok}
use natcat.Store.{Io, Outside, Store}
use natcat.Store.Groups.{
  check_items, check_update, new_http_servers, new_quic_servers, new_stun_servers, put_groups,
  update_server_groups,
}
use natcat.Store.Instances.{
  add_instance, added_config, delete_instance, find_instance, put_items, remove_instance, removed,
  replace_instance, update_instance, updated_config, validate_in,
}
use natcat.Store.Items.{add_to, instances-items, save-items, save-options}
use natcat.Text.{Text}
use natcat.Types.{InstanceConfig, ServerGroupsConfig, SystemOptions}

abbrev pub IsSound : Outside → SystemOptions → List InstanceConfig → Type 0
IsSound out options items =
    All
      (λ (c : InstanceConfig).
        (normalize_config c ≡ c) × (validate_in out.parse_ip options c ≡ ok tt))
      items

module _ (P : InstanceConfig → Type 0) where
  All-append :
      (items : List InstanceConfig) (c : InstanceConfig)
      → All P items
      → P c
      → All P (items ++ c ∷ [])
  All-append [] c a p = (p, tt)
  All-append (d ∷ items) c a p = (a.0, All-append items c (a.1) p)

  All-replace_instance :
      (id : Text) (c : InstanceConfig) (items : List InstanceConfig)
      → All P items
      → P c
      → All P (replace_instance id c items)
  unfolding replace_instance
  All-replace_instance id c [] a p = tt
  All-replace_instance id c (d ∷ items) a p =
      ground (arith, a, p, All-replace_instance id c items (a.1) p)

  All-remove_instance :
      (id : Text) (items : List InstanceConfig) → All P items → All P (remove_instance id items)
  unfolding remove_instance
  All-remove_instance id [] a = tt
  All-remove_instance id (d ∷ items) a = ground (arith, a, All-remove_instance id items (a.1))

-- A chain of two checks passes if both do.
check_items-All :
    (parse_ip : Text → Option Ip) (g : ServerGroupsConfig) (o : SystemOptions)
    (items : List InstanceConfig)
    → All (λ (c : InstanceConfig). normalize_config c ≡ c) items
    → check_items parse_ip (new_stun_servers g) (new_http_servers g) (new_quic_servers g) items
      ≡ ok tt
    → All (λ (c : InstanceConfig). validate_in parse_ip (put_groups g o) c ≡ ok tt) items
unfolding check_items validate_in put_groups
check_items-All parse_ip g o [] n h = tt
check_items-All parse_ip g o (c ∷ items) n h =
    (ground (arith, n, check_items-All parse_ip g o items (n.1)))

is_ok-unit : {E : Type 0} (r : Result E (Unit {0})) → is_ok r ≡ true → r ≡ ok tt
is_ok-unit (ok u) h = refl
is_ok-unit (err e) h = cc

added-IsSound :
    (out : Outside) (o : SystemOptions) (items : List InstanceConfig) (fresh : Text)
    (cfg : InstanceConfig)
    → IsSound out o items
    → IsSound out o (
        if is_ok (validate_in out.parse_ip o (added_config fresh cfg))
        then add_to items (added_config fresh cfg)
        else items)
unfolding added_config
added-IsSound out o items fresh cfg sound =
    elim (Bool-cases (is_ok (validate_in out.parse_ip o (added_config fresh cfg)))) [
      | inr bad ↦ rw bad sound
      | inl good ↦ elim (Bool-cases (is_some (find_instance (added_config fresh cfg).id items))) [
        | inl taken ↦ rw (good, taken) sound
        | inr free ↦
            rw (good, free)
              (All-append _ items (added_config fresh cfg) sound
                (normalize_config_idem _, is_ok-unit _ good))
      ]
    ]

updated-IsSound :
    (out : Outside) (o : SystemOptions) (items : List InstanceConfig) (id : Text)
    (cfg : InstanceConfig)
    → IsSound out o items
    → IsSound out o (
        if is_ok (validate_in out.parse_ip o (updated_config id cfg))
        then replace_instance id (updated_config id cfg) items
        else items)
unfolding updated_config
updated-IsSound out o items id cfg sound =
    elim (Bool-cases (is_ok (validate_in out.parse_ip o (updated_config id cfg)))) [
      | inr bad ↦ rw bad sound
      | inl good ↦ rw good (
          All-replace_instance _ id (updated_config id cfg) items sound
            (normalize_config_idem _, is_ok-unit _ good))
    ]

pub instances-options :
    (out : Outside) (io : Io) (fresh id : Text) (cfg : InstanceConfig) (s : Store)
    → ((add_instance out io fresh cfg s).0.db.options ≡ s.db.options)
      × ((update_instance out io id cfg s).0.db.options ≡ s.db.options)
      × ((delete_instance out io id s).0.db.options ≡ s.db.options)
unfolding add_instance update_instance delete_instance
instances-options out io fresh id cfg s = (
  ground (arith, save-options out io (put_items s (s.db.items ++ added_config fresh cfg ∷ []))),
  ground (
    arith,
    save-options out io (put_items s (replace_instance id (updated_config id cfg) s.db.items)),
  ),
  ground (arith, save-options out io (removed id s)),
)

check_update-items :
    (parse_ip : Text → Option Ip) (g : ServerGroupsConfig) (items : List InstanceConfig)
    → check_update parse_ip g items ≡ ok tt
    → check_items parse_ip (new_stun_servers g) (new_http_servers g) (new_quic_servers g) items
      ≡ ok tt
unfolding check_update
check_update-items parse_ip g items h = ground arith

All-fst :
    (P Q : InstanceConfig → Type 0) (items : List InstanceConfig)
    → All (λ (c : InstanceConfig). P c × Q c) items
    → All P items
All-fst P Q [] a = tt
All-fst P Q (c ∷ items) a = (a.0.0, All-fst P Q items (a.1))

All-pair :
    (P Q : InstanceConfig → Type 0) (items : List InstanceConfig)
    → All P items
    → All Q items
    → All (λ (c : InstanceConfig). P c × Q c) items
All-pair P Q [] a b = tt
All-pair P Q (c ∷ items) a b = ((a.0, b.0), All-pair P Q items (a.1) (b.1))

put_groups-IsSound :
    (out : Outside) (g : ServerGroupsConfig) (o : SystemOptions) (items : List InstanceConfig)
    → check_update out.parse_ip g items ≡ ok tt
    → IsSound out o items
    → IsSound out (put_groups g o) items
put_groups-IsSound out g o items h sound =
    let normal = All-fst _ _ items sound in
    All-pair _ _ items normal
      (check_items-All out.parse_ip g o items normal (check_update-items out.parse_ip g items h))

groups-options :
    (out : Outside) (io : Io) (g : ServerGroupsConfig) (s : Store)
    → ((update_server_groups out io g s).0.db.options ≡ (
        if is_ok (check_update out.parse_ip g s.db.items)
        then put_groups g s.db.options
        else s.db.options))
      × ((update_server_groups out io g s).0.db.items ≡ s.db.items)
unfolding update_server_groups
groups-options out io g s =
    let s' = record s { db = record (s.db) { options = put_groups g s.db.options } } in
    (ground (arith, save-options out io s'), ground (arith, save-items out io s'))

groups-IsSound :
    (out : Outside) (io : Io) (g : ServerGroupsConfig) (s : Store)
    → IsSound out s.db.options s.db.items
    → IsSound out
        (update_server_groups out io g s).0.db.options
        (update_server_groups out io g s).0.db.items
groups-IsSound out io g s sound =
    rw ((groups-options out io g s).0, (groups-options out io g s).1)
      (elim (Bool-cases (is_ok (check_update out.parse_ip g s.db.items))) [
        | inr bad ↦ rw bad sound
        | inl good ↦
            rw good (put_groups-IsSound out g s.db.options s.db.items (is_ok-unit _ good) sound)
      ])

-- The instances of a store stay sound through every operation on them and through an update of the
-- server lists, which is refused if an instance could not run with the new lists.
pub store-IsSound :
    (out : Outside) (io : Io) (fresh id : Text) (cfg : InstanceConfig) (g : ServerGroupsConfig)
    (s : Store)
    → IsSound out s.db.options s.db.items
    → IsSound out
        (add_instance out io fresh cfg s).0.db.options
        (add_instance out io fresh cfg s).0.db.items
      × IsSound out
          (update_instance out io id cfg s).0.db.options
          (update_instance out io id cfg s).0.db.items
      × IsSound out
          (delete_instance out io id s).0.db.options
          (delete_instance out io id s).0.db.items
      × IsSound out
          (update_server_groups out io g s).0.db.options
          (update_server_groups out io g s).0.db.items
store-IsSound out io fresh id cfg g s sound =
    let items = instances-items out io fresh id cfg s in
    let options = instances-options out io fresh id cfg s in
    rw (items.0, items.1, items.2, options.0, options.1, options.2)
      (
        added-IsSound out s.db.options s.db.items fresh cfg sound,
        updated-IsSound out s.db.options s.db.items id cfg sound,
        All-remove_instance _ id s.db.items sound,
        groups-IsSound out io g s sound,
      )
