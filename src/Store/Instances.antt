-- ===== src/Store/Instances.antt =====
-- The instances of a store: internal/core/store.go, `ListInstances` to `DeleteInstance`.
use natcat.Base.{
  List, Option, [], if◌then◌else◌, is_nil, is_some, map, none, not, some, ◌&&◌, ◌++◌, ◌∷◌,
}
use natcat.Config.{
  ConfigError, group, no_http_servers, no_quic_servers, no_stun_servers, normalize_config, udp,
  validate_config,
}
use natcat.Dict.{remove}
use natcat.Net.{Ip}
use natcat.Result.{Result, err, fail_if, ok, ◌>>◌}
use natcat.Store.{Answer, Io, Outside, Store, already_exists, invalid, not_exist, save, save_then}
use natcat.Text.{Text, text_eq}
use natcat.Types.{InstanceConfig, ServerEndpoint, SystemOptions}

-- `resolveConfigLocked`.
unfoldable pub resolve_config : SystemOptions → InstanceConfig → InstanceConfig
resolve_config options cfg =
    let c = normalize_config cfg in
    record c {
      resolved_stun_servers =
          if text_eq c.stun_mode group then options.stun_servers else c.resolved_stun_servers;
      resolved_keep_alive_servers =
          if text_eq c.keep_alive_mode group
          then (if text_eq c.protocol udp then options.quic_servers else options.http_servers)
          else c.resolved_keep_alive_servers;
    }

-- The lists that the modes of a configuration need have a server.
unfoldable pub check_groups :
    List ServerEndpoint
    → List ServerEndpoint
    → List ServerEndpoint
    → InstanceConfig
    → Result ConfigError (Unit {0})
check_groups stun http quic cfg = do
  fail_if (text_eq cfg.stun_mode group && is_nil stun) no_stun_servers
  fail_if (text_eq cfg.keep_alive_mode group && text_eq cfg.protocol udp && is_nil quic)
      no_quic_servers
  fail_if (text_eq cfg.keep_alive_mode group && not (text_eq cfg.protocol udp) && is_nil http)
      no_http_servers

-- `validateConfigLocked`.
unfoldable pub validate_in :
    (Text → Option Ip) → SystemOptions → InstanceConfig → Result ConfigError (Unit {0})
unfolding check_groups
validate_in parse_ip options cfg =
    validate_config parse_ip cfg
    >> check_groups options.stun_servers options.http_servers options.quic_servers cfg

-- `ListInstances`.
unfoldable pub list_instances : Store → List InstanceConfig
list_instances s = map (resolve_config s.db.options) s.db.items

-- The first instance with an id.
unfoldable pub find_instance : Text → List InstanceConfig → Option InstanceConfig
find_instance id [] = none
find_instance id (c ∷ items) = if text_eq c.id id then some c else find_instance id items

-- `GetInstance`.
unfoldable pub get_instance : Store → Text → Option InstanceConfig
get_instance s id = elim (find_instance id s.db.items) [
  | none ↦ none
  | some c ↦ some (resolve_config s.db.options c)
]

-- `s.db.Items[i] = cfg` at the first instance with the id.
unfoldable pub replace_instance : Text → InstanceConfig → List InstanceConfig → List InstanceConfig
replace_instance id cfg [] = []
replace_instance id cfg (c ∷ items) =
    let rest = replace_instance id cfg items in if text_eq c.id id then cfg ∷ items else c ∷ rest

-- `append(s.db.Items[:i], s.db.Items[i+1:]...)` at the first instance with the id.
unfoldable pub remove_instance : Text → List InstanceConfig → List InstanceConfig
remove_instance id [] = []
remove_instance id (c ∷ items) =
    let rest = remove_instance id items in if text_eq c.id id then items else c ∷ rest

abbrev pub put_items : Store → List InstanceConfig → Store
put_items s items = record s { db = record (s.db) { items = items } }

-- The configuration that `AddInstance` adds: `fresh` is what `newID` gives.
unfoldable pub added_config : Text → InstanceConfig → InstanceConfig
added_config fresh cfg =
    normalize_config (record cfg { id = if is_nil cfg.id then fresh else cfg.id })

-- The one that `UpdateInstance` puts in its place.
unfoldable pub updated_config : Text → InstanceConfig → InstanceConfig
updated_config id cfg = normalize_config (record cfg { id = id })

-- The store without an instance and what it kept of it.
abbrev pub removed : Text → Store → Store
removed id s = record s {
  db = record (s.db) { items = remove_instance id s.db.items; runtime = remove id s.db.runtime };
}

module _ (out : Outside) where
  -- `AddInstance`.
  unfoldable pub add_instance : Io → Text → InstanceConfig → Store → Answer InstanceConfig
  unfolding added_config
  add_instance io fresh cfg s =
      let c = added_config fresh cfg in
      elim (validate_in out.parse_ip s.db.options c) [
        | err e ↦ (s, err (invalid e))
        | ok u ↦
            if is_some (find_instance c.id s.db.items)
            then (s, err already_exists)
            else save_then out io (put_items s (s.db.items ++ c ∷ []))
                (λ (s' : Store). resolve_config s'.db.options c)
      ]

  -- `UpdateInstance`.
  unfoldable pub update_instance : Io → Text → InstanceConfig → Store → Answer InstanceConfig
  update_instance io id cfg s =
      let c = updated_config id cfg in
      elim (validate_in out.parse_ip s.db.options c) [
        | err e ↦ (s, err (invalid e))
        | ok u ↦
            if is_some (find_instance id s.db.items)
            then save_then out io (put_items s (replace_instance id c s.db.items))
                (λ (s' : Store). resolve_config s'.db.options c)
            else (s, err not_exist)
      ]

  -- `DeleteInstance`.
  unfoldable pub delete_instance : Io → Text → Store → Answer (Unit {0})
  delete_instance io id s =
      if is_some (find_instance id s.db.items)
      then save out io (removed id s)
      else (s, err not_exist)
