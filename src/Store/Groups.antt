-- ===== src/Store/Groups.antt =====
-- The server lists of a store: internal/core/store.go, `ServerGroups` and `UpdateServerGroups`.
use natcat.Base.{List, Option, [], false, if◌then◌else◌, is_nil, not, true, ◌&&◌, ◌∷◌}
use natcat.Config.{ConfigError, normalize_config, validate_config}
use natcat.Int.{pos}
use natcat.Net.{Ip}
use natcat.Result.{Result, err, ok, ◌>>◌}
use natcat.Servers.{
  ServersError, default_probe_port, flatten_legacy_server_groups, legacy_keep_alive_servers,
  normalize_server_endpoints, validate_server_endpoints,
}
use natcat.Store.{Answer, Io, Outside, Store, StoreError, bad_servers, invalid, save_then}
use natcat.Store.Instances.{check_groups}
use natcat.Text.{Text, codes}
use natcat.Types.{InstanceConfig, ServerEndpoint, ServerGroupsConfig, SystemOptions}

-- `ServerGroups`.
unfoldable pub server_groups : SystemOptions → ServerGroupsConfig
server_groups options = record {
  stun_servers = options.stun_servers;
  http_servers = options.http_servers;
  quic_servers = options.quic_servers;
  stun_groups = [];
  keep_alive_groups = [];
}

-- The servers of an update: its own list, or that of its older groups if it has none, normalized.
unfoldable pub new_stun_servers : ServerGroupsConfig → List ServerEndpoint
new_stun_servers g =
    let legacy = flatten_legacy_server_groups g.stun_groups default_probe_port in
    normalize_server_endpoints
      (if is_nil g.stun_servers && not (is_nil g.stun_groups) then legacy else g.stun_servers)
      default_probe_port

unfoldable pub new_http_servers : ServerGroupsConfig → List ServerEndpoint
new_http_servers g =
    let legacy = legacy_keep_alive_servers g.keep_alive_groups false in
    normalize_server_endpoints
      (if is_nil g.http_servers && not (is_nil g.keep_alive_groups) then legacy else g.http_servers)
      (pos 80)

unfoldable pub new_quic_servers : ServerGroupsConfig → List ServerEndpoint
new_quic_servers g =
    let legacy = legacy_keep_alive_servers g.keep_alive_groups true in
    normalize_server_endpoints
      (if is_nil g.quic_servers && not (is_nil g.keep_alive_groups) then legacy else g.quic_servers)
      (pos 443)

abbrev pub in_list : {A : Type 0} → Text → Result ServersError A → Result StoreError A
in_list kind (ok a) = ok a
in_list kind (err e) = err (bad_servers kind e)

-- The loop over the instances: each must be able to run with the new lists.
unfoldable pub check_items :
    (Text → Option Ip)
    → List ServerEndpoint
    → List ServerEndpoint
    → List ServerEndpoint
    → List InstanceConfig
    → Result ConfigError (Unit {0})
unfolding check_groups
check_items parse_ip stun http quic [] = ok tt
check_items parse_ip stun http quic (item ∷ items) =
    let c = normalize_config item in
    validate_config parse_ip c
    >> check_groups stun http quic c
    >> check_items parse_ip stun http quic items

abbrev pub in_config : {A : Type 0} → Result ConfigError A → Result StoreError A
in_config (ok a) = ok a
in_config (err e) = err (invalid e)

-- All the checks of an update.
unfoldable pub check_update :
    (Text → Option Ip) → ServerGroupsConfig → List InstanceConfig → Result StoreError (Unit {0})
unfolding check_items
check_update parse_ip g items = do
  in_list (codes "stun") (validate_server_endpoints (new_stun_servers g))
  in_list (codes "http") (validate_server_endpoints (new_http_servers g))
  in_list (codes "quic") (validate_server_endpoints (new_quic_servers g))
  in_config
      (check_items parse_ip (new_stun_servers g) (new_http_servers g) (new_quic_servers g) items)

-- The options with the lists of an update.
unfoldable pub put_groups : ServerGroupsConfig → SystemOptions → SystemOptions
put_groups g options = record options {
  stun_servers = new_stun_servers g;
  http_servers = new_http_servers g;
  quic_servers = new_quic_servers g;
  stun_groups = [];
  keep_alive_groups = [];
}

-- `UpdateServerGroups`.
unfoldable pub update_server_groups :
    Outside → Io → ServerGroupsConfig → Store → Answer ServerGroupsConfig
unfolding check_update put_groups server_groups
update_server_groups out io g s = elim (check_update out.parse_ip g s.db.items) [
  | err e ↦ (s, err e)
  | ok u ↦
      save_then out io (record s { db = record (s.db) { options = put_groups g s.db.options } })
        (λ (s' : Store). server_groups s'.db.options)
]
