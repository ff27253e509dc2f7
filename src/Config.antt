-- ===== src/Config.antt =====
-- internal/core/validate.go: the configuration of an instance, made normal and checked.
-- `net.ParseIP` is the argument `parse_ip`: the address of a text, or none for nil.
pub mod Normal
pub mod Valid
use natcat.Base.{
  Bool, List, Option, [], if◌then◌else◌, is_nil, is_some, none, not, some, ℕ, ◌&&◌, ◌||◌, ◌∷◌,
}
use natcat.Int.{leb_ℤ, ltb_ℤ, pos, ℤ}
use natcat.Net.{Ip, ipv4_zero, to4}
use natcat.Port.{PortError, PortPicker, bind_port, new_port_picker}
use natcat.Result.{Result, err, fail_if, ok, ◌>>=◌, ◌>>◌}
use natcat.Servers.{default_probe_host, default_probe_port, host_port}
use natcat.Text.{Text, codes, hex, text_eq, to_lower, trim_space}
use natcat.Types.{InstanceConfig, ServerEndpoint}
use mathlib.Core.Option

abbrev pub tcp : Text
tcp = codes "tcp"

abbrev pub udp : Text
udp = codes "udp"

abbrev pub custom : Text
custom = codes "custom"

abbrev pub group : Text
group = codes "group"

abbrev pub default_mapping_confirmations : ℤ
default_mapping_confirmations = pos 2

abbrev pub max_mapping_confirmations : ℤ
max_mapping_confirmations = pos 20

abbrev pub or_text : Text → Text → Text
or_text s default = if is_nil s then default else s

abbrev pub or_positive : ℤ → ℤ → ℤ
or_positive n default = if leb_ℤ n (pos 0) then default else n

abbrev pub lower_trim : Text → Text
lower_trim s = to_lower (trim_space s)

-- The first block of `normalizeConfig`: white space and case.
unfoldable pub trim_config : InstanceConfig → InstanceConfig
trim_config cfg = record cfg {
  name = trim_space cfg.name;
  protocol = lower_trim cfg.protocol;
  bind_address = trim_space cfg.bind_address;
  bind_port = trim_space cfg.bind_port;
  stun_mode = lower_trim cfg.stun_mode;
  stun_group_id = trim_space cfg.stun_group_id;
  stun_host = trim_space cfg.stun_host;
  keep_alive_mode = lower_trim cfg.keep_alive_mode;
  keep_alive_group_id = trim_space cfg.keep_alive_group_id;
  http_host = trim_space cfg.http_host;
  interface = trim_space cfg.interface;
  notify_script = trim_space cfg.notify_script;
}

abbrev pub default_http_port : Text → ℤ
default_http_port protocol = if text_eq protocol udp then pos 443 else pos 80

-- The second block: the defaults.
unfoldable pub default_config : InstanceConfig → InstanceConfig
default_config cfg =
    let protocol = or_text cfg.protocol tcp in
    record cfg {
      name = or_text cfg.name (codes "NATCat Instance");
      protocol = protocol;
      bind_port = or_text cfg.bind_port (codes "0");
      stun_mode = or_text cfg.stun_mode custom;
      keep_alive_mode = or_text cfg.keep_alive_mode custom;
      http_port = or_positive cfg.http_port (default_http_port protocol);
      keep_alive_seconds = or_positive cfg.keep_alive_seconds (pos 30);
      mapping_confirmations = or_positive cfg.mapping_confirmations default_mapping_confirmations;
    }

unfoldable pub normalize_config : InstanceConfig → InstanceConfig
normalize_config cfg = default_config (trim_config cfg)

pub data ConfigError : Type 0 where
  bad_protocol bad_stun_mode bad_keep_alive_mode no_quic_host no_http_host : ConfigError
  bad_stun_port bad_http_port bad_confirmations bad_bind_address : ConfigError
  bad_bind_port : PortError → ConfigError
  no_stun_servers no_quic_servers no_http_servers : ConfigError

abbrev pub outside : ℤ → ℤ → ℤ → Bool
outside lo hi n = ltb_ℤ n lo || ltb_ℤ hi n

-- The address is not empty and not an IPv4 address.
unfoldable pub bad_address : (Text → Option Ip) → Text → Bool
bad_address parse_ip s = not (is_nil s) && not (is_some (Option.bind (parse_ip s) to4))

abbrev pub drop_picker : Result PortError PortPicker → Result ConfigError (Unit {0})
drop_picker (ok p) = ok tt
drop_picker (err e) = err (bad_bind_port e)

unfoldable pub validate_config : (Text → Option Ip) → InstanceConfig → Result ConfigError (Unit {0})
validate_config parse_ip cfg = do
  fail_if (not (text_eq cfg.protocol tcp) && not (text_eq cfg.protocol udp)) bad_protocol
  fail_if (not (text_eq cfg.stun_mode custom) && not (text_eq cfg.stun_mode group)) bad_stun_mode
  fail_if (not (text_eq cfg.keep_alive_mode custom) && not (text_eq cfg.keep_alive_mode group))
      bad_keep_alive_mode
  fail_if (text_eq cfg.keep_alive_mode custom && is_nil cfg.http_host)
      (if text_eq cfg.protocol udp then no_quic_host else no_http_host)
  fail_if (outside (pos 0) (pos 65535) cfg.stun_port) bad_stun_port
  fail_if (outside (pos 0) (pos 65535) cfg.http_port) bad_http_port
  fail_if (outside (pos 1) max_mapping_confirmations cfg.mapping_confirmations) bad_confirmations
  fail_if (bad_address parse_ip cfg.bind_address) bad_bind_address
  drop_picker (new_port_picker cfg.bind_port)

-- `networkFor`.
unfoldable pub network_for : Text → Text
network_for protocol = if text_eq protocol udp then codes "udp4" else codes "tcp4"

-- `parseBindIP`.
unfoldable pub parse_bind_ip : (Text → Option Ip) → Text → Ip
parse_bind_ip parse_ip value =
    if is_nil value
    then ipv4_zero
    else elim (Option.bind (parse_ip value) to4) [ none ↦ ipv4_zero | some ip ↦ ip ]

-- The host and port of the probe that `customSTUNServers` and `publicProbeHostPort` share.
unfoldable pub custom_stun_servers : InstanceConfig → List ServerEndpoint
custom_stun_servers cfg =
    record {
      host = or_text cfg.stun_host default_probe_host;
      port = or_positive cfg.stun_port default_probe_port;
    }
    ∷ []

unfoldable pub public_probe_host_port : InstanceConfig → Text
public_probe_host_port cfg =
    host_port (or_text cfg.stun_host default_probe_host)
      (or_positive cfg.stun_port default_probe_port)

unfoldable pub custom_keep_alive_servers : InstanceConfig → List ServerEndpoint
custom_keep_alive_servers cfg = record { host = cfg.http_host; port = cfg.http_port } ∷ []

abbrev pub or_servers : List ServerEndpoint → List ServerEndpoint → List ServerEndpoint
or_servers servers default = if is_nil servers then default else servers

unfoldable pub stun_servers_of : InstanceConfig → List ServerEndpoint
stun_servers_of cfg = or_servers cfg.resolved_stun_servers (custom_stun_servers cfg)

unfoldable pub keep_alive_servers_of : InstanceConfig → List ServerEndpoint
keep_alive_servers_of cfg =
    or_servers cfg.resolved_keep_alive_servers (custom_keep_alive_servers cfg)

-- `newID`, from the eight bytes that `rand.Read` gives, none where it fails.
unfoldable pub new_id : Option (List ℕ) → Text
unfolding hex
new_id none = codes "8"
new_id (some buf) = hex buf
