-- ===== src/Servers.antt =====
-- internal/core/validate.go: the lists of STUN, HTTP and QUIC servers, and
-- internal/core/store.go: the groups that older data files hold in their place.
pub mod Normal
use natcat.Base.{Bool, List, [], any, if◌then◌else◌, is_nil, not, true, ◌&&◌, ◌++◌, ◌==◌, ◌||◌, ◌∷◌}
use natcat.Int.{leb_ℤ, ltb_ℤ, pos, ℤ}
use natcat.Result.{Result, fail_if, ok, ◌>>=◌, ◌>>◌}
use natcat.Text.{
  Text, codes, contains, itoa, join_host_port, text_eq, to_lower, trim, trim_prefix, trim_space,
}
use natcat.Types.{ServerEndpoint, ServerGroup}

abbrev pub default_probe_host : Text
default_probe_host = codes "turn.cloudflare.com"

abbrev pub default_probe_port : ℤ
default_probe_port = pos 3478

-- `validPort`.
unfoldable pub valid_port : ℤ → Bool
valid_port port = ltb_ℤ (pos 0) port && leb_ℤ port (pos 65535)

unfoldable pub host_port : Text → ℤ → Text
unfolding join_host_port itoa
host_port host port = join_host_port host (itoa port)

unfoldable pub endpoint_host_port : ServerEndpoint → Text
unfolding host_port
endpoint_host_port e = host_port e.host e.port

unfoldable pub normalize_server_host : Text → Text
unfolding trim_space trim_prefix trim
normalize_server_host raw =
    trim (λ c. c == b'/')
      (trim_prefix (trim_prefix (trim_space raw) (codes "http://")) (codes "https://"))

-- The first steps of the loop: the host trimmed, and the default for a port that is not positive.
unfoldable pub normalize_endpoint : ℤ → ServerEndpoint → ServerEndpoint
normalize_endpoint default_port e = record {
  host = normalize_server_host e.host;
  port = if leb_ℤ e.port (pos 0) then default_port else e.port;
}

-- The key under which a server counts as seen.
unfoldable pub endpoint_key : ServerEndpoint → Text
unfolding to_lower endpoint_host_port
endpoint_key e = to_lower (endpoint_host_port e)

abbrev pub seen : Text → List Text → Bool
seen key = any (text_eq key)

-- The loop, with the keys that were seen.
unfoldable pub dedupe : ℤ → List Text → List ServerEndpoint → List ServerEndpoint
dedupe default_port keys [] = []
dedupe default_port keys (raw ∷ rest) =
    let e = normalize_endpoint default_port raw in
    let key = endpoint_key e in
    let skipped = dedupe default_port keys rest in
    let added = e ∷ dedupe default_port (key ∷ keys) rest in
    if is_nil e.host then skipped else if seen key keys then skipped else added

unfoldable pub normalize_server_endpoints : List ServerEndpoint → ℤ → List ServerEndpoint
unfolding dedupe
normalize_server_endpoints servers default_port = dedupe default_port [] servers

pub data ServersError : Type 0 where
  no_server host_missing bad_port : ServersError

unfoldable pub check_servers : List ServerEndpoint → Result ServersError (Unit {0})
check_servers [] = ok tt
check_servers (e ∷ rest) = do
  fail_if (is_nil (trim_space e.host)) host_missing
  fail_if (not (valid_port e.port)) bad_port
  check_servers rest

unfoldable pub validate_server_endpoints : List ServerEndpoint → Result ServersError (Unit {0})
unfolding check_servers
validate_server_endpoints servers = do fail_if (is_nil servers) no_server; check_servers servers

abbrev pub default_stun_servers : List ServerEndpoint
default_stun_servers =
    record { host = codes "stun.miwifi.com"; port = pos 3478 }
    ∷ record { host = codes "stun.cloudflare.com"; port = pos 3478 }
    ∷ record { host = codes "stun.l.google.com"; port = pos 19302 }
    ∷ record { host = default_probe_host; port = default_probe_port }
    ∷ []

abbrev pub default_http_servers : List ServerEndpoint
default_http_servers =
    record { host = codes "qq.com"; port = pos 80 }
    ∷ record { host = codes "223.5.5.5"; port = pos 80 }
    ∷ []

abbrev pub default_quic_servers : List ServerEndpoint
default_quic_servers = record { host = codes "zhuanlan.zhihu.com"; port = pos 443 } ∷ []

-- `append` over the groups that pass the test, each normalized.
unfoldable pub group_servers : (ServerGroup → Bool) → List ServerGroup → ℤ → List ServerEndpoint
group_servers keep [] default_port = []
group_servers keep (g ∷ rest) default_port =
    let more = group_servers keep rest default_port in
    if keep g then normalize_server_endpoints g.servers default_port ++ more else more

unfoldable pub flatten_legacy_server_groups : List ServerGroup → ℤ → List ServerEndpoint
unfolding group_servers
flatten_legacy_server_groups groups default_port =
    normalize_server_endpoints (group_servers (λ _. true) groups default_port) default_port

-- The name or id speaks of QUIC or UDP.
unfoldable pub is_quic_group : ServerGroup → Bool
unfolding to_lower contains
is_quic_group g =
    let key = to_lower (g.id ++ (b' ' ∷ g.name)) in
    contains key (codes "quic") || contains key (codes "udp")

unfoldable pub legacy_keep_alive_servers : List ServerGroup → Bool → List ServerEndpoint
unfolding group_servers
legacy_keep_alive_servers groups quic =
    let default_port = if quic then pos 443 else pos 80 in
    let keep = λ (g : ServerGroup). if quic then is_quic_group g else not (is_quic_group g) in
    normalize_server_endpoints (group_servers keep groups default_port) default_port
