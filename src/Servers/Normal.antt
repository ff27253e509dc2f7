-- ===== src/Servers/Normal.antt =====
-- What a normalized server list is.
use natcat.Base.{All, List, [], arith, false, is_nil, refl, ◌↔◌, ◌∷◌, ◌≡◌}
use natcat.Int.{pos, ℤ, ◌≤ℤ◌}
use natcat.Result.{ok}
use natcat.Servers.{
  check_servers, dedupe, endpoint_key, normalize_endpoint, normalize_server_endpoints, seen,
  valid_port, validate_server_endpoints,
}
use natcat.Text.{Text, trim_space}
use natcat.Types.{ServerEndpoint}

-- No two servers share a key, and none has a key of the given list.
abbrev pub DistinctFrom : List Text → List ServerEndpoint → Type 0
DistinctFrom keys [] = Unit
DistinctFrom keys (e ∷ rest) =
    (seen (endpoint_key e) keys ≡ false) × DistinctFrom (endpoint_key e ∷ keys) rest

-- A server with a host, and a port that is positive.
abbrev pub IsUsable : ServerEndpoint → Type 0
IsUsable e = (is_nil e.host ≡ false) × (pos 1 ≤ℤ e.port)

dedupe-DistinctFrom :
    (default_port : ℤ) (keys : List Text) (servers : List ServerEndpoint)
    → DistinctFrom keys (dedupe default_port keys servers)
unfolding dedupe
dedupe-DistinctFrom default_port keys [] = tt
dedupe-DistinctFrom default_port keys (raw ∷ rest) =
    let e = normalize_endpoint default_port raw in
    ground (
      arith,
      dedupe-DistinctFrom default_port keys rest,
      dedupe-DistinctFrom default_port (endpoint_key e ∷ keys) rest,
    )

dedupe-IsUsable :
    (default_port : ℤ) (keys : List Text) (servers : List ServerEndpoint)
    → pos 1 ≤ℤ default_port
    → All IsUsable (dedupe default_port keys servers)
unfolding dedupe normalize_endpoint
dedupe-IsUsable default_port keys [] h = tt
dedupe-IsUsable default_port keys (raw ∷ rest) h =
    let e = normalize_endpoint default_port raw in
    ground (
      arith,
      dedupe-IsUsable default_port keys rest h,
      dedupe-IsUsable default_port (endpoint_key e ∷ keys) rest h,
    )

-- A normalized list has no empty host, no two servers with the same lower-case `host:port`, and,
-- for a default port that is positive, only positive ports.
pub normalize_server_endpoints-DistinctFrom :
    (servers : List ServerEndpoint) (default_port : ℤ)
    → pos 1 ≤ℤ default_port
    → DistinctFrom [] (normalize_server_endpoints servers default_port)
      × All IsUsable (normalize_server_endpoints servers default_port)
unfolding normalize_server_endpoints
normalize_server_endpoints-DistinctFrom servers default_port h =
    (dedupe-DistinctFrom default_port [] servers, dedupe-IsUsable default_port [] servers h)

-- A server that the validation lets through.
abbrev pub IsValidServer : ServerEndpoint → Type 0
IsValidServer e = (is_nil (trim_space e.host) ≡ false) × (pos 1 ≤ℤ e.port) × (e.port ≤ℤ pos 65535)

check_servers-All :
    (servers : List ServerEndpoint) → (check_servers servers ≡ ok tt) ↔ All IsValidServer servers
unfolding check_servers valid_port
check_servers-All [] = (λ _. tt, λ _. refl)
check_servers-All (e ∷ rest) =
    let (to, from) = check_servers-All rest in
    (λ h. ground (arith, to), λ h. ground (arith, from h.1))

-- A server list passes the validation exactly if it has a server, and each of its servers has a
-- host that is not blank and a port from 1 to 65535.
pub validate_server_endpoints-All :
    (servers : List ServerEndpoint)
    → (validate_server_endpoints servers ≡ ok tt)
      ↔ ((is_nil servers ≡ false) × All IsValidServer servers)
unfolding validate_server_endpoints
validate_server_endpoints-All [] = ground arith
validate_server_endpoints-All (e ∷ rest) =
    let (to, from) = check_servers-All (e ∷ rest) in (λ h. (refl, to h), λ h. from h.1)
