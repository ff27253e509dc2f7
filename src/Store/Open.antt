-- ===== src/Store/Open.antt =====
-- Opening a store and changing its password: internal/core/store.go, `OpenStore`,
-- `ChangeAdminPassword` and `normalizeLocked`.
use natcat.Auth.{AuthError, Bytes, Crypto, new_admin_credential, random_secret}
use natcat.Base.{List, Option, [], false, if◌then◌else◌, is_nil, map, none, some, true}
use natcat.Config.{normalize_config, or_positive}
use natcat.Int.{pos}
use natcat.Result.{Result, err, ok, ◌>>=◌, ◌>>◌}
use natcat.Servers.{
  default_http_servers, default_probe_port, default_quic_servers, default_stun_servers,
  flatten_legacy_server_groups, legacy_keep_alive_servers, normalize_server_endpoints,
}
use natcat.Store.{Io, Outside, Store, StoreError, bad_admin, io_failed, not_exist, not_json, save}
use natcat.Text.{Text}
use natcat.Types.{AdminCredential, Database, ServerEndpoint, SystemOptions, Time}

-- The first list if it has a server, else the second.
abbrev pub first_servers : List ServerEndpoint → List ServerEndpoint → List ServerEndpoint
first_servers servers default = if is_nil servers then default else servers

-- The part of `normalizeLocked` for the options.
unfoldable pub normalize_options : SystemOptions → SystemOptions
normalize_options o = record {
  session_hours = or_positive o.session_hours (pos 12);
  stun_servers =
      normalize_server_endpoints
        (first_servers
          (first_servers o.stun_servers
            (flatten_legacy_server_groups o.stun_groups default_probe_port))
          default_stun_servers)
        default_probe_port;
  http_servers =
      normalize_server_endpoints
        (first_servers
          (first_servers o.http_servers (legacy_keep_alive_servers o.keep_alive_groups false))
          default_http_servers)
        (pos 80);
  quic_servers =
      normalize_server_endpoints
        (first_servers
          (first_servers o.quic_servers (legacy_keep_alive_servers o.keep_alive_groups true))
          default_quic_servers)
        (pos 443);
  stun_groups = [];
  keep_alive_groups = [];
}

-- `normalizeLocked`.
unfoldable pub normalize_db : Database → Database
unfolding normalize_options
normalize_db db = record db {
  version = or_positive db.version (pos 1);
  options = normalize_options db.options;
  items = map normalize_config db.items;
}

-- What `os.ReadFile` came to.
pub data ReadResult : Type 0 where
  missing unreadable : ReadResult
  content : Text → ReadResult

-- The database of a first start.
unfoldable pub first_db : AdminCredential → Database
first_db cred = record {
  version = pos 1;
  admin = cred;
  options = record {
    session_hours = pos 12;
    stun_servers = default_stun_servers;
    http_servers = default_http_servers;
    quic_servers = default_quic_servers;
    stun_groups = [];
    keep_alive_groups = [];
  };
  items = [];
  runtime = [];
}

abbrev pub in_auth : {A : Type 0} → Result AuthError A → Result StoreError A
in_auth (ok a) = ok a
in_auth (err e) = err (bad_admin e)

-- What the random numbers give: the bytes for a password, and those for a salt.
pub record Random : Type 0 where
  pub secret : Option Bytes
  pub salt : Option Bytes

module _ (out : Outside) (crypto : Crypto) where
  -- A credential that was made now.
  unfoldable pub dated_credential :
      Time → Text → Text → Option Bytes → Result StoreError AdminCredential
  dated_credential now username password salt =
      in_auth (new_admin_credential crypto username password salt) >>= λ (cred : AdminCredential).
      ok (record cred { last_password = now })

  -- The database of a store that is saved for the first time.
  unfoldable pub create_store : Io → AdminCredential → Text → Result StoreError (Store × Text)
  unfolding first_db
  create_store io cred generated =
      let saved = save out io (record { db = first_db cred; file = none }) in
      saved.1 >> ok (saved.0, generated)

  -- `OpenStore`: the store, and the password that was made up if none was given.
  unfoldable pub open_store :
      ReadResult → Io → Random → Time → Text → Text → Result StoreError (Store × Text)
  unfolding dated_credential create_store
  open_store unreadable io random now user password = err io_failed
  open_store (content raw) io random now user password = elim (out.unmarshal raw) [
    | none ↦ err not_json
    | some db ↦ ok (record { db = normalize_db db; file = some raw }, [])
  ]
  open_store missing io random now user password =
      in_auth (if is_nil password then random_secret random.secret else ok [])
      >>= λ (generated : Text).
          dated_credential now user (if is_nil password then generated else password) random.salt
          >>= λ (cred : AdminCredential). create_store io cred generated

  -- `ChangeAdminPassword`: the file after it, which is another program's than the store's.
  unfoldable pub change_admin_password :
      ReadResult → Io → Option Bytes → Time → Text → Text → Result StoreError Store
  unfolding dated_credential normalize_db
  change_admin_password missing io salt now username password = err not_exist
  change_admin_password unreadable io salt now username password = err io_failed
  change_admin_password (content raw) io salt now username password = elim (out.unmarshal raw) [
    | none ↦ err not_json
    | some db ↦
        dated_credential now (if is_nil username then db.admin.username else username) password salt
        >>= λ (cred : AdminCredential).
            let saved =
              save out io
                (record { db = normalize_db (record db { admin = cred }); file = some raw }) in
            saved.1 >> ok (saved.0)
  ]
