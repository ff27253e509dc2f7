-- ===== src/Tests/Database.antt =====
-- Runs of the store, the credential and the sessions.
use natcat.Auth.{
  Bytes, Crypto, check_password, hash_size, new_admin_credential, password_iterations, pbkdf2_key,
}
use natcat.Auth.Check.{IsCrypto}
use natcat.Base.{
  [], ap, arith, false, if◌then◌else◌, length, map, none, refl, some, take, true, ◌++◌, ◌<◌, ◌∷◌,
  ◌≡◌, ◌≢◌, ◌≤◌,
}
use natcat.Cli.{Fatal, PasswordFlags, change_password, given_password, shown_name}
use natcat.Cli.Login.{change_password-LetsIn}
use natcat.Config.{
  bad_address, default_config, group, normalize_config, tcp, trim_config, validate_config,
}
use natcat.Dict.{get}
use natcat.Int.{pos}
use natcat.Port.{bind_port, new_port_picker}
use natcat.Result.{Result, is_ok, ok}
use natcat.Sessions.{SessionStore, clear, valid}
use natcat.Sessions.Life.{HasUniqueTokens, good_until, valid-clear}
use natcat.Store.{
  Io, Outside, Store, admin, has_credential, load, newer_admin, read_file, refresh_admin, save,
  session_hours, write_store,
}
use natcat.Store.Disk.{IsJson, all_well, erase, erase_config, load-save}
use natcat.Store.Groups.{server_groups, update_server_groups}
use natcat.Store.Instances.{
  add_instance, added_config, delete_instance, find_instance, remove_instance, replace_instance,
  update_instance, updated_config, validate_in,
}
use natcat.Store.Items.{IsUnique, add_to, instances-items}
use natcat.Store.Open.{
  Random, change_admin_password, content, dated_credential, normalize_db, open_store,
}
use natcat.Store.Reopen.{open_store-save}
use natcat.Store.Sound.{IsSound, store-IsSound}
use natcat.Text.{Text, atoi, codes, contains, text_eq, to_lower, trim_space}
use natcat.Types.{
  AdminCredential, Database, InstanceConfig, ServerEndpoint, SystemOptions, no_config,
}

abbrev server : ServerEndpoint
server = record { host = codes "a"; port = pos 80 }

abbrev pub office : InstanceConfig
office = record no_config {
  id = codes "1";
  name = codes "office";
  enabled = true;
  protocol = tcp;
  bind_port = codes "0";
  stun_mode = group;
  keep_alive_mode = group;
  http_port = pos 80;
  keep_alive_seconds = pos 30;
  mapping_confirmations = pos 2;
}

abbrev credential : AdminCredential
credential = record {
  username = codes "admin";
  salt = codes "s";
  hash = codes "h";
  iterations = pos 1;
  last_password = 5;
}

abbrev servers_of_all : SystemOptions
servers_of_all = record {
  session_hours = pos 12;
  stun_servers = server ∷ [];
  http_servers = server ∷ [];
  quic_servers = server ∷ [];
  stun_groups = [];
  keep_alive_groups = [];
}

abbrev office_db : Database
office_db = record {
  version = pos 1;
  admin = credential;
  options = servers_of_all;
  items = office ∷ [];
  runtime = [];
}

-- A coder that knows the one database of these runs.
abbrev pub outside : Outside
outside = record {
  marshal = λ db. some (codes "office");
  unmarshal = λ raw. some office_db;
  parse_ip = λ s. none;
}

abbrev pub shop : Store
shop = record { db = office_db; file = none }

abbrev pub second : InstanceConfig
second = record office { id = codes "2" }

shop-IsJson : IsJson outside (refresh_admin outside all_well shop).db
unfolding refresh_admin natcat.Store.load natcat.Store.read_file erase erase_config
shop-IsJson raw h = refl

load-save_example :
    ((save outside all_well shop).1 ≡ ok tt
      → load outside all_well (save outside all_well shop).0.file
        ≡ some (erase (save outside all_well shop).0.db))
    × ((save outside all_well shop).1 ≢ ok tt → (save outside all_well shop).0.file ≡ none)
load-save_example = load-save outside all_well shop shop-IsJson

pub shop-IsUnique : IsUnique shop.db.items
unfolding find_instance
shop-IsUnique = (refl, tt)

abbrev no_disk : Io
no_disk = record all_well { written = false }

instances-items_example :
    ((add_instance outside no_disk (codes "9") second shop).0.db.items ≡ (
      if is_ok (validate_in (λ s. none) servers_of_all (added_config (codes "9") second))
      then add_to (office ∷ []) (added_config (codes "9") second)
      else office ∷ []))
    × ((update_instance outside no_disk (codes "1") second shop).0.db.items ≡ (
        if is_ok (validate_in (λ s. none) servers_of_all (updated_config (codes "1") second))
        then replace_instance (codes "1") (updated_config (codes "1") second) (office ∷ [])
        else office ∷ []))
    × ((delete_instance outside no_disk (codes "1") shop).0.db.items
        ≡ remove_instance (codes "1") (office ∷ []))
instances-items_example = instances-items outside no_disk (codes "9") (codes "1") second shop

pub office-IsSound : IsSound outside servers_of_all (office ∷ [])
unfolding validate_in natcat.Config.validate_config text_eq normalize_config
    natcat.Config.default_config natcat.Config.trim_config natcat.Text.to_lower
    natcat.Text.trim_space natcat.Config.bad_address natcat.Port.new_port_picker
    natcat.Text.contains natcat.Text.atoi
office-IsSound = ((refl, refl), tt)

store-IsSound_example :
    IsSound outside
      (add_instance outside all_well (codes "9") second shop).0.db.options
      (add_instance outside all_well (codes "9") second shop).0.db.items
    × IsSound outside
        (update_instance outside all_well (codes "1") second shop).0.db.options
        (update_instance outside all_well (codes "1") second shop).0.db.items
    × IsSound outside
        (delete_instance outside all_well (codes "1") shop).0.db.options
        (delete_instance outside all_well (codes "1") shop).0.db.items
    × IsSound outside
        (update_server_groups outside all_well (server_groups servers_of_all) shop).0.db.options
        (update_server_groups outside all_well (server_groups servers_of_all) shop).0.db.items
store-IsSound_example =
    store-IsSound outside all_well (codes "9") (codes "1") second (server_groups servers_of_all)
      shop office-IsSound

-- A hash of 32 zeros, and a base64 that is a copy.
abbrev zeros_32 : Bytes
zeros_32 =
    0 ∷ 0 ∷ 0 ∷ 0 ∷ 0 ∷ 0 ∷ 0 ∷ 0 ∷ 0 ∷ 0 ∷ 0 ∷ 0 ∷ 0 ∷ 0 ∷ 0 ∷ 0 ∷ 0 ∷ 0 ∷ 0 ∷ 0 ∷ 0 ∷ 0 ∷ 0 ∷ 0
    ∷ 0 ∷ 0 ∷ 0 ∷ 0 ∷ 0 ∷ 0 ∷ 0 ∷ 0 ∷ []

abbrev pub toy_crypto : Crypto
toy_crypto = record {
  hmac = λ key m. zeros_32;
  encode64 = λ b. b;
  decode64 = λ s. some s;
  bytes = λ s. s;
}

toy_crypto-IsCrypto : IsCrypto toy_crypto
toy_crypto-IsCrypto = record {
  sized = λ key m. refl;
  decode-encode = λ b. refl;
  encode-nil = λ b. refl;
}

abbrev salt : Bytes
salt = take 16 zeros_32

office-normal : normalize_config office ≡ office
unfolding normalize_config natcat.Config.default_config natcat.Config.trim_config
    natcat.Text.trim_space natcat.Text.to_lower
office-normal = refl

shop_saved : (save outside all_well shop).1 ≡ ok tt
unfolding save refresh_admin
shop_saved = refl

abbrev nothing_random : Random
nothing_random = record { secret = none; salt = none }

open_store-save_example :
    (raw : Text) × (reopened : Store) × ((save outside all_well shop).0.file ≡ some raw)
    × (open_store outside toy_crypto (content raw) all_well nothing_random 99 [] []
        ≡ ok (reopened, []))
    × (reopened.db.items ≡ map erase_config (office ∷ []))
    × (reopened.db.admin ≡ (save outside all_well shop).0.db.admin)
open_store-save_example =
    open_store-save outside toy_crypto all_well all_well nothing_random 99 [] [] shop shop-IsJson
      (office-normal, tt) shop_saved

abbrev visits : SessionStore
visits = record { lifetime = 100; items = (codes "first", 7) ∷ [] }

visits-HasUniqueTokens : HasUniqueTokens visits.items
unfolding get
visits-HasUniqueTokens = (refl, tt)

valid-clear_example :
    ((valid (clear visits (some (codes "first"))) 5 (some (codes "first"))).1 ≡ false)
    × ((valid visits 5 (some (codes "first"))).1 ≡ false
        → (valid (valid visits 5 (some (codes "first"))).0 9 (some (codes "first"))).1 ≡ false)
    × (good_until (clear visits (some (codes "first"))) (codes "new")
        ≡ good_until visits (codes "new"))
    × (good_until (valid visits 5 (some (codes "first"))).0 (codes "new")
        ≡ good_until visits (codes "new"))
valid-clear_example =
    valid-clear visits 5 9 (codes "first") (codes "new") (λ e. ground (arith, ap length e))

-- `natcat password -password pw`.
abbrev pw_flags : PasswordFlags
pw_flags = record { data_path = codes "d"; username = []; password = codes "pw"; args = [] }

abbrev changed_credential : AdminCredential
changed_credential = record {
  username = codes "admin";
  salt = salt;
  hash = pbkdf2_key (λ m. zeros_32) salt password_iterations hash_size;
  iterations = password_iterations;
  last_password = 9;
}

abbrev changed_store : Store
changed_store = record {
  db = normalize_db (record office_db { admin = changed_credential });
  file = some (codes "office" ++ 10 ∷ []);
}

abbrev pw_command : Result Fatal (Store × Text)
pw_command =
    change_password outside toy_crypto (λ args. some pw_flags) (λ path. content (codes "office"))
      all_well (some salt) 9 []

pw_command-changed : pw_command ≡ ok (changed_store, codes "current admin")
unfolding change_password change_admin_password dated_credential new_admin_credential save
    write_store refresh_admin load natcat.Store.read_file newer_admin given_password shown_name
pw_command-changed = refl

change_password-LetsIn_example :
    (0 < 9
      → 5 ≤ 9
      → check_password toy_crypto changed_credential (codes "admin") (codes "pw") ≡ true)
    × (true ≡ true → has_credential credential ≡ true → 9 < 5 → changed_credential ≡ credential)
unfolding given_password normalize_db
change_password-LetsIn_example =
    change_password-LetsIn outside toy_crypto toy_crypto-IsCrypto all_well salt 9
      (λ args. some pw_flags) (λ path. content (codes "office")) [] pw_flags (codes "office")
      office_db changed_store (codes "current admin") (refl, refl, refl, refl, refl, refl)
      pw_command-changed
