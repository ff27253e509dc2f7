-- ===== src/Tests/Web.antt =====
-- Runs of the web server and of notify scripts.
use natcat.Auth.{check_password}
use natcat.Base.{List, Option, [], arith, false, none, refl, some, true, ℕ, ◌++◌, ◌∷◌, ◌≡◌}
use natcat.Dict.{get}
use natcat.Int.{pos}
use natcat.Manager.{KeepAliveAgeEvent, Manager, ManagerError, new_manager, not_exist}
use natcat.Manager.Control.{stop}
use natcat.Manager.PortCheck.{connected_in, no_instance}
use natcat.Manager.Steps.{here}
use natcat.Manager.Well.{Reach-IsWell}
use natcat.Net.{Ip}
use natcat.Notify.Command.{Command, Host}
use natcat.Notify.Run.{Ran}
use natcat.Server.{
  Login, Moment, Packages, Request, Response, Server, delete_method, get_method, not_found_page,
  of_check, of_manager, post_method, put_method, write_error,
}
use natcat.Server.Ages.{changed_keep_alive_ages}
use natcat.Server.Created.{delete-get}
use natcat.Server.Entry.{current, serve-login}
use natcat.Server.Good.{IsGood, serve-IsGood}
use natcat.Server.Instances.{
  by_method, check_instance, instance_by_id, instances_path, path_parts, start_instance,
  stop_instance,
}
use natcat.Server.Kept.{IsKept}
use natcat.Server.Rest.{missing-status}
use natcat.Server.Routes.{apply_server_groups, serve}
use natcat.Server.View.{Agrees, HasUniqueIds, age_of, changed_keep_alive_ages-Agrees, shown}
use natcat.Sessions.{Cookie, SessionStore}
use natcat.Sessions.Life.{HasUniqueTokens}
use natcat.Store.{Store}
use natcat.Store.Disk.{all_well}
use natcat.Store.Instances.{delete_instance, find_instance}
use natcat.Store.Saved.{runtime_status}
use natcat.Tests.Database.{office-IsSound, outside, second, shop, shop-IsUnique, toy_crypto}
use natcat.Text.{Text, codes, split, text_eq, trim, trim_prefix}
use natcat.Types.{RuntimeStatus, empty_status}

abbrev host : Host
host = record { windows = false; is_file = λ s. false; environ = []; show_ip = λ ip. ip }

abbrev page : Response
page = record { status = 200; headers = []; set_cookie = none; body = not_found_page }

abbrev site : Packages
site = record {
  out = outside;
  crypto = toy_crypto;
  decoders = record {
    login = λ s. some (record { username = codes "admin"; password = s });
    groups = λ s. none;
    config = λ s. some second;
    notify = λ s. none;
  };
  host = host;
  sort = λ snapshots. snapshots;
  has_static = λ s. false;
  file_server = λ s. page;
}

-- A script that prints and fails.
abbrev fails_aloud : Ran
fails_aloud = record {
  output = codes "no";
  failed = some (codes "exit status 1");
  exit_code = some (pos 1);
  out_of_time = false;
  millis = 7;
}

abbrev morning : Moment
morning = record {
  io = all_well;
  now = 10;
  later = 11;
  random = some (1 ∷ []);
  fresh = codes "9";
  wait = λ m. (m, true);
  meanwhile = λ m. m;
  no_mapping = codes "no mapping";
  dial = connected_in 3;
  exec = λ command. fails_aloud;
  can_flush = true;
  ready_sent = true;
  signals = [];
}

abbrev noon : Moment
noon = record morning { now = 60; later = 61 }

abbrev visits : SessionStore
visits = record { lifetime = 100; items = (codes "first", 7) ∷ [] }

visits-HasUniqueTokens : HasUniqueTokens visits.items
unfolding get
visits-HasUniqueTokens = (refl, tt)

abbrev open_site : Server
open_site = record { manager = new_manager shop; session = visits; applying = 0 }

shop-IsKept : IsKept outside (new_manager shop)
unfolding new_manager
shop-IsKept = (
  Reach-IsWell outside shop (new_manager shop) (here (new_manager shop)),
  (shop-IsUnique, office-IsSound),
)

abbrev asks : Text → Text → Request
asks method path = record { method = method; path = path; cookie = none; body = []; secure = false }

abbrev posts_instance : Request
posts_instance = record (asks post_method (codes "/api/instances")) {
  cookie = some (codes "first");
}

serve-IsGood_example :
    IsGood outside (serve site morning posts_instance open_site).0
    × IsGood outside (apply_server_groups site morning open_site)
serve-IsGood_example =
    serve-IsGood site morning (λ m kept. kept) (λ m kept. kept) posts_instance open_site
      (shop-IsKept, visits-HasUniqueTokens)

abbrev stranger : Request
stranger = record (asks delete_method (codes "/api/instances/1")) { cookie = some (codes "second") }

abbrev enters : Request
enters = asks post_method (codes "/api/login")

abbrev admin_login : Login
admin_login = record { username = codes "admin"; password = [] }

serve-login_example :
    let right = check_password toy_crypto (current site morning open_site) (codes "admin") [] in
    let answer = serve site morning enters open_site in
    (right ≡ false
      → (answer.1.status ≡ 401) × (answer.1.set_cookie ≡ none) × (answer.0.session ≡ visits))
    × (right ≡ true
        → (answer.1.status ≡ 200)
          × ((c : Cookie) × (answer.1.set_cookie ≡ some c)
              × ((none ≡ some c.value)
                  → (serve site noon (asks get_method (codes "/api/me")) answer.0).1.status ≡ 200)))
serve-login_example =
    serve-login site morning noon enters (asks get_method (codes "/api/me")) admin_login (1 ∷ [])
      open_site (refl, refl, refl, refl, refl) visits-HasUniqueTokens (omega arith) refl refl

-- A request for the instance with an id.
abbrev asks_for : Text → Text → Request
asks_for method id = asks method (instances_path ++ id)

deleted_office :
    (instance_by_id site morning (asks_for delete_method (codes "1")) (new_manager shop)).1.status
    ≡ 200
unfolding instance_by_id by_method text_eq natcat.Store.Instances.delete_instance find_instance
    natcat.Manager.Control.stop get new_manager natcat.Store.save natcat.Text.split
    natcat.Text.trim_prefix natcat.Text.trim natcat.Server.Instances.path_parts
deleted_office = refl

delete-get_example :
    let after =
      (instance_by_id site morning (asks_for delete_method (codes "1")) (new_manager shop)).0 in
    ((instance_by_id site noon (asks_for get_method (codes "1")) after).1.status ≡ 404)
    × ((instance_by_id site noon (asks_for put_method (codes "1")) after).1.status ≡ 404)
    × (start_instance site noon (codes "1") (asks post_method []) after
        ≡ (after, write_error 404 (of_manager ManagerError.not_exist)))
    × (runtime_status after.store (codes "1") ≡ none)
delete-get_example =
    delete-get site morning (λ m kept. kept) noon (codes "1") (asks_for delete_method (codes "1"))
      (asks_for get_method (codes "1")) (asks_for put_method (codes "1")) (asks post_method [])
      (new_manager shop) shop-IsKept (refl, refl) (refl, refl) (refl, refl) (refl, refl) refl
      deleted_office

nothing_there : find_instance (codes "5") shop.db.items ≡ none
unfolding find_instance text_eq
nothing_there = refl

no_runner : get (codes "5") (new_manager shop).runners ≡ none
unfolding new_manager get
no_runner = refl

missing-status_example :
    ((by_method site morning (codes "5") (asks get_method []) (new_manager shop)).1.status ≡ 404)
    × ((by_method site morning (codes "5") (asks put_method []) (new_manager shop)).1.status ≡ 404)
    × ((by_method site morning (codes "5") (asks delete_method []) (new_manager shop)).1.status
        ≡ 404)
    × (start_instance site morning (codes "5") (asks post_method []) (new_manager shop)
        ≡ (new_manager shop, write_error 404 (of_manager ManagerError.not_exist)))
    × (check_instance site morning (codes "5") (asks post_method []) (new_manager shop)
        ≡ (new_manager shop, write_error 404 (of_check no_instance)))
    × ((stop_instance site morning (codes "5") (asks post_method []) (new_manager shop)).1.status
        ≡ 200)
unfolding new_manager
missing-status_example =
    missing-status site morning (codes "5") (asks get_method []) (asks put_method [])
      (asks delete_method []) (asks post_method []) (new_manager shop) refl refl refl refl
      nothing_there no_runner

abbrev two_ages : List KeepAliveAgeEvent
two_ages =
    record { id = codes "1"; connected_seconds = 4 }
    ∷ record { id = codes "2"; connected_seconds = 9 }
    ∷ []

two_ages-HasUniqueIds : HasUniqueIds two_ages
unfolding text_eq
two_ages-HasUniqueIds = (refl, (refl, tt))

abbrev last_ages : List (Text × ℕ)
last_ages = (codes "1", 3) ∷ (codes "2", 9) ∷ (codes "3", 1) ∷ []

changed_keep_alive_ages-Agrees_example :
    let changed = changed_keep_alive_ages last_ages two_ages in
    ((id : Text) → get id changed.0 ≡ age_of id two_ages)
    × Agrees (shown last_ages changed.1) changed.0
    × ((id : Text) (n : ℕ)
        → age_of id two_ages ≡ some n
        → get id (shown last_ages changed.1) ≡ some n)
changed_keep_alive_ages-Agrees_example =
    changed_keep_alive_ages-Agrees last_ages last_ages two_ages two_ages-HasUniqueIds (λ id n h. h)

abbrev mapped_status : RuntimeStatus
mapped_status = record empty_status { public_address = codes "a"; public_port = pos 7 }

abbrev any_ip : Text → Option Ip
any_ip s = some s
