-- ===== src/Tests/Control.antt =====
-- Runs of the manager.
use natcat.Base.{[], arith, false, is_some, none, refl, some, true, ◌<◌, ◌∷◌, ◌≡◌}
use natcat.Config.{tcp}
use natcat.Dict.{get, put, remove}
use natcat.Int.{pos}
use natcat.Manager.{Manager, Runner, is_running, new_manager}
use natcat.Manager.Control.{
  Wait, is_current, public_mapping_config_changed, replace_config, report, runner_ended, start,
}
use natcat.Manager.Restart.{replace_config-running, start-while_stopping}
use natcat.Manager.Steps.{IsWell, here, reports, starts, then_step}
use natcat.Manager.Well.{Reach-IsWell}
use natcat.Mapping.{init_mapping}
use natcat.Result.{ok}
use natcat.Store.{Outside, Store, admin, session_hours}
use natcat.Store.Disk.{all_well}
use natcat.Store.Instances.{find_instance, get_instance}
use natcat.Text.{Text, codes, text_eq}
use natcat.Types.{InstanceConfig, empty_status, no_config}

abbrev office : InstanceConfig
office = record no_config { id = codes "1"; enabled = true; protocol = tcp }

abbrev office_store : Store
office_store = record {
  db = record {
    version = pos 1;
    admin = record {
      username = codes "admin";
      salt = [];
      hash = [];
      iterations = pos 1;
      last_password = 5;
    };
    options = record {
      session_hours = pos 12;
      stun_servers = [];
      http_servers = [];
      quic_servers = [];
      stun_groups = [];
      keep_alive_groups = [];
    };
    items = office ∷ [];
    runtime = [];
  };
  file = none;
}

abbrev outside : Outside
outside = record { marshal = λ db. none; unmarshal = λ raw. none; parse_ip = λ s. none }

abbrev idle : Manager
idle = new_manager office_store

abbrev first_runner : Runner
first_runner = record {
  number = 0;
  cfg = office;
  mapping = init_mapping;
  can_cancel = true;
  cancelled = false;
}

abbrev busy : Manager
busy = record {
  store = office_store;
  runners = (codes "1", first_runner) ∷ [];
  status = [];
  subscribers = [];
  next_number = 1;
}

Reach-IsWell_example :
    IsWell (report outside all_well 9 (codes "1") empty_status (start outside 3 (codes "1") idle).0)
Reach-IsWell_example =
    Reach-IsWell outside office_store
      (report outside all_well 9 (codes "1") empty_status (start outside 3 (codes "1") idle).0)
      (then_step idle _ _ (then_step idle idle _ (here idle) (starts 3 (codes "1") idle))
        (reports all_well 9 (codes "1") empty_status (start outside 3 (codes "1") idle).0))

office_found : is_some (get_instance office_store (codes "1")) ≡ true
unfolding get_instance natcat.Store.Instances.find_instance natcat.Text.text_eq
office_found = refl

busy-runner : get (codes "1") busy.runners ≡ some first_runner
unfolding get natcat.Text.text_eq
busy-runner = refl

start-while_stopping_example :
    (start outside 3 (codes "1") busy ≡ (busy, ok tt))
    × (is_running (runner_ended 4 (codes "1") 0 (start outside 3 (codes "1") busy).0) (codes "1")
        ≡ false)
start-while_stopping_example =
    start-while_stopping outside 3 4 (codes "1") first_runner busy busy-runner office_found

-- The old runner is done at once.
abbrev at_once : Wait
at_once m = (m, true)

replaced_ok : (replace_config outside at_once all_well 3 4 office office true busy).1 ≡ ok tt
unfolding replace_config get natcat.Text.text_eq get_instance natcat.Store.Instances.find_instance
    natcat.Manager.Control.public_mapping_config_changed natcat.Dict.put is_running
    natcat.Dict.remove
replaced_ok = refl

replace_config-running_example :
    (is_running (replace_config outside at_once all_well 3 4 office office true busy).0 (codes "1")
      ≡ true)
    × ((r : Runner)
        → true ≡ true
        → get (codes "1") busy.runners ≡ some r
        → r.number < 1
        → is_current
            (codes "1")
            r.number
            (replace_config outside at_once all_well 3 4 office office true busy).0
          ≡ false)
replace_config-running_example =
    replace_config-running outside at_once all_well 3 4 office office true busy refl
      (λ m. omega arith) replaced_ok
