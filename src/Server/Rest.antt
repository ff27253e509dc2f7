-- ===== src/Server/Rest.antt =====
-- What one request lets the next one see: internal/server/server.go, `instances` and
-- `instanceByID` with the store and the manager behind them.
use natcat.Base.{none, refl, some, ℕ, ◌≡◌}
use natcat.Dict.{get}
use natcat.Manager.{Manager, ManagerError, snapshot}
use natcat.Manager.Control.{start, stop}
use natcat.Manager.PortCheck.{check_tcp_port, no_instance}
use natcat.Server.{
  Moment, Packages, Request, Response, delete_method, get_method, not_found, of_check, of_manager,
  post_method, put_method, snapshot_of, with_method, write_error, write_json,
}
use natcat.Server.Instances.{
  by_method, check_instance, check_status, delete_by_id, get_by_id, put_by_id, start_instance,
  start_status, stop_instance, store_status,
}
use natcat.Store.{Store}
use natcat.Store.Instances.{delete_instance, find_instance, get_instance}
use natcat.Text.{Text, text_eq}
use natcat.Types.{InstanceConfig, RuntimeStatus}

-- A response that shows an instance with a configuration.
abbrev pub Shows : ℕ → InstanceConfig → Response → Type 0
Shows status cfg response =
    (response.status ≡ status)
    × ((st : RuntimeStatus) × (response.body
          ≡ snapshot_of (some (record { config = cfg; runtime = st }))))

get_instance-missing :
    (s : Store) (id : Text) → find_instance id s.db.items ≡ none → get_instance s id ≡ none
unfolding get_instance
get_instance-missing s id gone = rw (get_instance, gone) refl

module _ (p : Packages) (t : Moment) where
  pub get-Shows :
      (id : Text) (cfg : InstanceConfig) (r : Request) (m : Manager)
      → r.method ≡ get_method
      → get_instance m.store id ≡ some cfg
      → Shows 200 cfg (by_method p t id r m).1
  unfolding by_method get_by_id snapshot write_json text_eq
  get-Shows id cfg r m e there = rw (by_method, e, get_by_id, snapshot, there) (refl, (_, refl))

  pub get-missing :
      (id : Text) (r : Request) (m : Manager)
      → r.method ≡ get_method
      → get_instance m.store id ≡ none
      → (by_method p t id r m).1.status ≡ 404
  unfolding by_method get_by_id snapshot not_found text_eq
  get-missing id r m e gone = rw (by_method, e, get_by_id, snapshot, gone) refl

  pub put-missing :
      (id : Text) (r : Request) (m : Manager)
      → r.method ≡ put_method
      → get_instance m.store id ≡ none
      → (by_method p t id r m).1.status ≡ 404
  unfolding by_method put_by_id write_error write_json natcat.Text.text_eq
  put-missing id r m e gone = rw (by_method, e, put_by_id, gone) refl

  pub start-missing :
      (id : Text) (r : Request) (m : Manager)
      → r.method ≡ post_method
      → get_instance m.store id ≡ none
      → start_instance p t id r m ≡ (m, write_error 404 (of_manager ManagerError.not_exist))
  unfolding start_instance with_method start start_status text_eq
  start-missing id r m e gone = rw (start_instance, with_method, e, start, gone) refl

  check-missing :
      (id : Text) (r : Request) (m : Manager)
      → r.method ≡ post_method
      → get_instance m.store id ≡ none
      → check_instance p t id r m ≡ (m, write_error 404 (of_check no_instance))
  unfolding check_instance with_method check_tcp_port check_status text_eq
  check-missing id r m e gone = rw (check_instance, with_method, e, check_tcp_port, gone) refl

  stop-missing :
      (id : Text) (r : Request) (m : Manager)
      → r.method ≡ post_method
      → get id m.runners ≡ none
      → (stop_instance p t id r m).1.status ≡ 200
  unfolding stop_instance with_method stop write_json text_eq
  stop-missing id r m e gone = rw (stop_instance, with_method, e, stop, gone) refl

  delete-missing :
      (id : Text) (r : Request) (m : Manager)
      → r.method ≡ delete_method
      → get id m.runners ≡ none
      → find_instance id m.store.db.items ≡ none
      → (by_method p t id r m).1.status ≡ 404
  unfolding by_method delete_by_id stop delete_instance store_status write_error write_json text_eq
  delete-missing id r m e idle gone =
      rw (by_method, e, delete_by_id, stop, idle, delete_instance, gone) refl

  -- For an id that the store does not have and no runner is registered for, the requests to read,
  -- replace, delete, start and check the instance are all answered with 404, and the start and the
  -- check change nothing. The request to stop it is answered with 200 all the same.
  pub missing-status :
      (id : Text) (getting putting deleting posting : Request) (m : Manager)
      → getting.method ≡ get_method
      → putting.method ≡ put_method
      → deleting.method ≡ delete_method
      → posting.method ≡ post_method
      → find_instance id m.store.db.items ≡ none
      → get id m.runners ≡ none
      → ((by_method p t id getting m).1.status ≡ 404)
        × ((by_method p t id putting m).1.status ≡ 404)
        × ((by_method p t id deleting m).1.status ≡ 404)
        × (start_instance p t id posting m
            ≡ (m, write_error 404 (of_manager ManagerError.not_exist)))
        × (check_instance p t id posting m ≡ (m, write_error 404 (of_check no_instance)))
        × ((stop_instance p t id posting m).1.status ≡ 200)
  missing-status id getting putting deleting posting m a b c d gone idle =
      let none_there = get_instance-missing m.store id gone in
      (
        get-missing id getting m a none_there,
        put-missing id putting m b none_there,
        delete-missing id deleting m c idle gone,
        start-missing id posting m d none_there,
        check-missing id posting m d none_there,
        stop-missing id posting m d idle,
      )
