-- ===== src/Server/Instances.antt =====
-- internal/server/server.go: the handlers of the instances. An error of the file system while the
-- store is written is taken to be none of a file that does not exist.
use natcat.Base.{Bool, List, Option, [], if◌then◌else◌, is_nil, none, some, ℕ, ◌==◌, ◌∷◌}
use natcat.Manager.{Manager, ManagerError, is_running, list, snapshot, stop_timeout}
use natcat.Manager.Control.{apply_config, replace_config, start, stop}
use natcat.Manager.PortCheck.{CheckError, check_tcp_port, no_instance, only_tcp}
use natcat.Notify.Run.{run_notify_script_test}
use natcat.Result.{err, ok}
use natcat.Server.{
  Moment, NotifyTest, Packages, Reply, Request, Response, check_of, delete_method, get_method,
  method_not_allowed, not_found, notify_of, of_check, of_manager, of_notify, of_store, ok_true,
  post_method, put_method, says, snapshot_of, snapshots_of, with_body, with_method, write_error,
  write_json,
}
use natcat.Store.{Store, StoreError}
use natcat.Store.Instances.{add_instance, delete_instance, get_instance, update_instance}
use natcat.Text.{Text, codes, split, text_eq, trim, trim_prefix}
use natcat.Types.{InstanceConfig, InstanceSnapshot}

abbrev pub instances_path : Text
instances_path = codes "/api/instances/"

-- `errors.Is(err, os.ErrNotExist)` makes the status 404.
unfoldable pub store_status : StoreError → ℕ
store_status StoreError.not_exist = 404
store_status _ = 400

unfoldable pub start_status : ManagerError → ℕ
start_status ManagerError.not_exist = 404
start_status stop_timeout = 400

unfoldable pub check_status : CheckError → ℕ
check_status no_instance = 404
check_status only_tcp = 400

abbrev pub is_slash : ℕ → Bool
is_slash c = c == b'/'

-- The parts of the path behind `/api/instances/`.
unfoldable pub path_parts : Text → List Text
path_parts path = split (trim is_slash (trim_prefix path instances_path)) b'/'

abbrev pub with_store : Manager → Store → Manager
with_store m s = record m { store = s }

module _ (p : Packages) (t : Moment) where
  -- `snapshot, _ := s.manager.Snapshot(id)` and its response.
  abbrev pub snapshot_response : ℕ → Text → Manager → Response
  snapshot_response status id m = write_json status (snapshot_of (snapshot t.later m id))

  -- `startInstance`.
  unfoldable pub start_instance : Text → Request → Manager → Reply
  unfolding with_method start_status
  start_instance id r = with_method post_method r (λ (m : Manager).
      let started = start p.out t.now id m in
      (
        started.0,
        elim started.1 [
          | ok u ↦ snapshot_response 200 id started.0
          | err e ↦ write_error (start_status e) (of_manager e)
        ],
      ))

  -- `stopInstance`.
  unfoldable pub stop_instance : Text → Request → Manager → Reply
  unfolding with_method
  stop_instance id r = with_method post_method r (λ (m : Manager).
      let stopped_now = stop t.wait t.now id m in
      (
        stopped_now.0,
        elim stopped_now.1 [
          | ok u ↦ snapshot_response 200 id stopped_now.0
          | err e ↦ write_error 400 (of_manager e)
        ],
      ))

  -- `checkInstance`.
  unfoldable pub check_instance : Text → Request → Manager → Reply
  unfolding with_method check_status
  check_instance id r = with_method post_method r (λ (m : Manager).
      let checked = check_tcp_port p.out t.io t.now t.no_mapping t.dial t.meanwhile id m in
      (
        checked.0,
        elim checked.1 [
          | ok check ↦ write_json 200 (check_of check)
          | err e ↦ write_error (check_status e) (of_check e)
        ],
      ))

  -- The configuration that a script is tested with.
  unfoldable pub tested_config : InstanceConfig → Option InstanceConfig → InstanceConfig
  tested_config kept none = kept
  tested_config kept (some cfg) = if is_nil cfg.id then record cfg { id = kept.id } else cfg

  -- The response to a test of a script, which leaves the manager alone.
  unfoldable pub notify_response : InstanceSnapshot → NotifyTest → Response
  unfolding tested_config
  notify_response snap body =
      elim (run_notify_script_test p.host t.exec p.out.parse_ip
        (tested_config snap.config body.config) snap.runtime body.script) [
          | ok result ↦ write_json 200 (notify_of result)
          | err e ↦ write_error 400 (of_notify e)
        ]

  -- `testNotifyScript`.
  unfoldable pub test_notify_script : Text → Request → Manager → Reply
  unfolding with_method with_body notify_response
  test_notify_script id r = with_method post_method r (
      with_body (p.decoders.notify r.body) (λ (body : NotifyTest) (m : Manager). (
        m,
        elim (snapshot t.now m id) [
          | none ↦ write_error 404 (says (codes "instance not found"))
          | some snap ↦ notify_response snap body
        ],
      )))

  -- `case http.MethodGet` of an instance.
  unfoldable pub get_by_id : Text → Manager → Reply
  get_by_id id m = (
    m,
    elim (snapshot t.now m id) [
      | none ↦ not_found
      | some snap ↦ write_json 200 (snapshot_of (some snap))
    ],
  )

  -- `case http.MethodPut` from where the store was updated.
  unfoldable pub replace_by_id : InstanceConfig → InstanceConfig → Bool → Manager → Reply
  replace_by_id old updated was_running m =
      let replaced = replace_config p.out t.wait t.io t.now t.later old updated was_running m in
      (
        replaced.0,
        elim replaced.1 [
          | ok u ↦ snapshot_response 200 updated.id replaced.0
          | err e ↦ write_error 500 (of_manager e)
        ],
      )

  -- `case http.MethodPut` from where the body was decoded.
  unfoldable pub update_by_id : Text → InstanceConfig → InstanceConfig → Manager → Reply
  unfolding replace_by_id store_status
  update_by_id id old cfg m =
      let answer = update_instance p.out t.io id cfg m.store in
      let m' = with_store m answer.0 in
      elim answer.1 [
        | err e ↦ (m', write_error (store_status e) (of_store e))
        | ok updated ↦ replace_by_id old updated (is_running m id) m'
      ]

  -- `case http.MethodPut` of an instance.
  unfoldable pub put_by_id : Text → Request → Manager → Reply
  unfolding update_by_id with_body
  put_by_id id r m = elim (get_instance m.store id) [
    | none ↦ (m, write_error 404 (says (codes "instance not found")))
    | some old ↦ with_body (p.decoders.config r.body) (update_by_id id old) m
  ]

  -- `case http.MethodDelete` of an instance, whose stop may fail.
  unfoldable pub delete_by_id : Text → Manager → Reply
  unfolding store_status
  delete_by_id id m =
      let left = (stop t.wait t.now id m).0 in
      let answer = delete_instance p.out t.io id left.store in
      (
        with_store left answer.0,
        elim answer.1 [
          | ok u ↦ write_json 200 ok_true
          | err e ↦ write_error (store_status e) (of_store e)
        ],
      )

  -- The `switch` on the method of a request for an instance.
  unfoldable pub by_method : Text → Request → Manager → Reply
  unfolding get_by_id put_by_id delete_by_id
  by_method id r m =
      if text_eq r.method get_method
      then get_by_id id m
      else if text_eq r.method put_method
      then put_by_id id r m
      else if text_eq r.method delete_method
      then delete_by_id id m
      else (m, method_not_allowed)

  -- The `switch` on the second part of the path.
  unfoldable pub by_action : Text → Text → Request → Manager → Reply
  unfolding start_instance stop_instance check_instance test_notify_script
  by_action action id r m =
      if text_eq action (codes "start")
      then start_instance id r m
      else if text_eq action (codes "stop")
      then stop_instance id r m
      else if text_eq action (codes "check")
      then check_instance id r m
      else if text_eq action (codes "notify-test")
      then test_notify_script id r m
      else (m, not_found)

  abbrev pub by_parts : List Text → Request → Manager → Reply
  by_parts [] r m = (m, not_found)
  by_parts (id ∷ []) r m = if is_nil id then (m, not_found) else by_method id r m
  by_parts (id ∷ action ∷ []) r m = if is_nil id then (m, not_found) else by_action action id r m
  by_parts (id ∷ action ∷ more ∷ rest) r m = (m, not_found)

  -- `instanceByID`.
  unfoldable pub instance_by_id : Request → Manager → Reply
  unfolding path_parts by_method by_action
  instance_by_id r = by_parts (path_parts r.path) r

  -- `case http.MethodPost` of `instances` from where the body was decoded.
  unfoldable pub create_instance : InstanceConfig → Manager → Reply
  create_instance cfg m =
      let answer = add_instance p.out t.io t.fresh cfg m.store in
      let m' = with_store m answer.0 in
      elim answer.1 [
        | err e ↦ (m', write_error 400 (of_store e))
        | ok created ↦
            let applied = apply_config p.out t.now created m' in
            (applied, snapshot_response 201 created.id applied)
      ]

  -- `case http.MethodPost` of `instances`.
  unfoldable pub post_instance : Request → Manager → Reply
  unfolding with_body create_instance
  post_instance r = with_body (p.decoders.config r.body) create_instance

  -- `instances`.
  unfoldable pub instances : Request → Manager → Reply
  unfolding post_instance
  instances r m =
      if text_eq r.method get_method
      then (m, write_json 200 (snapshots_of (list p.sort t.now m)))
      else if text_eq r.method post_method
      then post_instance r m
      else (m, method_not_allowed)
