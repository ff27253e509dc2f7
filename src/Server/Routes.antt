-- ===== src/Server/Routes.antt =====
-- internal/server/server.go: the routes, the sessions of requests, and the handlers of the rest.
-- `http.ServeMux` gives a path to the pattern that it equals, and else to the longest that it
-- starts with; a path with empty or dotted parts it redirects, but not for CONNECT.
use natcat.Auth.{check_password}
use natcat.Base.{
  Bool, List, [], if◌then◌else◌, is_nil, none, not, some, suc, true, ◌&&◌, ◌-◌, ◌||◌, ◌∷◌,
}
use natcat.Config.{group}
use natcat.Manager.{Manager, is_running, subscribe, unsubscribe}
use natcat.Manager.Control.{replace_config}
use natcat.Result.{err, ok}
use natcat.Server.{
  Answered, Login, Moment, Packages, Reply, Request, Response, Server, get_method, groups_of,
  method_not_allowed, moved_page, no_token, not_found, of_store, ok_true, post_method, put_method,
  ready, says, stream, username_of, with_body, with_method, write_error, write_json, wrong_login,
}
use natcat.Server.Ages.{event_frames, then_frames}
use natcat.Server.Instances.{instance_by_id, instances, instances_path, with_store}
use natcat.Server.Paths.{clean_path}
use natcat.Sessions.{clear, cleared_cookie, create, new_token, session_cookie, valid}
use natcat.Store.{Store, admin}
use natcat.Store.Groups.{update_server_groups}
use natcat.Store.Instances.{list_instances}
use natcat.Text.{Text, codes, has_prefix, text_eq, trim_prefix}
use natcat.Types.{InstanceConfig, ServerGroupsConfig}

-- The patterns of `Handler`.
pub data Route : Type 0 where
  login_route logout_route me_route events_route groups_route instances_route : Route
  instance_route static_route : Route

unfoldable pub route : Text → Route
route path =
    if text_eq path (codes "/api/login")
    then login_route
    else if text_eq path (codes "/api/logout")
    then logout_route
    else if text_eq path (codes "/api/me")
    then me_route
    else if text_eq path (codes "/api/events")
    then events_route
    else if text_eq path (codes "/api/server-groups")
    then groups_route
    else if text_eq path (codes "/api/instances")
    then instances_route
    else if has_prefix path instances_path
    then instance_route
    else static_route

-- A handler that only needs the manager.
abbrev pub on_manager : (Manager → Reply) → Server → Answered
on_manager handler s = let answer = handler s.manager in (record s { manager = answer.0 }, answer.1)

abbrev pub with_server_store : Server → Store → Server
with_server_store s store = record s { manager = with_store s.manager store }

module _ (p : Packages) (t : Moment) where
  -- `login` from where the password was found right.
  unfoldable pub begin_session : Request → Text → Server → Answered
  begin_session r username s = elim (new_token t.random) [
    | none ↦ (s, write_error 500 no_token)
    | some token ↦ (
      record s { session = (create s.session t.now (some token)).0 },
      record (write_json 200 (username_of username)) {
        set_cookie = some (session_cookie s.session t.now token r.secure);
      },
    )
  ]

  -- `login` from where the body was decoded.
  unfoldable pub login_as : Request → Login → Server → Answered
  unfolding begin_session
  login_as r body s =
      let read = admin p.out t.io s.manager.store in
      let s' = with_server_store s read.0 in
      if check_password p.crypto read.1 body.username body.password
      then begin_session r body.username s'
      else (s', write_error 401 wrong_login)

  -- `login`.
  unfoldable pub login : Request → Server → Answered
  unfolding with_method with_body login_as
  login r = with_method post_method r (with_body (p.decoders.login r.body) (login_as r))

  -- `logout`.
  unfoldable pub logout : Request → Server → Answered
  unfolding with_method
  logout r = with_method post_method r (λ (s : Server). (
    record s { session = clear s.session r.cookie },
    record (write_json 200 ok_true) { set_cookie = some (cleared_cookie r.secure) },
  ))

  -- `me`.
  unfoldable pub me : Request → Server → Answered
  unfolding with_method
  me r = with_method get_method r (λ (s : Server).
      let read = admin p.out t.io s.manager.store in
      (with_server_store s read.0, write_json 200 (username_of read.1.username)))

  -- The response of `events`.
  unfoldable pub event_stream : Response
  unfolding event_frames
  event_stream = record {
    status = 200;
    headers =
        (codes "Content-Type", codes "text/event-stream; charset=utf-8")
        ∷ (codes "Cache-Control", codes "no-cache")
        ∷ (codes "Connection", codes "keep-alive")
        ∷ (codes "X-Accel-Buffering", codes "no")
        ∷ [];
    set_cookie = none;
    body = stream (then_frames ready t.ready_sent (event_frames [] t.signals));
  }

  -- `events`: it subscribes, streams while the others go on, and unsubscribes.
  unfoldable pub events : Request → Manager → Reply
  unfolding with_method event_stream
  events r = with_method get_method r (λ (m : Manager).
      let subscribed = subscribe m in
      if not t.can_flush
      then (m, write_error 500 (says (codes "event stream is not supported")))
      else (unsubscribe subscribed.1 (t.meanwhile subscribed.0), event_stream))

  -- `case http.MethodPut` of `serverGroups` from where the body was decoded. It begins the
  -- goroutine below.
  unfoldable pub update_groups : ServerGroupsConfig → Server → Answered
  update_groups groups s =
      let answer = update_server_groups p.out t.io groups s.manager.store in
      let s' = with_server_store s answer.0 in
      elim answer.1 [
        | err e ↦ (s', write_error 400 (of_store e))
        | ok saved ↦ (record s' { applying = suc s'.applying }, write_json 200 (groups_of saved))
      ]

  -- `serverGroups`.
  unfoldable pub server_groups : Request → Server → Answered
  unfolding update_groups with_body
  server_groups r s =
      if text_eq r.method get_method
      then (
        s,
        write_json 200 (groups_of (natcat.Store.Groups.server_groups s.manager.store.db.options)),
      )
      else if text_eq r.method put_method
      then with_body (p.decoders.groups r.body) update_groups s
      else (s, method_not_allowed)

  -- The test of `applyServerGroupsToRunningInstances`.
  abbrev pub is_left_alone : InstanceConfig → Manager → Bool
  is_left_alone cfg m =
      not cfg.enabled
      || not (text_eq cfg.stun_mode group) && not (text_eq cfg.keep_alive_mode group)
      || not (is_running m cfg.id)

  -- A round of its loop, and the loop; the errors are dropped.
  unfoldable pub apply_one : InstanceConfig → Manager → Manager
  apply_one cfg m =
      if is_left_alone cfg m
      then m
      else (replace_config p.out t.wait t.io t.now t.later cfg cfg true m).0

  unfoldable pub apply_each : List InstanceConfig → Manager → Manager
  unfolding apply_one
  apply_each [] m = m
  apply_each (cfg ∷ rest) m = apply_each rest (apply_one cfg m)

  -- `applyServerGroupsToRunningInstances`, when a goroutine that was begun runs.
  unfoldable pub apply_server_groups : Server → Server
  unfolding apply_each
  apply_server_groups s = record s {
    manager = apply_each (list_instances s.manager.store) s.manager;
    applying = s.applying - 1;
  }

  -- `requireAuth`.
  unfoldable pub require_auth : Request → (Server → Answered) → Server → Answered
  require_auth r next s =
      let checked = valid s.session t.now r.cookie in
      let s' = record s { session = checked.0 } in
      if checked.1 then next s' else (s', write_error 401 (says (codes "需要登录")))

  -- The handler of `staticHandler`.
  unfoldable pub static_handler : Request → Response
  static_handler r =
      if has_prefix r.path (codes "/api/")
      then not_found
      else let rest = trim_prefix r.path (codes "/") in
        let path = if is_nil rest then codes "index.html" else rest in
        p.file_server (if p.has_static path then r.path else codes "/")

  -- `secureHeaders`.
  unfoldable pub secure_headers : Response → Response
  secure_headers response = record response {
    headers =
        (codes "X-Content-Type-Options", codes "nosniff")
        ∷ (codes "Referrer-Policy", codes "same-origin")
        ∷ (codes "X-Frame-Options", codes "DENY")
        ∷ response.headers;
  }

  unfoldable pub by_route : Route → Request → Server → Answered
  unfolding login logout me events server_groups instances instance_by_id require_auth
      static_handler
  by_route login_route r s = login r s
  by_route logout_route r s = require_auth r (logout r) s
  by_route me_route r s = require_auth r (me r) s
  by_route events_route r s = require_auth r (on_manager (events r)) s
  by_route groups_route r s = require_auth r (server_groups r) s
  by_route instances_route r s = require_auth r (on_manager (instances p t r)) s
  by_route instance_route r s = require_auth r (on_manager (instance_by_id p t r)) s
  by_route static_route r s = (s, static_handler r)

  -- The redirection of `ServeMux`, without the query.
  abbrev pub moved : Text → Response
  moved path = record {
    status = 301;
    headers = (codes "Location", path) ∷ [];
    set_cookie = none;
    body = moved_page path;
  }

  -- The path goes to a handler as it is.
  abbrev pub is_direct : Request → Bool
  is_direct r = text_eq (clean_path r.path) r.path || text_eq r.method (codes "CONNECT")

  -- `Handler`.
  unfoldable pub serve : Request → Server → Answered
  unfolding by_route route secure_headers
  serve r s =
      let served = by_route (route r.path) r s in
      let answer = if is_direct r then served else (s, moved (clean_path r.path)) in
      (answer.0, secure_headers answer.1)
