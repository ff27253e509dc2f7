-- ===== src/Server/Good.antt =====
-- The invariant of the web server: internal/server/server.go, through every request and through the
-- goroutine that applies new server lists.
use natcat.Auth.{check_password}
use natcat.Base.{
  Bool-cases, List, Option-cases, [], arith, inl, inr, not, some, subst, sym, true, ◌∷◌, ◌≡◌,
}
use natcat.Manager.{Manager, subscribe, unsubscribe}
use natcat.Manager.Steps.{stores, subscribes, unsubscribes}
use natcat.Manager.Well.{Step-IsWell}
use natcat.Result.{Result-cases}
use natcat.Server.{
  Answered, Login, Moment, Packages, Reply, Request, Server, get_method, post_method, put_method,
}
use natcat.Server.Kept.{IsFit, IsKept, KeepsFit, admin-IsFit, replace_config-IsKept}
use natcat.Server.Requests.{
  Keeps, answer-Keeps, if-Keeps, instance_by_id-Keeps, instances-Keeps, with_body-Keeps,
  with_method-Keeps,
}
use natcat.Server.Routes.{
  Route, apply_each, apply_one, apply_server_groups, begin_session, by_route, event_stream, events,
  events_route, groups_route, instance_route, instances_route, is_direct, is_left_alone, login,
  login_as, login_route, logout, logout_route, me, me_route, on_manager, require_auth, route, serve,
  server_groups, static_route, update_groups, with_server_store,
}
use natcat.Sessions.{SessionStore, new_token, valid}
use natcat.Sessions.Life.{HasUniqueTokens, sessions-HasUniqueTokens}
use natcat.Store.{Io, Outside, Store, admin}
use natcat.Store.Groups.{put_groups, update_server_groups}
use natcat.Store.Instances.{list_instances}
use natcat.Store.Items.{IsUnique, save-items}
use natcat.Store.Sound.{store-IsSound}
use natcat.Text.{Text, text_eq}
use natcat.Types.{InstanceConfig, ServerGroupsConfig, no_config}

-- The manager is well, the instances of its store are different and sound, and the tokens of the
-- sessions are different.
abbrev pub IsGood : Outside → Server → Type 0
IsGood out s = IsKept out s.manager × HasUniqueTokens s.session.items

update_server_groups-items :
    (out : Outside) (io : Io) (g : ServerGroupsConfig) (s : Store)
    → (update_server_groups out io g s).0.db.items ≡ s.db.items
unfolding update_server_groups
update_server_groups-items out io g s = ground (
  arith,
  save-items out io (record s { db = record (s.db) { options = put_groups g s.db.options } }),
)

module _ (p : Packages) (t : Moment) (waits : KeepsFit p.out (λ m. (t.wait m).0))
    (keeps : KeepsFit p.out t.meanwhile) where
  abbrev Good : Server → Type 0
  Good = IsGood p.out

  with_server_store-Good :
      (s : Server) (store : Store) → Good s → IsFit p.out store → Good (with_server_store s store)
  with_server_store-Good s store good fit =
      ((Step-IsWell p.out _ _ (stores store s.manager) (good.0.0), fit), good.1)

  admin-Good :
      (s : Server) → Good s → Good (with_server_store s (admin p.out t.io s.manager.store).0)
  admin-Good s good =
      with_server_store-Good s _ good (admin-IsFit p.out t.io s.manager.store (good.0.1))

  begin_session-Keeps : (r : Request) (name : Text) → Keeps Good (begin_session p t r name)
  unfolding begin_session Keeps
  begin_session-Keeps r name s good = elim (Option-cases (new_token t.random)) [
    | inl e ↦ rw (begin_session, e) good
    | inr (token, e) ↦
        rw (begin_session, e)
          (good.0, (sessions-HasUniqueTokens s.session t.now (some token) (good.1)).0)
  ]

  login_as-Keeps : (r : Request) (body : Login) → Keeps Good (login_as p t r body)
  unfolding login_as Keeps
  login_as-Keeps r body s good =
      let read = admin-Good s good in
      let right =
        check_password p.crypto (admin p.out t.io s.manager.store).1 body.username body.password in
      elim (Bool-cases right) [
        | inl e ↦ rw (login_as, e) (begin_session-Keeps r body.username _ read)
        | inr e ↦ rw (login_as, e) read
      ]

  login-Keeps : (r : Request) → Keeps Good (login p t r)
  unfolding login
  login-Keeps r =
      with_method-Keeps Good post_method r _
        (with_body-Keeps Good (p.decoders.login r.body) _ (login_as-Keeps r))

  logout-Keeps : (r : Request) → Keeps Good (logout p t r)
  unfolding logout Keeps
  logout-Keeps r =
      with_method-Keeps Good post_method r _
        (λ s good. (good.0, (sessions-HasUniqueTokens s.session t.now r.cookie (good.1)).2))

  me-Keeps : (r : Request) → Keeps Good (me p t r)
  unfolding me Keeps
  me-Keeps r = with_method-Keeps Good get_method r _ (λ s good. admin-Good s good)

  stream-Keeps : Keeps (IsKept p.out) (λ (m : Manager).
      let subscribed = subscribe m in
      (unsubscribe subscribed.1 (t.meanwhile subscribed.0), event_stream p t))
  unfolding Keeps subscribe unsubscribe
  stream-Keeps m kept =
      let after = keeps (subscribe m).0 (Step-IsWell p.out _ _ (subscribes m) (kept.0), kept.1) in
      (Step-IsWell p.out _ _ (unsubscribes (subscribe m).1 _) (after.0), after.1)

  events-Keeps : (r : Request) → Keeps (IsKept p.out) (events p t r)
  unfolding events
  events-Keeps r =
      with_method-Keeps (IsKept p.out) get_method r _
        (if-Keeps (IsKept p.out) (not t.can_flush) _ _ (answer-Keeps (IsKept p.out) _) stream-Keeps)

  update_groups-Keeps : (groups : ServerGroupsConfig) → Keeps Good (update_groups p t groups)
  unfolding update_groups Keeps
  update_groups-Keeps groups s good =
      let store = s.manager.store in
      let sound = store-IsSound p.out t.io [] [] no_config groups store (good.0.1.1) in
      let stored = with_server_store-Good s (update_server_groups p.out t.io groups store).0 good (
        subst IsUnique (sym (update_server_groups-items p.out t.io groups store)) (good.0.1.0),
        sound.3,
      ) in
      elim (Result-cases (update_server_groups p.out t.io groups store).1) [
        | inl (saved, e) ↦ rw (update_groups, e) stored
        | inr (f, e) ↦ rw (update_groups, e) stored
      ]

  server_groups-Keeps : (r : Request) → Keeps Good (natcat.Server.Routes.server_groups p t r)
  unfolding natcat.Server.Routes.server_groups
  server_groups-Keeps r = if-Keeps Good (text_eq r.method get_method) _ _ (answer-Keeps Good _) (
      if-Keeps Good (text_eq r.method put_method) _ _
        (with_body-Keeps Good (p.decoders.groups r.body) _ update_groups-Keeps)
        (answer-Keeps Good _))

  on_manager-Keeps :
      (handler : Manager → Reply) → Keeps (IsKept p.out) handler → Keeps Good (on_manager handler)
  unfolding Keeps
  on_manager-Keeps handler held s good = (held s.manager (good.0), good.1)

  put_session-Good :
      (s : Server) (session : SessionStore)
      → Good s
      → HasUniqueTokens session.items
      → Good (record s { session = session })
  put_session-Good s session good unique = (good.0, unique)

  require_auth-Keeps :
      (r : Request) (next : Server → Answered)
      → Keeps Good next
      → Keeps Good (require_auth p t r next)
  unfolding require_auth Keeps
  require_auth-Keeps r next held s good =
      let checked =
        put_session-Good s (valid s.session t.now r.cookie).0 good
          (sessions-HasUniqueTokens s.session t.now r.cookie (good.1)).1 in
      elim (Bool-cases (valid s.session t.now r.cookie).1) [
        | inl e ↦ rw (require_auth, e) (held _ checked)
        | inr e ↦ rw (require_auth, e) checked
      ]

  by_route-Keeps : (x : Route) (r : Request) → Keeps Good (by_route p t x r)
  unfolding by_route
  by_route-Keeps login_route r = login-Keeps r
  by_route-Keeps logout_route r = require_auth-Keeps r _ (logout-Keeps r)
  by_route-Keeps me_route r = require_auth-Keeps r _ (me-Keeps r)
  by_route-Keeps events_route r = require_auth-Keeps r _ (on_manager-Keeps _ (events-Keeps r))
  by_route-Keeps groups_route r = require_auth-Keeps r _ (server_groups-Keeps r)
  by_route-Keeps instances_route r =
      require_auth-Keeps r _ (on_manager-Keeps _ (instances-Keeps p t waits keeps r))
  by_route-Keeps instance_route r =
      require_auth-Keeps r _ (on_manager-Keeps _ (instance_by_id-Keeps p t waits keeps r))
  by_route-Keeps static_route r = answer-Keeps Good _

  serve-Keeps : (r : Request) → Keeps Good (serve p t r)
  unfolding serve Keeps
  serve-Keeps r s good = elim (Bool-cases (is_direct p t r)) [
    | inl e ↦ rw (serve, e) (by_route-Keeps (route r.path) r s good)
    | inr e ↦ rw (serve, e) good
  ]

  apply_one-IsKept :
      (cfg : InstanceConfig) (m : Manager) → IsKept p.out m → IsKept p.out (apply_one p t cfg m)
  unfolding apply_one
  apply_one-IsKept cfg m kept = elim (Bool-cases (is_left_alone p t cfg m)) [
    | inl e ↦ rw (apply_one, e) kept
    | inr e ↦
        rw (apply_one, e)
          (replace_config-IsKept p.out t.wait waits t.io t.now t.later cfg cfg true m kept)
  ]

  apply_each-IsKept :
      (configs : List InstanceConfig) (m : Manager)
      → IsKept p.out m
      → IsKept p.out (apply_each p t configs m)
  unfolding apply_each
  apply_each-IsKept [] m kept = kept
  apply_each-IsKept (cfg ∷ configs) m kept =
      apply_each-IsKept configs (apply_one p t cfg m) (apply_one-IsKept cfg m kept)

  -- Every request, whatever its method, path, cookie and body are and whatever the calls in it come
  -- to, keeps the invariant of the server, and so does the goroutine that applies new server lists
  -- to the running instances, if what the other goroutines do meanwhile keeps it: the manager is
  -- well, the ids of the instances are different, each of them is normal and can run with the
  -- server lists, and the tokens of the sessions are different.
  pub serve-IsGood :
      (r : Request) (s : Server)
      → IsGood p.out s
      → IsGood p.out (serve p t r s).0 × IsGood p.out (apply_server_groups p t s)
  unfolding serve apply_server_groups Keeps
  serve-IsGood r s good = (
    serve-Keeps r s good,
    (apply_each-IsKept (list_instances s.manager.store) s.manager (good.0), good.1),
  )
