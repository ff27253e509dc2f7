-- ===== src/Server/Requests.antt =====
-- What every request keeps: internal/server/server.go, the handlers with the sessions, the manager
-- and the store that they call.
use natcat.Base.{
  Bool, Bool-cases, List, Option, Option-cases, [], false, if◌then◌else◌, inl, inr, is_nil, none,
  some, true, ◌||◌, ◌∷◌,
}
use natcat.Config.{tcp}
use natcat.Int.{leb_ℤ, pos}
use natcat.Manager.{Manager, is_running, status_for}
use natcat.Manager.Control.{stop}
use natcat.Manager.PortCheck.{Dial, check_tcp_port}
use natcat.Manager.Steps.{stores}
use natcat.Manager.Well.{Step-IsWell}
use natcat.Result.{Result-cases}
use natcat.Server.{
  Moment, Packages, Request, Response, delete_method, get_method, post_method, put_method,
  with_body, with_method,
}
use natcat.Server.Instances.{
  by_action, by_method, by_parts, check_instance, create_instance, delete_by_id, get_by_id,
  instance_by_id, instances, path_parts, post_instance, put_by_id, replace_by_id, start_instance,
  stop_instance, test_notify_script, update_by_id, with_store,
}
use natcat.Server.Kept.{
  IsFit, IsKept, KeepsFit, apply_config-IsKept, replace_config-IsKept, report-IsKept, start-IsKept,
  stop-IsKept,
}
use natcat.Store.{Io, Outside, Store}
use natcat.Store.Instances.{add_instance, delete_instance, get_instance, update_instance}
use natcat.Store.Items.{instances-IsUnique}
use natcat.Store.Sound.{store-IsSound}
use natcat.Text.{Text, codes, text_eq}
use natcat.Types.{InstanceConfig, ServerGroupsConfig, Time, no_config}

-- The handler keeps the predicate.
unfoldable pub Keeps : {S : Type 0} → (S → Type 0) → (S → S × Response) → Type 0
Keeps P handler = (s : _) → P s → P (handler s).0

pub with_method-Keeps :
    {S : Type 0} (P : S → Type 0) (allowed : Text) (r : Request) (handler : S → S × Response)
    → Keeps P handler
    → Keeps P (with_method allowed r handler)
unfolding Keeps with_method
with_method-Keeps P allowed r handler keeps s old = elim (Bool-cases (text_eq r.method allowed)) [
  | inl e ↦ rw (with_method, e) (keeps s old)
  | inr e ↦ rw (with_method, e) old
]

pub with_body-Keeps :
    {S A : Type 0} (P : S → Type 0) (body : Option A) (handler : A → S → S × Response)
    → ((a : A) → Keeps P (handler a))
    → Keeps P (with_body body handler)
unfolding Keeps with_body
with_body-Keeps P none handler keeps s old = old
with_body-Keeps P (some a) handler keeps s old = keeps a s old

pub if-Keeps :
    {S : Type 0} (P : S → Type 0) (b : Bool) (f g : S → S × Response)
    → Keeps P f
    → Keeps P g
    → Keeps P (λ s. if b then f s else g s)
if-Keeps P true f g a c = a
if-Keeps P false f g a c = c

-- A handler that leaves the state alone.
pub answer-Keeps :
    {S : Type 0} (P : S → Type 0) (answer : S → Response) → Keeps P (λ s. (s, answer s))
unfolding Keeps
answer-Keeps P answer s old = old

abbrev pub no_groups : ServerGroupsConfig
no_groups = record {
  stun_servers = [];
  http_servers = [];
  quic_servers = [];
  stun_groups = [];
  keep_alive_groups = [];
}

put_store-IsKept :
    (out : Outside) (m : Manager) (s : Store)
    → IsKept out m
    → IsFit out s
    → IsKept out (with_store m s)
put_store-IsKept out m s kept fit = (Step-IsWell out _ _ (stores s m) (kept.0), fit)

check_tcp_port-IsKept :
    (out : Outside) (io : Io) (now : Time) (no_mapping : Text) (dial : Dial)
    (meanwhile : Manager → Manager) (id : Text) (m : Manager)
    → KeepsFit out meanwhile
    → IsKept out m
    → IsKept out (check_tcp_port out io now no_mapping dial meanwhile id m).0
unfolding check_tcp_port
check_tcp_port-IsKept out io now no_mapping dial meanwhile id m keeps kept =
    let st = status_for now m id in
    elim (Option-cases (get_instance m.store id)) [
      | inl e ↦ rw (check_tcp_port, e) kept
      | inr (cfg, e) ↦ elim (Bool-cases (text_eq cfg.protocol tcp)) [
        | inr other_protocol ↦ rw (check_tcp_port, e, other_protocol) kept
        | inl over_tcp ↦
            elim (Bool-cases (is_nil st.public_address || leb_ℤ st.public_port (pos 0))) [
              | inl lost ↦
                  rw (check_tcp_port, e, over_tcp, lost) (report-IsKept out io now id _ m kept)
              | inr mapped ↦
                  rw (check_tcp_port, e, over_tcp, mapped)
                    (report-IsKept out io now id _ (meanwhile m) (keeps m kept))
            ]
      ]
    ]

module _ (p : Packages) (t : Moment) (waits : KeepsFit p.out (λ m. (t.wait m).0))
    (keeps : KeepsFit p.out t.meanwhile) where
  abbrev Kept : Manager → Type 0
  Kept = IsKept p.out

  instance-stores :
      (id : Text) (cfg : InstanceConfig) (m : Manager)
      → Kept m
      → Kept (with_store m (add_instance p.out t.io t.fresh cfg m.store).0)
        × Kept (with_store m (update_instance p.out t.io id cfg m.store).0)
        × Kept (with_store m (delete_instance p.out t.io id m.store).0)
  instance-stores id cfg m kept =
      let unique = instances-IsUnique p.out t.io t.fresh id cfg m.store (kept.1.0) in
      let sound = store-IsSound p.out t.io t.fresh id cfg no_groups m.store (kept.1.1) in
      (
        put_store-IsKept p.out m _ kept (unique.0, sound.0),
        put_store-IsKept p.out m _ kept (unique.1, sound.1),
        put_store-IsKept p.out m _ kept (unique.2, sound.2),
      )

  start_instance-Keeps : (id : Text) (r : Request) → Keeps Kept (start_instance p t id r)
  unfolding start_instance Keeps
  start_instance-Keeps id r =
      with_method-Keeps Kept post_method r _ (λ m kept. start-IsKept p.out t.now id m kept)

  stop_instance-Keeps : (id : Text) (r : Request) → Keeps Kept (stop_instance p t id r)
  unfolding stop_instance Keeps
  stop_instance-Keeps id r =
      with_method-Keeps Kept post_method r _
        (λ m kept. stop-IsKept p.out t.wait waits t.now id m kept)

  check_instance-Keeps : (id : Text) (r : Request) → Keeps Kept (check_instance p t id r)
  unfolding check_instance Keeps
  check_instance-Keeps id r = with_method-Keeps Kept post_method r _ (λ m kept.
      check_tcp_port-IsKept p.out t.io t.now t.no_mapping t.dial t.meanwhile id m keeps kept)

  test_notify_script-Keeps : (id : Text) (r : Request) → Keeps Kept (test_notify_script p t id r)
  unfolding test_notify_script Keeps
  test_notify_script-Keeps id r =
      with_method-Keeps Kept post_method r _
        (with_body-Keeps Kept (p.decoders.notify r.body) _ (λ body m kept. kept))

  by_action-Keeps : (action id : Text) (r : Request) → Keeps Kept (by_action p t action id r)
  unfolding by_action
  by_action-Keeps action id r =
      if-Keeps Kept (text_eq action (codes "start")) _ _ (start_instance-Keeps id r) (
        if-Keeps Kept (text_eq action (codes "stop")) _ _ (stop_instance-Keeps id r) (
          if-Keeps Kept (text_eq action (codes "check")) _ _ (check_instance-Keeps id r) (
            if-Keeps Kept (text_eq action (codes "notify-test")) _ _ (test_notify_script-Keeps id r)
              (answer-Keeps Kept _))))

  update_by_id-Keeps :
      (id : Text) (old cfg : InstanceConfig) → Keeps Kept (update_by_id p t id old cfg)
  unfolding update_by_id replace_by_id Keeps
  update_by_id-Keeps id old cfg m kept =
      let stored = (instance-stores id cfg m kept).1 in
      elim (Result-cases (update_instance p.out t.io id cfg m.store).1) [
        | inl (updated, e) ↦
            rw (update_by_id, e)
              (replace_config-IsKept p.out t.wait waits t.io t.now t.later old updated
                (is_running m id) _ stored)
        | inr (f, e) ↦ rw (update_by_id, e) stored
      ]

  put_by_id-Keeps : (id : Text) (r : Request) → Keeps Kept (put_by_id p t id r)
  unfolding put_by_id Keeps
  put_by_id-Keeps id r m kept = elim (Option-cases (get_instance m.store id)) [
    | inl e ↦ rw (put_by_id, e) kept
    | inr (old, e) ↦
        rw (put_by_id, e)
          (with_body-Keeps Kept (p.decoders.config r.body) (update_by_id p t id old)
            (update_by_id-Keeps id old) m kept)
  ]

  delete_by_id-Keeps : (id : Text) → Keeps Kept (delete_by_id p t id)
  unfolding delete_by_id Keeps
  delete_by_id-Keeps id m kept =
      (instance-stores id no_config (stop t.wait t.now id m).0
        (stop-IsKept p.out t.wait waits t.now id m kept)).2

  by_method-Keeps : (id : Text) (r : Request) → Keeps Kept (by_method p t id r)
  unfolding by_method get_by_id
  by_method-Keeps id r = if-Keeps Kept (text_eq r.method get_method) _ _ (answer-Keeps Kept _) (
      if-Keeps Kept (text_eq r.method put_method) _ _ (put_by_id-Keeps id r) (
        if-Keeps Kept (text_eq r.method delete_method) _ _ (delete_by_id-Keeps id)
          (answer-Keeps Kept _)))

  by_parts-Keeps : (parts : List Text) (r : Request) → Keeps Kept (by_parts p t parts r)
  by_parts-Keeps [] r = answer-Keeps Kept _
  by_parts-Keeps (id ∷ []) r =
      if-Keeps Kept (is_nil id) _ _ (answer-Keeps Kept _) (by_method-Keeps id r)
  by_parts-Keeps (id ∷ action ∷ []) r =
      if-Keeps Kept (is_nil id) _ _ (answer-Keeps Kept _) (by_action-Keeps action id r)
  by_parts-Keeps (id ∷ action ∷ more ∷ rest) r = answer-Keeps Kept _

  pub instance_by_id-Keeps : (r : Request) → Keeps Kept (instance_by_id p t r)
  unfolding instance_by_id
  instance_by_id-Keeps r = by_parts-Keeps (path_parts r.path) r

  create_instance-Keeps : (cfg : InstanceConfig) → Keeps Kept (create_instance p t cfg)
  unfolding create_instance Keeps
  create_instance-Keeps cfg m kept =
      let stored = (instance-stores [] cfg m kept).0 in
      elim (Result-cases (add_instance p.out t.io t.fresh cfg m.store).1) [
        | inl (created, e) ↦
            rw (create_instance, e) (apply_config-IsKept p.out t.now created _ stored)
        | inr (f, e) ↦ rw (create_instance, e) stored
      ]

  pub instances-Keeps : (r : Request) → Keeps Kept (instances p t r)
  unfolding instances post_instance
  instances-Keeps r = if-Keeps Kept (text_eq r.method get_method) _ _ (answer-Keeps Kept _) (
      if-Keeps Kept (text_eq r.method post_method) _ _
        (with_body-Keeps Kept (p.decoders.config r.body) _ create_instance-Keeps)
        (answer-Keeps Kept _))
