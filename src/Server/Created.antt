-- ===== src/Server/Created.antt =====
-- An instance from its creation by a request to its deletion by another: internal/server/server.go.
use natcat.Base.{
  Option, ap, arith, if◌then◌else◌, inl, inr, is_some, none, refl, sym, true, ◌++◌, ◌∙◌, ◌≡◌, ◌≤◌,
}
use natcat.Dict.{text_eq_refl}
use natcat.Manager.{Manager, ManagerError}
use natcat.Manager.Control.{stop}
use natcat.Notify.{plain}
use natcat.Result.{Result-cases, err, is_ok}
use natcat.Server.{
  Moment, Packages, Request, Response, delete_method, get_method, of_manager, post_method,
  put_method, write_error, write_json,
}
use natcat.Server.Instances.{
  by_method, delete_by_id, instance_by_id, instances_path, start_instance, store_status,
}
use natcat.Server.Kept.{IsKept, KeepsFit, stop-IsKept}
use natcat.Server.Parts.{IsPlain, instance_by_id-plain}
use natcat.Server.Rest.{get-missing, put-missing, start-missing}
use natcat.Store.{Io, Outside, Store, StoreError}
use natcat.Store.Instances.{delete_instance, find_instance}
use natcat.Store.Laws.{get_instance-delete_instance}
use natcat.Store.Saved.{runtime_status}
use natcat.Text.{Text, text_eq}

if_gone : {A : Type 0} (id : Text) (y : Option A) → (if text_eq id id then none else y) ≡ none
if_gone id y = rw (text_eq_refl id) refl

store_status-large : (e : StoreError) → 400 ≤ store_status e
unfolding store_status
store_status-large StoreError.not_exist = omega arith
store_status-large _ = omega arith

delete_instance-found :
    (out : Outside) (io : Io) (id : Text) (s : Store)
    → is_ok (delete_instance out io id s).1 ≡ true
    → is_some (find_instance id s.db.items) ≡ true
unfolding delete_instance
delete_instance-found out io id s h = ground (arith, h)

module _ (p : Packages) (t : Moment) (waits : KeepsFit p.out (λ m. (t.wait m).0)) where
  abbrev left : Text → Manager → Manager
  left id m = (stop t.wait t.now id m).0

  by_method-delete :
      (id : Text) (r : Request) (m : Manager)
      → r.method ≡ delete_method
      → by_method p t id r m ≡ delete_by_id p t id m
  unfolding by_method natcat.Text.text_eq
  by_method-delete id r m e = rw (by_method, e) refl

  delete_by_id-err :
      (id : Text) (m : Manager) (e : StoreError)
      → (delete_instance p.out t.io id (left id m).store).1 ≡ err e
      → (delete_by_id p t id m).1.status ≡ store_status e
  unfolding delete_by_id write_error write_json
  delete_by_id-err id m e h = rw (delete_by_id, h) refl

  delete-ok :
      (id : Text) (m : Manager)
      → (delete_by_id p t id m).1.status ≡ 200
      → is_ok (delete_instance p.out t.io id (left id m).store).1 ≡ true
  delete-ok id m deleted = elim (Result-cases (delete_instance p.out t.io id (left id m).store).1) [
    | inl (u, h) ↦ ground (arith, h)
    | inr (e, h) ↦ ground (arith, deleted, delete_by_id-err id m e h, store_status-large e)
  ]

  method-gone :
      (later : Moment) (id : Text) (r reading replacing starting_it : Request) (m : Manager)
      → IsKept p.out m
      → r.method ≡ delete_method
      → reading.method ≡ get_method
      → replacing.method ≡ put_method
      → starting_it.method ≡ post_method
      → (by_method p t id r m).1.status ≡ 200
      → let after = (by_method p t id r m).0 in
        ((by_method p later id reading after).1.status ≡ 404)
        × ((by_method p later id replacing after).1.status ≡ 404)
        × (start_instance p later id starting_it after
            ≡ (after, write_error 404 (of_manager ManagerError.not_exist)))
        × (runtime_status after.store id ≡ none)
  unfolding by_method
  method-gone later id r reading replacing starting_it m kept d a b c deleted =
      let before = (left id m).store in
      let fit = (stop-IsKept p.out t.wait waits t.now id m kept).1 in
      let same = by_method-delete id r m d in
      let found =
        delete_instance-found p.out t.io id before
          (delete-ok id m (ground (arith, same, deleted))) in
      let gone = get_instance-delete_instance p.out t.io before id id (fit.0) found in
      rw same (
        get-missing p later id reading _ a (gone.0 ∙ if_gone id _),
        put-missing p later id replacing _ b (gone.0 ∙ if_gone id _),
        start-missing p later id starting_it _ c (gone.0 ∙ if_gone id _),
        gone.1 ∙ if_gone id _,
      )

  -- After a request to delete an instance whose id has no slash was answered with 200: a later
  -- request to read or replace it is answered with 404, one to start it is answered with 404 and
  -- changes nothing, and the store keeps no public address of it. The ids of the store are unique
  -- and the manager is well when the request begins, and what happens while the runner is waited
  -- for keeps this.
  pub delete-get :
      (later : Moment) (id : Text) (r reading replacing starting_it : Request) (m : Manager)
      → IsKept p.out m
      → IsPlain id
      → (r.method ≡ delete_method) × (r.path ≡ instances_path ++ id)
      → (reading.method ≡ get_method) × (reading.path ≡ instances_path ++ id)
      → (replacing.method ≡ put_method) × (replacing.path ≡ instances_path ++ id)
      → starting_it.method ≡ post_method
      → (instance_by_id p t r m).1.status ≡ 200
      → let after = (instance_by_id p t r m).0 in
        ((instance_by_id p later reading after).1.status ≡ 404)
        × ((instance_by_id p later replacing after).1.status ≡ 404)
        × (start_instance p later id starting_it after
            ≡ (after, write_error 404 (of_manager ManagerError.not_exist)))
        × (runtime_status after.store id ≡ none)
  delete-get later id r reading replacing starting_it m kept plain d a b c deleted =
      let at = instance_by_id-plain p t id r m plain (d.1) in
      let status = λ (x : Manager × Response). x.1.status in
      let gone =
        method-gone later id r reading replacing starting_it m kept (d.0) (a.0) (b.0) c
          (ap status (sym at) ∙ deleted) in
      rw at (
        ap status (instance_by_id-plain p later id reading _ plain (a.1)) ∙ gone.0,
        ap status (instance_by_id-plain p later id replacing _ plain (b.1)) ∙ gone.1,
        gone.2,
        gone.3,
      )
