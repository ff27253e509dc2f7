-- ===== src/Store/Saved.antt =====
-- The public addresses that a store keeps over restarts: internal/core/store.go, `RuntimeStatus`
-- to `ClearRuntimeStatus`. `current == next` compares the instants of the two times only; where Go
-- tells two forms of one instant apart, it saves once more.
use natcat.Base.{
  Bool, List, Option, false, if◌then◌else◌, is_nil, is_some, none, not, some, ◌&&◌, ◌==◌, ◌||◌,
}
use natcat.Dict.{get, put, remove}
use natcat.Int.{eq_ℤ, pos, ℤ}
use natcat.Result.{ok}
use natcat.Store.{Answer, Io, Outside, Store, save}
use natcat.Text.{Text, text_eq}
use natcat.Types.{PersistedRuntimeStatus, RuntimeStatus, empty_status}

unfoldable pub persist : RuntimeStatus → PersistedRuntimeStatus
persist st = record {
  public_address = st.public_address;
  public_port = st.public_port;
  public_stable_since = st.public_stable_since;
  public_updated_at = st.public_updated_at;
  private_address = st.private_address;
  private_port = st.private_port;
  protocol = st.protocol;
}

unfoldable pub restore : PersistedRuntimeStatus → RuntimeStatus
restore st = record empty_status {
  public_address = st.public_address;
  public_port = st.public_port;
  public_stable_since = st.public_stable_since;
  public_updated_at = st.public_updated_at;
  private_address = st.private_address;
  private_port = st.private_port;
  protocol = st.protocol;
}

unfoldable pub same_persisted : PersistedRuntimeStatus → PersistedRuntimeStatus → Bool
same_persisted a b =
    text_eq a.public_address b.public_address
    && eq_ℤ a.public_port b.public_port
    && (a.public_stable_since == b.public_stable_since)
    && (a.public_updated_at == b.public_updated_at)
    && text_eq a.private_address b.private_address
    && eq_ℤ a.private_port b.private_port
    && text_eq a.protocol b.protocol

abbrev pub no_public : Text → ℤ → Bool
no_public address port = is_nil address || eq_ℤ port (pos 0)

-- `RuntimeStatus`.
unfoldable pub runtime_status : Store → Text → Option RuntimeStatus
unfolding restore
runtime_status s id = elim (get id s.db.runtime) [
  | none ↦ none
  | some st ↦ if no_public st.public_address st.public_port then none else some (restore st)
]

abbrev pub put_runtime : Store → List (Text × PersistedRuntimeStatus) → Store
put_runtime s runtime = record s { db = record (s.db) { runtime = runtime } }

module _ (out : Outside) where
  -- `SaveRuntimeStatus`.
  unfoldable pub save_runtime_status : Io → Text → RuntimeStatus → Store → Answer (Unit {0})
  unfolding persist same_persisted
  save_runtime_status io id st s =
      if is_nil id || no_public st.public_address st.public_port
      then (s, ok tt)
      else let next = persist st in
        if elim (get id s.db.runtime) [ none ↦ false | some current ↦ same_persisted current next ]
        then (s, ok tt)
        else save out io (put_runtime s (put id next s.db.runtime))

  -- `ClearRuntimeStatus`.
  unfoldable pub clear_runtime_status : Io → Text → Store → Answer (Unit {0})
  clear_runtime_status io id s =
      if is_nil id || not (is_some (get id s.db.runtime))
      then (s, ok tt)
      else save out io (put_runtime s (remove id s.db.runtime))
