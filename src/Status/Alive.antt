-- ===== src/Status/Alive.antt =====
-- The keep-alive session in a status.
use natcat.Base.{Option, arith, false, none, true, ◌≡◌}
use natcat.Int.{eq_ℤ_iff}
use natcat.Notify.{plain}
use natcat.Status.{
  belongs_to_run, clear_public, is_connected, merge, merge_fields, merge_keep_alive, merge_rest,
  merge_state, report_clears_keep_alive, same_session, set_state, state_blocks_keep_alive,
  state_clears_keep_alive,
}
use natcat.Text.{Text, text_eq_iff}
use natcat.Types.{KeepAlive, RuntimeStatus, State, Time, is_zero, no_keep, no_state}

-- An instance that is stopped or stopping shows no keep-alive session.
abbrev pub IsQuiet : RuntimeStatus → Type 0
IsQuiet st = state_blocks_keep_alive st.state ≡ true → st.keep_alive ≡ no_keep

merge_state-IsQuiet : (cur u : RuntimeStatus) → IsQuiet cur → IsQuiet (merge_state cur u)
unfolding merge_state report_clears_keep_alive
merge_state-IsQuiet cur u q = λ blocked. ground (arith, q)

merge_fields-IsQuiet : (cur u : RuntimeStatus) → IsQuiet cur → IsQuiet (merge_fields cur u)
unfolding merge_fields
merge_fields-IsQuiet cur u q = q

merge_keep_alive-IsQuiet : (cur u : RuntimeStatus) → IsQuiet cur → IsQuiet (merge_keep_alive cur u)
unfolding merge_keep_alive
merge_keep_alive-IsQuiet cur u q = λ blocked. ground (arith, q)

-- Reports keep it so, whatever they say of a session, for an instance that stops or is stopped
-- already.
pub merge-IsQuiet : (now : Time) (cur u : RuntimeStatus) → IsQuiet cur → IsQuiet (merge now cur u)
unfolding merge merge_rest
merge-IsQuiet now cur u q =
    merge_keep_alive-IsQuiet _ u (merge_fields-IsQuiet _ u (merge_state-IsQuiet cur u q))

-- So do the changes of state by the manager, and the reset of the public address.
pub set_state-IsQuiet :
    (now : Time) (st : RuntimeStatus) (state : State) (message : Text) (failure : Option Text)
    → IsQuiet (set_state now st state message failure) × (IsQuiet st → IsQuiet (clear_public st))
unfolding set_state clear_public state_clears_keep_alive state_blocks_keep_alive
set_state-IsQuiet now st state message failure = ((λ blocked. ground arith), λ q. q)

-- The two name the same server: protocol, address and port.
abbrev pub NamesSame : KeepAlive → KeepAlive → Type 0
NamesSame a b = (a.protocol ≡ b.protocol) × (a.address ≡ b.address) × (a.port ≡ b.port)

-- A report that names neither a state nor a start comes to an instance that is not stopped or
-- stopping and whose session, which belongs to its run, has begun at some time. If both say that a
-- session is connected, then the status takes the session of the report, and keeps the time at
-- which the session began exactly if protocol, address and port are the same.
pub merge-connected_at :
    (now : Time) (cur u : RuntimeStatus)
    → u.state ≡ no_state
    → u.started_at ≡ none
    → state_blocks_keep_alive cur.state ≡ false
    → is_connected cur.keep_alive.state ≡ true
    → is_connected u.keep_alive.state ≡ true
    → belongs_to_run cur ≡ true
    → is_zero cur.keep_alive.connected_at ≡ false
    → (NamesSame u.keep_alive cur.keep_alive
        → (merge now cur u).keep_alive
          ≡ record (u.keep_alive) { connected_at = cur.keep_alive.connected_at })
      × (¬ NamesSame u.keep_alive cur.keep_alive → (merge now cur u).keep_alive ≡ u.keep_alive)
unfolding merge merge_rest merge_keep_alive merge_fields merge_state same_session belongs_to_run
merge-connected_at now cur u plain none_started open_state on_before on_now owned begun =
    let protocol = text_eq_iff u.keep_alive.protocol cur.keep_alive.protocol in
    let address = text_eq_iff u.keep_alive.address cur.keep_alive.address in
    let port = eq_ℤ_iff u.keep_alive.port cur.keep_alive.port in
    rw (plain, none_started)
      (
        (λ same. ground (arith, same, protocol, address, port)),
        λ other. ground (arith, other, protocol, address, port),
      )
