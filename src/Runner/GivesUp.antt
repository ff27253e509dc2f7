-- ===== src/Runner/GivesUp.antt =====
-- How a reconnection ends: internal/core/runner.go, `reconnectTCPKeepAliveForProbe` and
-- `reconnectQUICKeepAliveForProbe`.
use mathlib.Core.List.{Mem, mem-cons_of_mem, mem-cons_self}
use natcat.Base.{
  Bool, Bool-cases, List, Option, [], ap, arith, false, inl, inr, is_some, length, ltb, none, refl,
  some, subst, suc, sym, true, zero, ℕ, ◌+◌, ◌<◌, ◌∙◌, ◌∷◌, ◌≡◌, ◌≤◌, ◌⊎◌,
}
use natcat.Result.{err, ok}
use natcat.Rotation.{Cursors, ordered_server_endpoints}
use natcat.Rotation.Order.{ordered_server_endpoints-perm}
use natcat.Runner.{RunError, failed, stopped_run}
use natcat.Runner.Reconnect.{
  Attempt, Pass, Reconnected, Ways, after_pass, ends_with, none_answers, pass_over, port_lost,
  reconnect, reconnect_tcp_keep_alive_for_probe, session, tcp_ways,
}
use natcat.Runner.Select.{Chosen, Tries, Try, connects, no_answer, no_connection, unresolved}
use natcat.Runner.Session.{is_end}
use natcat.Text.{Text}
use natcat.Types.{ServerEndpoint}
use mathlib.Core.List.Perm

-- A server of the list that answered in one of the attempts, with its latency.
abbrev pub HasAnswered : (ℕ → Attempt) → List ServerEndpoint → ServerEndpoint → ℕ → Type 0
HasAnswered attempts endpoints e latency =
    (k : ℕ) × Mem e endpoints × ((attempts k).tries e ≡ connects latency)

same_session_of : (a b : ServerEndpoint) (m n : ℕ) → session a m ≡ session b n → (a ≡ b) × (m ≡ n)
same_session_of a b m n h = (cc, cc)

-- The errors that a pass ends with close the session or stop the run.
abbrev is_good_pass : Pass → Bool
is_good_pass (session e latency) = true
is_good_pass (ends_with e advances) = is_end true e
is_good_pass (none_answers e) = true

module _ (loses_port : RunError → Bool) (tries : Tries) (nothing : Text) where
  pass-step :
      (first : ServerEndpoint) (order : List ServerEndpoint) (last : Option RunError) (way : Try)
      → tries first ≡ way
      → ((last' : Option RunError) × (pass_over loses_port tries nothing (first ∷ order) last
            ≡ pass_over loses_port tries nothing order last'))
        ⊎ (((latency : ℕ) × (way ≡ connects latency)
              × (pass_over loses_port tries nothing (first ∷ order) last ≡ session first latency))
            ⊎ ((e : RunError) × (advances : Bool) × (is_end true e ≡ true)
                × (pass_over loses_port tries nothing (first ∷ order) last ≡ ends_with e advances)))
  unfolding pass_over
  pass-step first order last (unresolved message) w = inl (some (failed message), ground (arith, w))
  pass-step first order last (connects latency) w = inr (inl (latency, refl, ground (arith, w)))
  pass-step first order last (no_answer e is_over) w = inl (some e, ground (arith, w))
  pass-step first order last (no_connection e true) w =
      inr (inr (stopped_run, false, refl, ground (arith, w)))
  pass-step first order last (no_connection e false) w = elim (Bool-cases (loses_port e)) [
    | inl lost ↦ inr (inr (port_lost e, true, refl, ground (arith, w, lost)))
    | inr kept ↦ inl (some e, ground (arith, w, kept))
  ]

  pass_over-session :
      (order : List ServerEndpoint) (last : Option RunError) (e : ServerEndpoint) (latency : ℕ)
      → pass_over loses_port tries nothing order last ≡ session e latency
      → Mem e order × (tries e ≡ connects latency)
  unfolding pass_over
  pass_over-session [] last e latency h = ground (arith, h)
  pass_over-session (first ∷ order) last e latency h =
      elim (pass-step first order last (tries first) refl) [
        | inl (last', same) ↦
            let rest = pass_over-session order last' e latency (sym same ∙ h) in
            (mem-cons_of_mem first (rest.0), rest.1)
        | inr (inl (found, w, same)) ↦
            let it = same_session_of first e found latency (sym same ∙ h) in
            (
              subst (λ x. Mem x (first ∷ order)) (it.0) mem-cons_self,
              subst (λ x. tries x ≡ connects latency) (it.0) (w ∙ ap connects (it.1)),
            )
        | inr (inr (f, advances, good, same)) ↦ ground (arith, h, same)
      ]

  pass_over-good :
      (order : List ServerEndpoint) (last : Option RunError)
      → is_good_pass (pass_over loses_port tries nothing order last) ≡ true
  unfolding pass_over
  pass_over-good [] last = refl
  pass_over-good (first ∷ order) last = elim (pass-step first order last (tries first) refl) [
    | inl (last', same) ↦ ap is_good_pass same ∙ pass_over-good order last'
    | inr (inl (found, w, same)) ↦ ap is_good_pass same
    | inr (inr (f, advances, good, same)) ↦ ap is_good_pass same ∙ good
  ]

module _ (prefix : Text) (a : Attempt) (number count : ℕ) (cs : Cursors) (rest : Reconnected) where
  abbrev after : Pass → Option Chosen
  after p = (after_pass prefix a number count cs p rest).result

  after-session :
      (p : Pass) (e : ServerEndpoint) (latency : ℕ)
      → after p ≡ some (ok (e, latency))
      → (p ≡ session e latency) ⊎ (rest.result ≡ some (ok (e, latency)))
  unfolding after_pass
  after-session (session f n) e latency h = inl (ground (arith, h))
  after-session (ends_with f advances) e latency h = ground (arith, h)
  after-session (none_answers f) e latency h = inr (ground (arith, h))

  after-error :
      (p : Pass) (e : RunError)
      → is_good_pass p ≡ true
      → after p ≡ some (err e)
      → (is_end true e ≡ true) ⊎ (rest.result ≡ some (err e))
  unfolding after_pass
  after-error (session f n) e good h = ground (arith, h)
  after-error (ends_with f advances) e good h = inl (ground (arith, good, h))
  after-error (none_answers f) e good h = ground (arith, h)

  after-some :
      (p : Pass)
      → (is_some rest.result ≡ true) ⊎ ((3 ≤ number) × (1 < count))
      → is_some (after p) ≡ true
  unfolding after_pass
  after-some (session f n) given = refl
  after-some (ends_with f advances) given = refl
  after-some (none_answers f) given = ground (arith, given)

stopped_error :
    (f : RunError) (found : Option Chosen)
    → found ≡ some (err stopped_run)
    → found ≡ some (err f)
    → is_end true f ≡ true
stopped_error f found stops h = ground (arith, stops, h)

module _ (w : Ways) (attempts : ℕ → Attempt) (current : ServerEndpoint)
    (endpoints : List ServerEndpoint) where
  abbrev outcome : ℕ → ℕ → Cursors → Option Chosen
  outcome fuel number cs = (reconnect w attempts current endpoints fuel number cs).result

  abbrev order_at : Cursors → Cursors × List ServerEndpoint
  order_at cs = ordered_server_endpoints cs w.kind endpoints (some current)

  -- The attempt that comes next stops the run, or goes on as its pass tells.
  attempt-cases :
      (fuel number : ℕ) (cs : Cursors)
      → (outcome (suc fuel) number cs ≡ some (err stopped_run))
        ⊎ (outcome (suc fuel) number cs
            ≡ after w.prefix
                (attempts number)
                (suc number)
                (length endpoints)
                (order_at cs).0
                (reconnect w attempts current endpoints fuel (suc number) (order_at cs).0)
                (pass_over w.loses_port (attempts number).tries w.nothing (order_at cs).1 none))
  unfolding reconnect
  attempt-cases fuel number cs = elim (Bool-cases (attempts number).begins_done) [
    | inl e ↦ inl (ground (arith, e))
    | inr e ↦ inr (ground (arith, e))
  ]

  reconnect-some :
      (fuel number : ℕ) (cs : Cursors)
      → 1 < length endpoints
      → 3 ≤ number + fuel
      → number < 3
      → is_some (outcome fuel number cs) ≡ true
  unfolding reconnect
  reconnect-some zero number cs many enough early = ground (arith, enough, early)
  reconnect-some (suc fuel) number cs many enough early = elim (attempt-cases fuel number cs) [
    | inl e ↦ ap is_some e
    | inr e ↦
        ap is_some e
        ∙ after-some w.prefix (attempts number) (suc number) (length endpoints) (order_at cs).0
            (reconnect w attempts current endpoints fuel (suc number) (order_at cs).0) _
            (elim (Bool-cases (ltb (suc number) 3)) [
              | inl more ↦ inl (
                  reconnect-some fuel (suc number) (order_at cs).0 many (omega (arith, enough))
                    (ground (arith, more)))
              | inr third ↦ inr (ground (arith, third), many)
            ])
  ]

  reconnect-HasAnswered :
      (fuel number : ℕ) (cs : Cursors) (e : ServerEndpoint) (latency : ℕ)
      → outcome fuel number cs ≡ some (ok (e, latency))
      → HasAnswered attempts endpoints e latency
  unfolding reconnect
  reconnect-HasAnswered zero number cs e latency h = ground (arith, h)
  reconnect-HasAnswered (suc fuel) number cs e latency h = elim (attempt-cases fuel number cs) [
    | inl stops ↦ ground (arith, h, stops)
    | inr goes ↦
        elim (after-session w.prefix (attempts number) (suc number) (length endpoints)
          (order_at cs).0 (reconnect w attempts current endpoints fuel (suc number) (order_at cs).0)
          _ e latency (sym goes ∙ h)) [
            | inl found ↦
                let it =
                  pass_over-session w.loses_port (attempts number).tries w.nothing (order_at cs).1
                    none e latency found in
                (
                  number,
                  Perm.subset (ordered_server_endpoints-perm cs w.kind endpoints (some current)) e
                      (it.0),
                  it.1,
                )
            | inr later ↦ reconnect-HasAnswered fuel (suc number) (order_at cs).0 e latency later
          ]
  ]

  reconnect-is_end :
      (fuel number : ℕ) (cs : Cursors) (e : RunError)
      → outcome fuel number cs ≡ some (err e)
      → is_end true e ≡ true
  unfolding reconnect
  reconnect-is_end zero number cs e h = ground (arith, h)
  reconnect-is_end (suc fuel) number cs e h = elim (attempt-cases fuel number cs) [
    | inl stops ↦ stopped_error e _ stops h
    | inr goes ↦
        elim (after-error w.prefix (attempts number) (suc number) (length endpoints) (order_at cs).0
          (reconnect w attempts current endpoints fuel (suc number) (order_at cs).0) _ e
          (pass_over-good w.loses_port (attempts number).tries w.nothing (order_at cs).1 none)
          (sym goes ∙ h)) [
            | inl good ↦ good
            | inr later ↦ reconnect-is_end fuel (suc number) (order_at cs).0 e later
          ]
  ]

-- With two servers or more, a reconnection over TCP ends in three attempts at most, whatever the
-- servers come to. However many attempts it may have: the server of a session that it returns is
-- one of the list, which answered in one of the attempts with that latency, and an error that it
-- returns closes the session or stops the run.
pub reconnect_tcp_lem :
    (attempts : ℕ → Attempt) (current : ServerEndpoint) (endpoints : List ServerEndpoint)
    (cs : Cursors)
    → let outcome = λ (fuel : ℕ).
      (reconnect_tcp_keep_alive_for_probe attempts current endpoints fuel cs).result in
      (1 < length endpoints → (fuel : ℕ) → 3 ≤ fuel → is_some (outcome fuel) ≡ true)
      × ((fuel : ℕ) (e : ServerEndpoint) (latency : ℕ)
          → outcome fuel ≡ some (ok (e, latency))
          → HasAnswered attempts endpoints e latency)
      × ((fuel : ℕ) (e : RunError) → outcome fuel ≡ some (err e) → is_end true e ≡ true)
unfolding reconnect_tcp_keep_alive_for_probe
reconnect_tcp_lem attempts current endpoints cs = (
  (λ many fuel enough.
      reconnect-some tcp_ways attempts current endpoints fuel 0 cs many (omega (arith, enough))
        (omega arith)),
  (λ fuel e latency h.
      reconnect-HasAnswered tcp_ways attempts current endpoints fuel 0 cs e latency h),
  λ fuel e h. reconnect-is_end tcp_ways attempts current endpoints fuel 0 cs e h,
)
