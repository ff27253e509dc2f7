-- ===== src/Runner/Tcp/Held.antt =====
-- What a run over TCP holds behind its events, and the connections of the loops over the servers:
-- internal/core/runner.go, `openTCPKeepAliveFromServers` and `reconnectTCPKeepAliveForProbe`.
use mathlib.Core.List.{append-nil}
use natcat.Base.{
  Bool, Bool-cases, List, Option, Option-cases, [], ap, arith, false, if◌then◌else◌, inl, inr, leb,
  length, ltb, map, none, refl, some, suc, true, zero, ℕ, ◌&&◌, ◌++◌, ◌==◌, ◌||◌, ◌∙◌, ◌∷◌, ◌≡◌,
}
use natcat.Result.{is_ok}
use natcat.Rotation.{Cursors, ordered_server_endpoints}
use natcat.Runner.{RunError, failed}
use natcat.Runner.Reconnect.{
  Attempt, Pass, Reconnected, Ways, after_links, after_pass, ends_with, none_answers, pass_links,
  pass_over, reconnect, session,
}
use natcat.Runner.Select.{
  Chosen, Link, Tries, Try, closes, connects, no_answer, no_connection, open_each, open_links,
  opens, unresolved,
}
use natcat.Runner.Tcp.{
  Event, advances_port, binds, cancels, keeps_port, link, reconnects, starts, tells, warns,
}
use natcat.Text.{Text}
use natcat.Types.{ServerEndpoint}

-- The public probe whose context is not cancelled, by its number, and whether the connection is
-- open.
abbrev pub Held : Type 0
Held = Option ℕ × Bool

abbrev pub nothing_held : Held
nothing_held = (none, false)

-- What is held behind an event. None where the event breaks the rule: a connection is opened where
-- none is open, a probe begins beside an open connection and no other such probe, the probe that is
-- cancelled is that one, and the connection is closed after its probe is cancelled.
abbrev pub held_after : Event → Held → Option Held
held_after (link (opens e)) (none, false) = some (none, true)
held_after (link (opens e)) (none, true) = none
held_after (link (opens e)) (some m, port_used) = none
held_after (starts n) (none, true) = some (some n, true)
held_after (starts n) (none, false) = none
held_after (starts n) (some m, port_used) = none
held_after (cancels n) (none, port_used) = none
held_after (cancels n) (some m, port_used) = if m == n then some (none, port_used) else none
held_after (link closes) (none, true) = some (none, false)
held_after (link closes) (none, false) = none
held_after (link closes) (some m, port_used) = none
held_after advances_port h = some h
held_after (keeps_port port) h = some h
held_after (tells state e message latency) h = some h
held_after (binds ip port) h = some h
held_after (warns message) h = some h
held_after (reconnects states advances) h = some h

abbrev pub follow : List Event → Held → Option Held
follow [] h = some h
follow (x ∷ xs) h = elim (held_after x h) [ none ↦ none | some h' ↦ follow xs h' ]

pub follow-++ :
    (xs ys : List Event) (h h' : Held) → follow xs h ≡ some h' → follow (xs ++ ys) h ≡ follow ys h'
follow-++ [] ys h h' e = ground (arith, e)
follow-++ (x ∷ xs) ys h h' e = elim (Option-cases (held_after x h)) [
  | inl broken ↦ ground (arith, e, broken)
  | inr (h'', kept) ↦ rw (follow, kept) (follow-++ xs ys h'' h' (ground (arith, e, kept)))
]

-- What a result of a choice of a server holds.
abbrev pub held_by : Bool → Held
held_by found = (none, found)

-- No connection of a loop over servers is left open but the one of its result.
abbrev pub OpenFits :
    (RunError → Bool) → Tries → Text → List ServerEndpoint → Option RunError → Type 0
OpenFits gives_up tries nothing endpoints last =
    follow (map link (open_links gives_up tries endpoints)) nothing_held
    ≡ some (held_by (is_ok (open_each gives_up tries nothing endpoints last)))

open_try-Fits :
    (gives_up : RunError → Bool) (tries : Tries) (nothing : Text) (e : ServerEndpoint)
    (endpoints : List ServerEndpoint) (last : Option RunError) (x : Try)
    → tries e ≡ x
    → ((next : Option RunError) → OpenFits gives_up tries nothing endpoints next)
    → OpenFits gives_up tries nothing (e ∷ endpoints) last
unfolding open_links open_each
open_try-Fits gives_up tries nothing e endpoints last (unresolved message) t others =
    rw (open_links, open_each, t) (others (some (failed message)))
open_try-Fits gives_up tries nothing e endpoints last (connects latency) t others =
    rw (open_links, open_each, t) refl
open_try-Fits gives_up tries nothing e endpoints last (no_connection problem over) t others =
    elim (Bool-cases (gives_up problem || over)) [
      | inl given_up ↦ rw (open_links, open_each, t, given_up) refl
      | inr on ↦ rw (open_links, open_each, t, on) (others (some problem))
    ]
open_try-Fits gives_up tries nothing e endpoints last (no_answer problem over) t others =
    elim (Bool-cases (gives_up problem || over)) [
      | inl given_up ↦ rw (open_links, open_each, t, given_up) refl
      | inr on ↦ rw (open_links, open_each, t, on) (others (some problem))
    ]

pub open_links-Fits :
    (gives_up : RunError → Bool) (tries : Tries) (nothing : Text) (endpoints : List ServerEndpoint)
    (last : Option RunError)
    → OpenFits gives_up tries nothing endpoints last
unfolding open_links open_each
open_links-Fits gives_up tries nothing [] last = refl
open_links-Fits gives_up tries nothing (e ∷ endpoints) last =
    open_try-Fits gives_up tries nothing e endpoints last (tries e) refl
      (open_links-Fits gives_up tries nothing endpoints)

abbrev pub is_session : Pass → Bool
is_session (session e latency) = true
is_session (ends_with problem lost) = false
is_session (none_answers problem) = false

abbrev pub PassFits :
    (RunError → Bool) → Tries → Text → List ServerEndpoint → Option RunError → Type 0
PassFits loses_port tries nothing endpoints last =
    follow (map link (pass_links loses_port tries endpoints)) nothing_held
    ≡ some (held_by (is_session (pass_over loses_port tries nothing endpoints last)))

pass_try-Fits :
    (loses_port : RunError → Bool) (tries : Tries) (nothing : Text) (e : ServerEndpoint)
    (endpoints : List ServerEndpoint) (last : Option RunError) (x : Try)
    → tries e ≡ x
    → ((next : Option RunError) → PassFits loses_port tries nothing endpoints next)
    → PassFits loses_port tries nothing (e ∷ endpoints) last
unfolding pass_links pass_over
pass_try-Fits loses_port tries nothing e endpoints last (unresolved message) t others =
    rw (pass_links, pass_over, t) (others (some (failed message)))
pass_try-Fits loses_port tries nothing e endpoints last (connects latency) t others =
    rw (pass_links, pass_over, t) refl
pass_try-Fits loses_port tries nothing e endpoints last (no_answer problem over) t others =
    rw (pass_links, pass_over, t) (others (some problem))
pass_try-Fits loses_port tries nothing e endpoints last (no_connection problem true) t others =
    rw (pass_links, pass_over, t) refl
pass_try-Fits loses_port tries nothing e endpoints last (no_connection problem false) t others =
    elim (Bool-cases (loses_port problem)) [
      | inl lost ↦ rw (pass_links, pass_over, t, lost) refl
      | inr on ↦ rw (pass_links, pass_over, t, on) (others (some problem))
    ]

pass_links-Fits :
    (loses_port : RunError → Bool) (tries : Tries) (nothing : Text)
    (endpoints : List ServerEndpoint) (last : Option RunError)
    → PassFits loses_port tries nothing endpoints last
unfolding pass_links pass_over
pass_links-Fits loses_port tries nothing [] last = refl
pass_links-Fits loses_port tries nothing (e ∷ endpoints) last =
    pass_try-Fits loses_port tries nothing e endpoints last (tries e) refl
      (pass_links-Fits loses_port tries nothing endpoints)

abbrev pub is_connected_by : Option Chosen → Bool
is_connected_by none = false
is_connected_by (some chosen) = is_ok chosen

-- No connection of a reconnection is left open but the one of its result.
abbrev pub BackFits : Reconnected → Type 0
BackFits back =
    follow (map link back.links) nothing_held ≡ some (held_by (is_connected_by back.result))

map-++ : (xs ys : List Link) → map link (xs ++ ys) ≡ map link xs ++ map link ys
map-++ [] ys = refl
map-++ (x ∷ xs) ys = ap (λ zs. link x ∷ zs) (map-++ xs ys)

follow-links :
    (first then_more : List Link)
    → follow (map link first) nothing_held ≡ some nothing_held
    → follow (map link (first ++ then_more)) nothing_held ≡ follow (map link then_more) nothing_held
follow-links first then_more e =
    ap (λ xs. follow xs nothing_held) (map-++ first then_more)
    ∙ follow-++ (map link first) (map link then_more) nothing_held nothing_held e

after_pass-Fits :
    (prefix : Text) (a : Attempt) (number count : ℕ) (cs : Cursors) (pass : Pass)
    (links : List Link) (rest : Reconnected)
    → follow (map link links) nothing_held ≡ some (held_by (is_session pass))
    → BackFits rest
    → BackFits (after_links links (after_pass prefix a number count cs pass rest))
unfolding after_pass
after_pass-Fits prefix a number count cs (session e latency) links rest fits others =
    ap (λ xs. follow (map link xs) nothing_held) (append-nil links) ∙ fits
after_pass-Fits prefix a number count cs (ends_with problem lost) links rest fits others =
    ap (λ xs. follow (map link xs) nothing_held) (append-nil links) ∙ fits
after_pass-Fits prefix a number count cs (none_answers problem) links rest fits others =
    elim (Bool-cases (leb 3 number && ltb 1 count)) [
      | inl enough ↦
          rw (after_pass, enough)
            (ap (λ xs. follow (map link xs) nothing_held) (append-nil links) ∙ fits)
      | inr more ↦ elim (Bool-cases a.pause_done) [
        | inl over ↦
            rw (after_pass, more, over)
              (ap (λ xs. follow (map link xs) nothing_held) (append-nil links) ∙ fits)
        | inr on ↦ rw (after_pass, more, on) (follow-links links rest.links fits ∙ others)
      ]
    ]

pub reconnect-Fits :
    (w : Ways) (attempts : ℕ → Attempt) (current_one : ServerEndpoint)
    (endpoints : List ServerEndpoint) (fuel before : ℕ) (cs : Cursors)
    → BackFits (reconnect w attempts current_one endpoints fuel before cs)
unfolding reconnect
reconnect-Fits w attempts current_one endpoints zero before cs = refl
reconnect-Fits w attempts current_one endpoints (suc fuel) before cs =
    elim (Bool-cases (attempts before).begins_done) [
      | inl over ↦ rw (reconnect, over) refl
      | inr on ↦
          let order = ordered_server_endpoints cs w.kind endpoints (some current_one) in
          rw (reconnect, on)
            (after_pass-Fits w.prefix (attempts before) (suc before) (length endpoints) order.0
              (pass_over w.loses_port (attempts before).tries w.nothing order.1 none)
              (pass_links w.loses_port (attempts before).tries order.1)
              (reconnect w attempts current_one endpoints fuel (suc before) order.0)
              (pass_links-Fits w.loses_port (attempts before).tries w.nothing order.1 none)
              (reconnect-Fits w attempts current_one endpoints fuel (suc before) order.0))
    ]
