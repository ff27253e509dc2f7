-- ===== src/Mapping/Change.antt =====
-- When a mapping counts as changed, and what its times say.
use natcat.Base.{All, Bool-cases, List, [], arith, false, inl, inr, refl, some, ◌<◌, ◌∙◌, ◌∷◌, ◌≡◌}
use natcat.Dict.{text_eq_refl}
use natcat.Int.{eq_ℤ_iff, ℤ}
use natcat.Mapping.{
  MappingEvent, MappingState, public_changed, public_differs, same_mapping, update_mapping,
}
use natcat.Net.{Ip, ip_equal_refl}
use natcat.Text.{Text}
use natcat.Types.{Time}

-- A mapping that was just stored is not a change when it comes again, and its times stay.
pub update_mapping_again :
    (now later : Time) (s : MappingState) (event : MappingEvent)
    → 0 < now
    → let (s', changed) = update_mapping now s event in update_mapping later s' event ≡ (s', false)
unfolding update_mapping
update_mapping_again now later s event h = ground (
  arith,
  ip_equal_refl event.public_ip,
  ip_equal_refl event.private_ip,
  text_eq_refl event.protocol,
  eq_ℤ_iff event.public_port event.public_port,
  eq_ℤ_iff event.private_port event.private_port,
)

-- The public side of a mapping is the given one.
abbrev pub HasPublic : Ip → ℤ → Text → MappingEvent → Type 0
HasPublic ip port protocol e = (e.public_ip ≡ ip) × (e.public_port ≡ port) × (e.protocol ≡ protocol)

-- The state after a run of mappings, each with its time.
unfoldable pub update_all : List (Time × MappingEvent) → MappingState → MappingState
update_all [] s = s
update_all ((now, e) ∷ rest) s = update_all rest (update_mapping now s e).0

update_mapping-same_public :
    (ip : Ip) (port : ℤ) (protocol : Text) (now : Time) (s : MappingState)
    (last event : MappingEvent)
    → s.last_map ≡ some last
    → HasPublic ip port protocol last
    → HasPublic ip port protocol event
    → 0 < s.public_stable_since
    → 0 < s.public_updated_at
    → ((update_mapping now s event).0.public_stable_since ≡ s.public_stable_since)
      × ((update_mapping now s event).0.public_updated_at ≡ s.public_updated_at)
unfolding update_mapping public_changed public_differs
update_mapping-same_public ip port protocol now s last event e p q since updated =
    ground (arith, e, p, q, ip_equal_refl ip, text_eq_refl protocol, eq_ℤ_iff port port)

update_mapping-HasPublic :
    (ip : Ip) (port : ℤ) (protocol : Text) (now : Time) (s : MappingState)
    (last event : MappingEvent)
    → s.last_map ≡ some last
    → HasPublic ip port protocol last
    → HasPublic ip port protocol event
    → (next : MappingEvent) × ((update_mapping now s event).0.last_map ≡ some next)
      × HasPublic ip port protocol next
unfolding update_mapping
update_mapping-HasPublic ip port protocol now s last event e p q =
    elim (Bool-cases (same_mapping s.last_map event)) [
      | inl same ↦ (last, ground (arith, same, e), p)
      | inr differ ↦ (event, ground (arith, differ), q)
    ]

-- However often the private side of a mapping changes, and whenever: while its public address,
-- port and protocol stay those of the last mapping, the time since which it is stable and the time
-- of its last update stay as they are, once they are set.
pub update_all_stable :
    (ip : Ip) (port : ℤ) (protocol : Text) (events : List (Time × MappingEvent)) (s : MappingState)
    (last : MappingEvent)
    → s.last_map ≡ some last
    → HasPublic ip port protocol last
    → All (λ (e : Time × MappingEvent). HasPublic ip port protocol (e.1)) events
    → 0 < s.public_stable_since
    → 0 < s.public_updated_at
    → ((update_all events s).public_stable_since ≡ s.public_stable_since)
      × ((update_all events s).public_updated_at ≡ s.public_updated_at)
unfolding update_all
update_all_stable ip port protocol [] s last e p a since updated = (refl, refl)
update_all_stable ip port protocol ((now, event) ∷ rest) s last e p a since updated =
    let s' = (update_mapping now s event).0 in
    let kept =
      update_mapping-same_public ip port protocol now s last event e p (a.0) since updated in
    let (next, f, q) = update_mapping-HasPublic ip port protocol now s last event e p (a.0) in
    let more =
      update_all_stable ip port protocol rest s' next f q (a.1) (ground (arith, kept.0))
        (ground (arith, kept.1)) in
    (more.0 ∙ kept.0, more.1 ∙ kept.1)
