-- ===== src/Mapping/Seed.antt =====
-- A restarted runner goes on from the status that was stored.
use natcat.Base.{Option, arith, false, is_nil, some, true, ◌<◌, ◌≡◌, ◌≢◌}
use natcat.Int.{eq_ℤ_iff, pos}
use natcat.Mapping.{MappingEvent, MappingState, seed_runtime, update_mapping}
use natcat.Net.{Ip, ip_equal}
use natcat.Text.{Text, text_eq_iff}
use natcat.Types.{RuntimeStatus, Time}

-- A runner that is seeded with a stored status, and then finds the same public endpoint with the
-- protocol of the status, keeps the time since which that endpoint is stable, and the time of the
-- last update, if these were set.
pub update_mapping-seed_runtime :
    (parse_ip : Text → Option Ip) (cfg_protocol : Text) (now : Time) (s : MappingState)
    (st : RuntimeStatus) (event : MappingEvent) (stored : Ip)
    → parse_ip st.public_address ≡ some stored
    → ip_equal stored event.public_ip ≡ true
    → st.public_port ≡ event.public_port
    → st.public_port ≢ pos 0
    → is_nil st.public_address ≡ false
    → is_nil st.protocol ≡ false
    → st.protocol ≡ event.protocol
    → 0 < st.public_stable_since
    → 0 < st.public_updated_at
    → let s' = (update_mapping now (seed_runtime parse_ip cfg_protocol s st) event).0 in
      (s'.public_stable_since ≡ st.public_stable_since)
      × (s'.public_updated_at ≡ st.public_updated_at)
unfolding update_mapping seed_runtime
update_mapping-seed_runtime parse_ip cfg_protocol now s st event stored p e port nonzero addr pr
      same a b =
    ground (
      arith,
      eq_ℤ_iff st.public_port (pos 0),
      eq_ℤ_iff st.public_port event.public_port,
      text_eq_iff st.protocol event.protocol,
    )
