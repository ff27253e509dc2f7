-- ===== src/Server/Ages.antt =====
-- internal/server/server.go: the event stream, `changedKeepAliveAges` and the loop of `events`.
use natcat.Base.{Bool, List, [], any, false, if◌then◌else◌, is_nil, none, some, ℕ, ◌==◌, ◌∷◌}
use natcat.Dict.{get, put}
use natcat.Manager.{KeepAliveAgeEvent}
use natcat.Server.{Frame, Signal, age_tick, came, done, heartbeat, keepalive_age, ping, runtime}
use natcat.Text.{Text, text_eq}

abbrev pub has_id : Text → List KeepAliveAgeEvent → Bool
has_id id current = any (λ (age : KeepAliveAgeEvent). text_eq age.id id) current

-- `previous, ok := last[age.ID]; ok && previous == age.ConnectedSeconds`.
abbrev pub is_shown : KeepAliveAgeEvent → List (Text × ℕ) → Bool
is_shown age last = elim (get age.id last) [
  | none ↦ false
  | some previous ↦ previous == age.connected_seconds
]

-- The first loop: the ages that are kept, and those that changed.
unfoldable pub note_ages :
    List (Text × ℕ) → List KeepAliveAgeEvent → List (Text × ℕ) × List KeepAliveAgeEvent
note_ages last [] = (last, [])
note_ages last (age ∷ current) =
    if is_shown age last
    then note_ages last current
    else (let rest = note_ages (put age.id age.connected_seconds last) current in
        (rest.0, age ∷ rest.1))

-- The second loop: an id that is not in the list any more is deleted.
unfoldable pub drop_unseen : List KeepAliveAgeEvent → List (Text × ℕ) → List (Text × ℕ)
drop_unseen current [] = []
drop_unseen current ((id, seconds) ∷ last) =
    let rest = drop_unseen current last in if has_id id current then (id, seconds) ∷ rest else rest

-- `changedKeepAliveAges`: the map `last` after it, and its result.
unfoldable pub changed_keep_alive_ages :
    List (Text × ℕ) → List KeepAliveAgeEvent → List (Text × ℕ) × List KeepAliveAgeEvent
unfolding note_ages drop_unseen
changed_keep_alive_ages last current =
    let noted = note_ages last current in (drop_unseen current noted.0, noted.1)

-- A frame that is written, and the loop goes on with `rest` if that worked.
abbrev pub then_frames : Frame → Bool → List Frame → List Frame
then_frames frame sent rest = if sent then frame ∷ rest else []

-- The loop of `events`: the frames that it sends for what its `select` takes. The second of a
-- signal says whether the write after it works.
unfoldable pub event_frames : List (Text × ℕ) → List (Signal × Bool) → List Frame
unfolding changed_keep_alive_ages
event_frames last [] = []
event_frames last ((done, sent) ∷ signals) = []
event_frames last ((heartbeat, sent) ∷ signals) = then_frames ping sent (event_frames last signals)
event_frames last ((came none, sent) ∷ signals) = []
event_frames last ((came (some event), sent) ∷ signals) =
    then_frames (runtime event) sent (event_frames last signals)
event_frames last ((age_tick current, sent) ∷ signals) =
    let changed = changed_keep_alive_ages last current in
    let rest = event_frames changed.0 signals in
    if is_nil changed.1 then rest else then_frames (keepalive_age changed.1) sent rest
