-- ===== src/Server/View.antt =====
-- What a client of the event stream knows of the ages: internal/server/server.go,
-- `changedKeepAliveAges`.
use natcat.Base.{
  Bool-cases, List, Option, [], arith, if◌then◌else◌, inl, inr, is_some, none, refl, some, ℕ, ◌∷◌,
  ◌≡◌,
}
use natcat.Dict.{get, get-put, put}
use natcat.Manager.{KeepAliveAgeEvent}
use natcat.Server.Ages.{changed_keep_alive_ages, drop_unseen, has_id, is_shown, note_ages}
use natcat.Text.{Text, text_eq, text_eq_iff}

-- The age of an id in a list of ages.
abbrev pub age_of : Text → List KeepAliveAgeEvent → Option ℕ
age_of id [] = none
age_of id (age ∷ current) =
    if text_eq age.id id then some age.connected_seconds else age_of id current

-- No id stands twice, as in the ages of a map.
abbrev pub HasUniqueIds : List KeepAliveAgeEvent → Type 0
HasUniqueIds [] = Unit
HasUniqueIds (age ∷ current) = (age_of age.id current ≡ none) × HasUniqueIds current

-- A client that keeps the last age it was sent for each id.
abbrev pub shown : List (Text × ℕ) → List KeepAliveAgeEvent → List (Text × ℕ)
shown view [] = view
shown view (age ∷ changed) = shown (put age.id age.connected_seconds view) changed

-- The client has every age that the server remembers.
abbrev pub Agrees : List (Text × ℕ) → List (Text × ℕ) → Type 0
Agrees view last = (id : Text) (n : ℕ) → get id last ≡ some n → get id view ≡ some n

has_id-age_of :
    (id : Text) (current : List KeepAliveAgeEvent) → has_id id current ≡ is_some (age_of id current)
has_id-age_of id [] = refl
has_id-age_of id (age ∷ current) = ground (arith, has_id-age_of id current)

get-drop_unseen :
    (current : List KeepAliveAgeEvent) (id : Text) (last : List (Text × ℕ))
    → get id (drop_unseen current last) ≡ (if has_id id current then get id last else none)
unfolding drop_unseen get
get-drop_unseen current id [] = ground arith
get-drop_unseen current id ((j, n) ∷ last) =
    ground (arith, get-drop_unseen current id last, text_eq_iff j id)

get-note_ages :
    (id : Text) (last : List (Text × ℕ)) (current : List KeepAliveAgeEvent)
    → HasUniqueIds current
    → get id (note_ages last current).0
      ≡ elim (age_of id current) [ none ↦ get id last | some n ↦ some n ]
unfolding note_ages
get-note_ages id last [] u = refl
get-note_ages id last (age ∷ current) u = ground (
  arith,
  u.0,
  get-note_ages id last current (u.1),
  get-note_ages id (put age.id age.connected_seconds last) current (u.1),
  get-put age.id id age.connected_seconds last,
  text_eq_iff age.id id,
)

put-Agrees :
    (id : Text) (n : ℕ) (view last : List (Text × ℕ))
    → Agrees view last
    → Agrees (put id n view) (put id n last)
put-Agrees id n view last agrees j k h =
    ground (arith, h, get-put id j n view, get-put id j n last, agrees j k)

shown-Agrees :
    (view last : List (Text × ℕ)) (current : List KeepAliveAgeEvent)
    → Agrees view last
    → Agrees (shown view (note_ages last current).1) (note_ages last current).0
unfolding note_ages
shown-Agrees view last [] agrees = agrees
shown-Agrees view last (age ∷ current) agrees = elim (Bool-cases (is_shown age last)) [
  | inl e ↦ rw (note_ages, e) (shown-Agrees view last current agrees)
  | inr e ↦
      rw (note_ages, e)
        (shown-Agrees (put age.id age.connected_seconds view)
          (put age.id age.connected_seconds last) current
          (put-Agrees age.id age.connected_seconds view last agrees))
]

-- For ages of different ids: what the server remembers after a tick is exactly the ages of that
-- tick, and a client that had every age which the server remembered, and is sent the changed ones
-- alone, has them all again. So it has the age of every session that is connected.
pub changed_keep_alive_ages-Agrees :
    (view last : List (Text × ℕ)) (current : List KeepAliveAgeEvent)
    → HasUniqueIds current
    → Agrees view last
    → let changed = changed_keep_alive_ages last current in
      ((id : Text) → get id changed.0 ≡ age_of id current)
      × Agrees (shown view changed.1) changed.0
      × ((id : Text) (n : ℕ) → age_of id current ≡ some n → get id (shown view changed.1) ≡ some n)
unfolding changed_keep_alive_ages
changed_keep_alive_ages-Agrees view last current u agrees =
    let noted = note_ages last current in
    (
      (λ id. ground (
        arith,
        get-drop_unseen current id noted.0,
        get-note_ages id last current u,
        has_id-age_of id current,
      )),
      (λ id n h.
          shown-Agrees view last current agrees id n
            (ground (arith, h, get-drop_unseen current id noted.0))),
      λ id n h.
          shown-Agrees view last current agrees id n
            (ground (arith, h, get-note_ages id last current u)),
    )
