-- ===== src/Sessions/Life.antt =====
-- The life of a session: from its creation, prolonged by each request, to its end.
use natcat.Base.{
  List, Option, [], arith, false, if◌then◌else◌, is_nil, ltb, none, refl, some, true, ◌+◌, ◌∷◌, ◌≡◌,
  ◌≢◌, ◌≤◌,
}
use natcat.Dict.{get, get-put, get-remove, put, remove, text_eq_refl}
use natcat.Sessions.{SessionStore, cleanup, clear, create, valid}
use natcat.Text.{Text, text_eq_iff}
use natcat.Types.{Time}

-- The time until which a token is good, none for one that is not known.
abbrev pub good_until : SessionStore → Text → Option Time
good_until s token = get token s.items

get-none :
    (token : Text) (now : Time) (m : List (Text × Time))
    → get token m ≡ none
    → get token (cleanup now m) ≡ none
unfolding get cleanup
get-none token now [] h = refl
get-none token now ((j, t) ∷ m) h = ground (arith, get-none token now m)

-- No key stands twice.
abbrev pub HasUniqueTokens : List (Text × Time) → Type 0
HasUniqueTokens [] = Unit
HasUniqueTokens ((j, t) ∷ m) = (get j m ≡ none) × HasUniqueTokens m

get-cleanup :
    (token : Text) (now : Time) (m : List (Text × Time))
    → HasUniqueTokens m
    → get token (cleanup now m)
      ≡ elim (get token m) [ none ↦ none | some t ↦ if ltb t now then none else some t ]
unfolding get cleanup
get-cleanup token now [] u = refl
get-cleanup token now ((j, t) ∷ m) u =
    ground (arith, get-cleanup token now m (u.1), text_eq_iff j token, get-none j now m (u.0))

put-HasUniqueTokens :
    (token : Text) (t : Time) (m : List (Text × Time))
    → HasUniqueTokens m
    → HasUniqueTokens (put token t m)
unfolding put get
put-HasUniqueTokens token t [] u = (refl, tt)
put-HasUniqueTokens token t ((j, v) ∷ m) u = ground (
  arith,
  get-put token j t m,
  put-HasUniqueTokens token t m (u.1),
  text_eq_iff j token,
  text_eq_iff token j,
)

remove-HasUniqueTokens :
    (token : Text) (m : List (Text × Time)) → HasUniqueTokens m → HasUniqueTokens (remove token m)
unfolding remove get
remove-HasUniqueTokens token [] u = tt
remove-HasUniqueTokens token ((j, v) ∷ m) u = ground (
  arith,
  get-remove token j m,
  remove-HasUniqueTokens token m (u.1),
  text_eq_iff j token,
  text_eq_iff token j,
)

cleanup-HasUniqueTokens :
    (now : Time) (m : List (Text × Time)) → HasUniqueTokens m → HasUniqueTokens (cleanup now m)
unfolding cleanup
cleanup-HasUniqueTokens now [] u = tt
cleanup-HasUniqueTokens now ((j, v) ∷ m) u =
    ground (arith, get-none j now m (u.0), cleanup-HasUniqueTokens now m (u.1))

-- In a store whose tokens are different, a session that is created with a token that is not empty
-- is good for a request within its lifetime, and that request prolongs it to a lifetime from then
-- on.
pub valid-create :
    (s : SessionStore) (now later : Time) (token : Text)
    → HasUniqueTokens s.items
    → is_nil token ≡ false
    → later ≤ now + s.lifetime
    → let created = (create s now (some token)).0 in
      ((valid created later (some token)).1 ≡ true)
      × (good_until (valid created later (some token)).0 token ≡ some (later + s.lifetime))
unfolding create valid
valid-create s now later token u named soon = ground (
  arith,
  get-cleanup token now (put token (now + s.lifetime) s.items)
      (put-HasUniqueTokens token (now + s.lifetime) s.items u),
  get-put token token (now + s.lifetime) s.items,
  get-put token token (later + s.lifetime) (cleanup now (put token (now + s.lifetime) s.items)),
  text_eq_refl token,
)

-- A token that was cleared is refused, and one that was refused is refused at any later time.
-- Neither touches the time of another token.
pub valid-clear :
    (s : SessionStore) (now later : Time) (token kept : Text)
    → token ≢ kept
    → ((valid (clear s (some token)) now (some token)).1 ≡ false)
      × ((valid s now (some token)).1 ≡ false
          → (valid (valid s now (some token)).0 later (some token)).1 ≡ false)
      × (good_until (clear s (some token)) kept ≡ good_until s kept)
      × (good_until (valid s now (some token)).0 kept ≡ good_until s kept)
unfolding valid clear
valid-clear s now later token kept differ =
    let same = text_eq_refl token in
    let gone = get-remove token token s.items in
    let rest = get-remove token kept s.items in
    let new = get-put token kept (now + s.lifetime) s.items in
    let apart = text_eq_iff token kept in
    (
      ground (arith, same, gone),
      (λ refused. ground (arith, same, gone)),
      ground (arith, rest, apart),
      ground (arith, rest, new, apart),
    )

-- The tokens of a store stay different, through every operation.
pub sessions-HasUniqueTokens :
    (s : SessionStore) (now : Time) (token : Option Text)
    → HasUniqueTokens s.items
    → HasUniqueTokens (create s now token).0.items
      × HasUniqueTokens (valid s now token).0.items
      × HasUniqueTokens (clear s token).items
unfolding create valid clear
sessions-HasUniqueTokens s now none u = (u, u, u)
sessions-HasUniqueTokens s now (some token) u = ground (
  arith,
  put-HasUniqueTokens token (now + s.lifetime) s.items u,
  cleanup-HasUniqueTokens now (put token (now + s.lifetime) s.items),
  remove-HasUniqueTokens token s.items u,
)
