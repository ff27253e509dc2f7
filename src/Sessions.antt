-- ===== src/Sessions.antt =====
-- internal/server/sessions.go: the sessions of the web server, by token, each with the time at
-- which it ends. `time.Now()` is the argument `now`; the token is what `newToken` read, none where
-- `rand.Read` fails; the cookie of a request is an argument, none where it has none.
pub mod Life
use natcat.Base.{
  Bool, List, Option, [], false, if◌then◌else◌, is_nil, ltb, none, some, true, ℕ, ◌*◌, ◌+◌, ◌/◌,
  ◌∷◌,
}
use natcat.Config.{or_positive}
use natcat.Dict.{get, put, remove}
use natcat.Int.{neg, pos, pos_part, ℤ}
use natcat.Text.{Text, hex}
use natcat.Types.{Time}

pub record SessionStore : Type 0 where
  pub lifetime : ℕ
  pub items : List (Text × Time)

-- `newToken`, from the 32 bytes that `rand.Read` gives, none where it fails.
unfoldable pub new_token : Option (List ℕ) → Option Text
unfolding hex
new_token none = none
new_token (some buf) = some (hex buf)

abbrev pub hour : ℕ
hour = 3_600_000_000_000

-- For fewer than 2562048 hours, which is where the product fits in a `time.Duration`.
unfoldable pub new_session_store : ℤ → SessionStore
new_session_store hours = record {
  lifetime = pos_part (or_positive hours (pos 12)) * hour;
  items = [];
}

-- `cleanupLocked`.
unfoldable pub cleanup : Time → List (Text × Time) → List (Text × Time)
cleanup now [] = []
cleanup now ((token, expires) ∷ rest) =
    let kept = cleanup now rest in if ltb expires now then kept else (token, expires) ∷ kept

-- `create`, without the cookie that it sends: the store, and whether there was a token.
unfoldable pub create : SessionStore → Time → Option Text → SessionStore × Bool
create s now none = (s, false)
create s now (some token) =
    (record s { items = cleanup now (put token (now + s.lifetime) s.items) }, true)

-- `valid`: whether the request belongs to a session, which then lasts longer.
unfoldable pub valid : SessionStore → Time → Option Text → SessionStore × Bool
valid s now none = (s, false)
valid s now (some token) = if is_nil token then (s, false) else elim (get token s.items) [
  | none ↦ (record s { items = remove token s.items }, false)
  | some expires ↦
      if ltb expires now
      then (record s { items = remove token s.items }, false)
      else (record s { items = put token (now + s.lifetime) s.items }, true)
]

-- `clear`, without the cookie that it sends.
unfoldable pub clear : SessionStore → Option Text → SessionStore
clear s none = s
clear s (some token) = record s { items = remove token s.items }

-- The cookie `natcat_session`, at the path `/`, for HTTP alone and the same site.
pub record Cookie : Type 0 where
  pub value : Text
  pub expires : Option Time
  pub max_age : ℤ
  pub secure : Bool

-- The cookie that `create` sends: `secure` is `r.TLS != nil`.
unfoldable pub session_cookie : SessionStore → Time → Text → Bool → Cookie
session_cookie s now token secure = record {
  value = token;
  expires = some (now + s.lifetime);
  max_age = pos (s.lifetime / 1_000_000_000);
  secure = secure;
}

-- The cookie that `clear` sends.
unfoldable pub cleared_cookie : Bool → Cookie
cleared_cookie secure = record { value = []; expires = none; max_age = neg 1; secure = secure }
