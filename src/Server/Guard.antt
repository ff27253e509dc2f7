-- ===== src/Server/Guard.antt =====
-- What a request without a session can do: internal/server/server.go, `requireAuth`.
use natcat.Base.{Bool, false, not, some, true, ℕ, ◌&&◌, ◌||◌, ◌≡◌}
use natcat.Server.{Answered, Moment, Packages, Request, Server}
use natcat.Server.Routes.{Route, is_direct, static_route}
use natcat.Sessions.{SessionStore}
use natcat.Sessions.Life.{good_until}
use natcat.Text.{Text, codes, has_prefix, text_eq}
use natcat.Types.{Time}

-- The paths of the service, but for the one that sessions are begun at.
abbrev pub needs_session : Text → Bool
needs_session path = has_prefix path (codes "/api/") && not (text_eq path (codes "/api/login"))

-- No session is there that was not before.
abbrev pub HasNoMore : SessionStore → SessionStore → Type 0
HasNoMore old new =
    (token : Text) (until : Time)
    → good_until new token ≡ some until
    → good_until old token ≡ some until

-- A refused request changes the sessions alone, and brings none.
abbrev pub IsRefused : Server → Answered → Type 0
IsRefused s answer =
    (answer.0.manager ≡ s.manager)
    × (answer.0.applying ≡ s.applying)
    × HasNoMore s.session answer.0.session

-- The paths of the service that a handler has.
abbrev pub has_handler : Text → Bool
has_handler path =
    text_eq path (codes "/api/logout")
    || text_eq path (codes "/api/me")
    || text_eq path (codes "/api/events")
    || text_eq path (codes "/api/server-groups")
    || text_eq path (codes "/api/instances")
    || has_prefix path (codes "/api/instances/")

-- The status of a refusal by the handler of a route.
abbrev refusal : Route → ℕ
refusal static_route = 404
refusal _ = 401

module _ (p : Packages) (t : Moment) (r : Request) where
  -- The request is refused with a status.
  abbrev IsRefusedWith : Server → ℕ → Answered → Type 0
  IsRefusedWith s status answer = IsRefused s answer × (answer.1.status ≡ status)

  -- What is answered, and with which status.
  abbrev pub IsTurnedAway : Server → Answered → Type 0
  IsTurnedAway s answer =
      IsRefused s answer
      × (is_direct p t r ≡ false → answer.1.status ≡ 301)
      × (is_direct p t r ≡ true → has_handler r.path ≡ true → answer.1.status ≡ 401)
      × (is_direct p t r ≡ true → has_handler r.path ≡ false → answer.1.status ≡ 404)
