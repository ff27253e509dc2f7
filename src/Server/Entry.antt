-- ===== src/Server/Entry.antt =====
-- Logging in: internal/server/server.go, `login`, with the requests that follow.
use natcat.Auth.{check_password}
use natcat.Base.{List, [], false, is_nil, none, refl, some, true, ℕ, ◌+◌, ◌∷◌, ◌≡◌, ◌≤◌}
use natcat.Server.{
  Login, Moment, Packages, Request, Server, get_method, post_method, username_of, with_body,
  with_method, write_error, write_json, wrong_login,
}
use natcat.Server.Paths.{clean_path}
use natcat.Server.Routes.{
  Route, begin_session, by_route, login, login_as, login_route, me, me_route, require_auth, route,
  secure_headers, serve, with_server_store,
}
use natcat.Sessions.{Cookie, create, new_token, session_cookie, valid}
use natcat.Sessions.Life.{HasUniqueTokens, valid-create}
use natcat.Store.{admin}
use natcat.Text.{Text, codes, hex, text_eq}
use natcat.Types.{AdminCredential}

hex-full : (bytes : List ℕ) → is_nil bytes ≡ false → is_nil (hex bytes) ≡ false
unfolding hex
hex-full [] h = h
hex-full (b ∷ bytes) h = refl

-- A login with a method, a body that decodes and random bytes that are there.
abbrev pub IsLogin : Packages → Moment → Request → Login → List ℕ → Type 0
IsLogin p t r body bytes =
    (r.method ≡ post_method)
    × (r.path ≡ codes "/api/login")
    × (p.decoders.login r.body ≡ some body)
    × (t.random ≡ some bytes)
    × (is_nil bytes ≡ false)

-- The credential that a login is checked against.
abbrev pub current : Packages → Moment → Server → AdminCredential
current p t s = (admin p.out t.io s.manager.store).1

-- The server whose store has read the credential again.
abbrev entered : Packages → Moment → Server → Server
entered p t s = with_server_store s (admin p.out t.io s.manager.store).0

module _ (p : Packages) (t : Moment) (r : Request) (body : Login) (bytes : List ℕ) (s : Server)
    (is_login : IsLogin p t r body bytes) where
  login_refused :
      check_password p.crypto (current p t s) body.username body.password ≡ false
      → login p t r s ≡ (entered p t s, write_error 401 wrong_login)
  unfolding login login_as with_method with_body natcat.Text.text_eq
  login_refused wrong =
      let (a, b, c, d, e) = is_login in rw (login, login_as, with_method, a, c, wrong) refl

  login_begins :
      check_password p.crypto (current p t s) body.username body.password ≡ true
      → login p t r s ≡ begin_session p t r body.username (entered p t s)
  unfolding login login_as with_method with_body new_token natcat.Text.text_eq
  login_begins right =
      let (a, b, c, d, e) = is_login in rw (login, login_as, with_method, a, c, right) refl

  -- What a login that is let in comes to.
  begin_session_lem :
      (name : Text) (s' : Server)
      → begin_session p t r name s' ≡ (
        record s' { session = (create s'.session t.now (some (hex bytes))).0 },
        record (write_json 200 (username_of name)) {
          set_cookie = some (session_cookie s'.session t.now (hex bytes) r.secure);
        },
      )
  unfolding begin_session new_token
  begin_session_lem name s' = let (a, b, c, d, e) = is_login in rw (begin_session, d) refl

-- A request whose path is clean is answered by the handler of its route.
pub serve-route :
    (p : Packages) (t : Moment) (x : Route) (r : Request) (s : Server)
    → (route r.path ≡ x) × (text_eq (clean_path r.path) r.path ≡ true)
    → serve p t r s ≡ ((by_route p t x r s).0, secure_headers p t (by_route p t x r s).1)
unfolding serve
serve-route p t x r s (e, clean) = rw (serve, e, clean) refl

route-at_login :
    (path : Text)
    → path ≡ codes "/api/login"
    → (route path ≡ login_route) × (text_eq (clean_path path) path ≡ true)
unfolding route natcat.Text.text_eq clean_path
route-at_login path e = rw e (refl, refl)

route-at_me :
    (path : Text)
    → path ≡ codes "/api/me"
    → (route path ≡ me_route) × (text_eq (clean_path path) path ≡ true)
unfolding route natcat.Text.text_eq clean_path
route-at_me path e = rw e (refl, refl)

serve-me :
    (p : Packages) (t : Moment) (r : Request) (s : Server)
    → r.path ≡ codes "/api/me"
    → r.method ≡ get_method
    → (valid s.session t.now r.cookie).1 ≡ true
    → (serve p t r s).1.status ≡ 200
unfolding by_route me require_auth with_method write_json secure_headers natcat.Text.text_eq
serve-me p t r s e f good =
    rw
      (
        serve-route p t me_route r s (route-at_me r.path e),
        by_route,
        require_auth,
        good,
        me,
        with_method,
        f,
      )
      refl

serve-at_login :
    (p : Packages) (t : Moment) (r : Request) (s : Server)
    → r.path ≡ codes "/api/login"
    → serve p t r s ≡ ((login p t r s).0, secure_headers p t (login p t r s).1)
unfolding by_route
serve-at_login p t r s e = serve-route p t login_route r s (route-at_login r.path e)

-- A login with a wrong password is answered with 401 and no cookie, and the sessions stay as they
-- were. One with the right password is answered with 200 and a cookie, and whoever sends the value
-- of that cookie within the lifetime of a session is answered by `me` with 200. (The body decodes,
-- random bytes are there, and the tokens of the store are different.)
pub serve-login :
    (p : Packages) (t later : Moment) (r r' : Request) (body : Login) (bytes : List ℕ) (s : Server)
    → IsLogin p t r body bytes
    → HasUniqueTokens s.session.items
    → later.now ≤ t.now + s.session.lifetime
    → r'.path ≡ codes "/api/me"
    → r'.method ≡ get_method
    → let right = check_password p.crypto (current p t s) body.username body.password in
      let answer = serve p t r s in
      (right ≡ false
        → (answer.1.status ≡ 401) × (answer.1.set_cookie ≡ none) × (answer.0.session ≡ s.session))
      × (right ≡ true
          → (answer.1.status ≡ 200)
            × ((c : Cookie) × (answer.1.set_cookie ≡ some c)
                × (r'.cookie ≡ some c.value → (serve p later r' answer.0).1.status ≡ 200)))
unfolding secure_headers write_error write_json session_cookie
serve-login p t later r r' body bytes s is_login u soon e f = (
  (λ wrong.
      rw (serve-at_login p t r s (is_login.1), login_refused p t r body bytes s is_login wrong)
        (refl, refl, refl)),
  λ right.
      rw
        (
          serve-at_login p t r s (is_login.1),
          login_begins p t r body bytes s is_login right,
          begin_session_lem p t r body bytes s is_login body.username (entered p t s),
        )
        (
          refl,
          (
            session_cookie s.session t.now (hex bytes) r.secure,
            refl,
            λ sent. serve-me p later r' _ e f (
                rw sent
                  (valid-create s.session t.now later.now (hex bytes) u
                    (hex-full bytes (is_login.4)) soon).0),
          ),
        ),
)
