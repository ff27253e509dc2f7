-- ===== src/Server.antt =====
-- internal/server/server.go: the web server. A request is answered by a function from the state of
-- the server to the new one and a response. Go's packages are the fields of `Packages`; what
-- happens while a request is answered, and what the system calls come to, is its `Moment`.
pub mod Ages
pub mod Paths
pub mod Instances
pub mod Routes
pub mod Guard
pub mod Entry
pub mod Kept
pub mod Requests
pub mod Good
pub mod View
pub mod Rest
pub mod Parts
pub mod Created
use natcat.Auth.{Crypto}
use natcat.Base.{Bool, List, Option, [], if◌then◌else◌, none, some, ℕ, ◌∷◌}
use natcat.Manager.{KeepAliveAgeEvent, Manager, ManagerError, RuntimeEvent, new_manager}
use natcat.Manager.Control.{Wait}
use natcat.Manager.PortCheck.{CheckError, Dial}
use natcat.Notify.Command.{Command, Host}
use natcat.Notify.Run.{NotifyError, NotifyTestResult, Ran}
use natcat.Sessions.{Cookie, SessionStore, new_session_store}
use natcat.Store.{Io, Outside, Store, StoreError, session_hours}
use natcat.Text.{Text, codes, text_eq}
use natcat.Types.{InstanceConfig, InstanceSnapshot, PortCheck, ServerGroupsConfig, Time}

pub record Login : Type 0 where
  pub username : Text
  pub password : Text

pub record NotifyTest : Type 0 where
  pub script : Text
  pub config : Option InstanceConfig

-- What `json.NewDecoder` with unknown fields refused makes of a body.
pub record Decoders : Type 0 where
  pub login : Text → Option Login
  pub groups : Text → Option ServerGroupsConfig
  pub config : Text → Option InstanceConfig
  pub notify : Text → Option NotifyTest

pub record Request : Type 0 where
  pub method : Text
  pub path : Text
  pub cookie : Option Text
  pub body : Text
  pub secure : Bool

-- What an error message says.
pub data Fault : Type 0 where
  says : Text → Fault
  not_decoded wrong_login no_token : Fault
  of_store : StoreError → Fault
  of_manager : ManagerError → Fault
  of_check : CheckError → Fault
  of_notify : NotifyError → Fault

-- A frame of the event stream.
pub data Frame : Type 0 where
  ready ping : Frame
  runtime : RuntimeEvent → Frame
  keepalive_age : List KeepAliveAgeEvent → Frame

pub data Body : Type 0 where
  username_of : Text → Body
  ok_true : Body
  snapshot_of : Option InstanceSnapshot → Body
  snapshots_of : List InstanceSnapshot → Body
  groups_of : ServerGroupsConfig → Body
  check_of : PortCheck → Body
  notify_of : NotifyTestResult → Body
  fault : Fault → Body
  not_found_page : Body
  stream : List Frame → Body
  file : Text → Body
  moved_page : Text → Body

pub record Response : Type 0 where
  pub status : ℕ
  pub headers : List (Text × Text)
  pub set_cookie : Option Cookie
  pub body : Body

-- What the `select` of `events` takes; a channel that is closed gives none.
pub data Signal : Type 0 where
  done heartbeat : Signal
  came : Option RuntimeEvent → Signal
  age_tick : List KeepAliveAgeEvent → Signal

pub record Packages : Type 0 where
  pub out : Outside
  pub crypto : Crypto
  pub decoders : Decoders
  pub host : Host
  pub sort : List InstanceSnapshot → List InstanceSnapshot
  pub has_static : Text → Bool
  pub file_server : Text → Response

pub record Moment : Type 0 where
  pub io : Io
  pub now : Time
  pub later : Time
  pub random : Option (List ℕ)
  pub fresh : Text
  pub wait : Wait
  pub meanwhile : Manager → Manager
  pub no_mapping : Text
  pub dial : Dial
  pub exec : Command → Ran
  pub can_flush : Bool
  pub ready_sent : Bool
  pub signals : List (Signal × Bool)

-- The manager with its store, the sessions, and how many goroutines that apply the server groups
-- were begun and have not run.
pub record Server : Type 0 where
  pub manager : Manager
  pub session : SessionStore
  pub applying : ℕ

-- `New`.
unfoldable pub new_server : Store → Server
new_server store = record {
  manager = new_manager store;
  session = new_session_store (session_hours store);
  applying = 0;
}

abbrev pub Reply : Type 0
Reply = Manager × Response

abbrev pub Answered : Type 0
Answered = Server × Response

-- `writeJSON`.
unfoldable pub write_json : ℕ → Body → Response
write_json status body = record {
  status = status;
  headers = (codes "Content-Type", codes "application/json; charset=utf-8") ∷ [];
  set_cookie = none;
  body = body;
}

-- `writeError`.
unfoldable pub write_error : ℕ → Fault → Response
unfolding write_json
write_error status f = write_json status (fault f)

-- `methodNotAllowed`.
unfoldable pub method_not_allowed : Response
unfolding write_error
method_not_allowed = write_error 405 (says (codes "method not allowed"))

-- What `decodeJSON` writes at an error.
unfoldable pub bad_request : Response
unfolding write_error
bad_request = write_error 400 not_decoded

-- `http.NotFound`.
unfoldable pub not_found : Response
not_found = record { status = 404; headers = []; set_cookie = none; body = not_found_page }

-- The methods of `net/http`.
abbrev pub get_method : Text
get_method = codes "GET"

abbrev pub post_method : Text
post_method = codes "POST"

abbrev pub put_method : Text
put_method = codes "PUT"

abbrev pub delete_method : Text
delete_method = codes "DELETE"

-- `if r.Method != m { methodNotAllowed(w); return }` in front of a handler.
unfoldable pub with_method : {S : Type 0} → Text → Request → (S → S × Response) → S → S × Response
unfolding method_not_allowed
with_method allowed r handler s =
    if text_eq r.method allowed then handler s else (s, method_not_allowed)

-- `if !decodeJSON(w, r, &body) { return }` in front of a handler.
unfoldable pub with_body : {S A : Type 0} → Option A → (A → S → S × Response) → S → S × Response
unfolding bad_request
with_body none handler s = (s, bad_request)
with_body (some body) handler s = handler body s
