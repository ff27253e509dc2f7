-- ===== src/Lib.antt =====
-- NATCat, a service that keeps TCP and UDP ports of a NAT open and finds their public address.
--
-- The program is a web server (internal/server) over a manager of runners and a store
-- (internal/core). A runner holds one instance: it binds a port, keeps a connection to a server
-- open, asks STUN servers for its public address until enough samples agree, and reports the
-- mapping to the manager. The manager keeps a status for each instance, tells its subscribers of
-- every change and saves public addresses in the store. The store holds the instances, the server
-- lists and the credential of the administrator in memory and in a JSON file.
--
-- The files and what they model:
--   Base, Base/*     shared names, lists and tests on the native numbers, passed on by `pub use`
--   Int, Text, Dict  Go's int, strings as lists of code points, and maps as association lists
--   Result, Net      a value or an error; IP addresses as lists of bytes
--   Types            internal/core/types.go
--   Stun, Stun/*     internal/core/stun.go: parseSTUN, parseMappedAddress, stunRequest
--   Port, Port/*     internal/core/port.go, and bindPort, advanceBindPort and keepBindPort of
--                    internal/core/runner.go
--   Servers, Config  internal/core/validate.go, and the older server groups of
--                    internal/core/store.go
--   Rotation         internal/core/runner.go: orderedServerEndpoints and the cursors
--   Probe            internal/core/runner.go: confirmPublicProbeWithProgress
--   Mapping          internal/core/runner.go: updateMappingLocked, publishMapping, seedRuntime,
--                    currentTCPPublicMapping
--   Status           internal/core/manager.go: what report and setStatusLocked make of one status
--   Notify           internal/core/runner.go: expandNotifyScript; Notify/Command and Notify/Run the
--                    command of a script, its test and its run; Notify/Tested holds what is proved
--   Auth             internal/core/auth.go
--   Sessions         internal/server/sessions.go
--   Store, Store/*   internal/core/store.go: Open (OpenStore, ChangeAdminPassword), Instances,
--                    Saved (the public addresses), Groups (the server lists);
--                    Items, Sound, Laws, Disk and Reopen hold what is proved of them
--   Manager          internal/core/manager.go: the state and the notices; Manager/Control has
--                    Start, Stop, ReplaceConfig and report, Manager/Steps the step relation,
--                    Manager/PortCheck internal/core/port_check.go
--   Udp              internal/core/runner.go: stunUDPSharedFanout and what it accepts; Udp/Shared
--                    has sharedUDPConn.ReadFrom, Udp/Probe udpPublicProbe
--   Runner           internal/core/runner.go: what a runner reports; Runner/Run has Run,
--                    Runner/Request and Runner/Dial a keep-alive from its dial to its end,
--                    Runner/Select and Runner/Reconnect the choice among the servers, Runner/Tcp
--                    has runTCP, and Runner/Retry the goroutine of a public probe; Lifecycle,
--                    Session, GivesUp, Tcp/OneProbe and Retry/Publishes hold what is proved of them
--   Server           internal/server/server.go: the state, the requests and the responses;
--                    Server/Instances and Server/Routes have the handlers, Server/Ages the event
--                    stream; the other files hold what is proved of them
--   Cli              cmd/natcat/main.go: the password command and the defaults of the flags;
--                    Cli/Login what the command leaves
--   Tests, Tests/*   the theorems at concrete inputs
--
-- State and operations. A method on a pointer becomes a function from the old state to the new one
-- and the result; an error is a value of Result. A mutex makes each section under it one step:
-- the methods of the store are single steps, and those of the manager are the constructors of
-- Manager.Steps.Step, which may follow each other in any order. While a caller of Stop or
-- ReplaceConfig waits, the other goroutines do what the argument `wait` says. The clock, random
-- numbers, what the system calls came to, JSON, HMAC, base64 and net.ParseIP are arguments.
--
-- Numbers. A Go int is an integer without bounds: the values are ports, counts and seconds, which
-- are far from the limits of 64 bits. Bytes and 16-bit fields are natural numbers that are written
-- and read with `/` and `%`. Times are nanoseconds since Go's zero time, so 0 is the zero time.
--
-- Fuel. The loop over the attributes of a STUN message runs on the length of its body, which is
-- enough, since every round moves on by four bytes or more; the expansion of a notify script runs on
-- its length, and takes a character or more in each round. The attempts at a random port, the
-- confirmation and the rounds of PBKDF2 are loops with a bound in the source.
--
-- A request to the web server is a function from its state to the new state and the response. The
-- handlers call the manager and the store one after the other; while one of them waits, the other
-- goroutines do what an argument of its Moment says. New server lists are applied by a goroutine of
-- its own, which is counted when it is begun and runs as a separate step.
--
-- The loops of a runner work on sockets, timers and a context. What each of these gives, at each turn
-- of a loop, is an argument, so that a theorem holds for every order in which they can act. The loops
-- without a bound in the source, Run, the dial and the reconnection, run on fuel; it is proved for Run
-- and for the reconnection over TCP how many turns are enough. Texts of the log are left out where a
-- report has no other part.
--
-- Not modelled: runUDP, which ties its keep-alive to the goroutine of the public probe; the round of
-- the probe over TCP; the set of connections that Stop closes; the start of the server in main; the
-- system calls for round-trip times and socket options; case folding outside ASCII; and the overflow
-- of a time.Duration, which a session of 2562048 hours or more would meet. The path cleaning of
-- http.ServeMux is a definition, Server/Paths, since the routes depend on it.
pub mod Base
pub mod Int
pub mod Text
pub mod Dict
pub mod Types
pub mod Result
pub mod Net
pub mod Stun
pub mod Port
pub mod Servers
pub mod Config
pub mod Rotation
pub mod Probe
pub mod Mapping
pub mod Status
pub mod Notify
pub mod Auth
pub mod Sessions
pub mod Store
pub mod Manager
pub mod Udp
pub mod Runner
pub mod Server
pub mod Cli
pub mod Tests
