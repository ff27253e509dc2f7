-- ===== src/Notify/Tested.antt =====
-- What the test of a notify script comes to: internal/core/runner.go, `RunNotifyScriptTest`.
use natcat.Base.{Option, false, is_nil, none, some, true, ◌↔◌, ◌≡◌, ◌≤◌}
use natcat.Cli.Login.{ran}
use natcat.Int.{leb_ℤ, pos}
use natcat.Mapping.{MappingEvent}
use natcat.Net.{Ip, ipv4_zero}
use natcat.Notify.{expand_notify_script}
use natcat.Notify.Command.{Command, Host, notify_exec_command, notify_template_vars}
use natcat.Notify.Run.{NotifyTestResult, Ran}
use natcat.Text.{Text, trim_space}
use natcat.Types.{InstanceConfig, RuntimeStatus}

-- A mapping can be shown to the script: the status has a public address that is an IP address, and
-- a port above 0.
abbrev pub IsShowable : (Text → Option Ip) → RuntimeStatus → Type 0
IsShowable parse_ip st =
    (is_nil st.public_address ≡ false)
    × (leb_ℤ st.public_port (pos 0) ≡ false)
    × ((ip : Ip) × (parse_ip st.public_address ≡ some ip))

-- A failed command says why.
abbrev pub SaysWhy : Ran → Type 0
SaysWhy ran = (message : Text) → ran.failed ≡ some message → is_nil message ≡ false

-- A result that fits a run: it passed exactly if the command was in time and did not fail, one that
-- did not pass has an output, and the duration is a millisecond or more.
abbrev pub Fits : Ran → NotifyTestResult → Type 0
Fits ran result =
    ((result.succeeded ≡ true) ↔ ((ran.out_of_time ≡ false) × (ran.failed ≡ none)))
    × (result.succeeded ≡ false → is_nil result.output ≡ false)
    × (1 ≤ result.duration_ms)

module _ (host : Host) (exec : Command → Ran) (parse_ip : Text → Option Ip) (cfg : InstanceConfig)
    (st : RuntimeStatus) (script : Text) where
  abbrev IsReady : Type 0
  IsReady = (is_nil (trim_space script) ≡ false) × IsShowable parse_ip st

  -- The mapping of a script: its public side is the one that the status shows, its private side
  -- too, with 0.0.0.0 for an address that does not read, and its protocol is the one of the status
  -- or else of the configuration.
  abbrev pub IsShown : MappingEvent → Type 0
  IsShown event =
      (parse_ip st.public_address ≡ some event.public_ip)
      × (event.public_port ≡ st.public_port)
      × ((ip : Ip) → parse_ip st.private_address ≡ some ip → event.private_ip ≡ ip)
      × (parse_ip st.private_address ≡ none → event.private_ip ≡ ipv4_zero)
      × (event.private_port ≡ st.private_port)
      × (is_nil st.protocol ≡ false → event.protocol ≡ st.protocol)
      × (is_nil st.protocol ≡ true → event.protocol ≡ cfg.protocol)

  -- The result of running the script, expanded for the mapping that the status shows.
  abbrev pub IsOfCommand : NotifyTestResult → Type 0
  IsOfCommand result =
      (event : MappingEvent) × IsShown event
      × (result.command
          ≡ expand_notify_script (trim_space script) (notify_template_vars host event))
      × Fits (exec (notify_exec_command host cfg event (trim_space script))) result
