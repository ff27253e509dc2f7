-- ===== src/Notify/Run.antt =====
-- internal/core/runner.go: running a notify script, `runNotify` and `RunNotifyScriptTest`.
use Prim.Native.Char.{code}
use natcat.Base.{
  Bool, List, Option, [], false, if◌then◌else◌, is_nil, is_some, none, not, some, ℕ, ◌++◌, ◌||◌,
  ◌∷◌,
}
use natcat.Int.{leb_ℤ, neg, pos, ℤ}
use natcat.Manager.PortCheck.{at_least_one}
use natcat.Mapping.{MappingEvent, or_ip}
use natcat.Net.{Ip, ipv4_zero}
use natcat.Notify.{expand_notify_script}
use natcat.Notify.Command.{Command, Host, is_newline, notify_exec_command, notify_template_vars}
use natcat.Result.{Result, fail_if, ok, or_fail, ◌>>=◌, ◌>>◌}
use natcat.Text.{Text, codes, trim_right, trim_space}
use natcat.Types.{InstanceConfig, Level, RuntimeStatus, Time, empty_status}

-- What a command came to: its output, the text of its error, its exit code where it was started,
-- whether the time was over, and the milliseconds that it took.
pub record Ran : Type 0 where
  pub output : Text
  pub failed : Option Text
  pub exit_code : Option ℤ
  pub out_of_time : Bool
  pub millis : ℕ

pub record NotifyTestResult : Type 0 where
  pub succeeded : Bool
  pub exit_code : ℤ
  pub duration_ms : ℕ
  pub output : Text
  pub command : Text

pub data NotifyError : Type 0 where
  empty_script no_public_mapping bad_public_ip : NotifyError

-- The message of a test that took too long.
abbrev pub test_timed_out : Text
test_timed_out = 0x901a ∷ 0x77e5 ∷ 0x811a ∷ 0x672c ∷ 0x6d4b ∷ 0x8bd5 ∷ 0x8d85 ∷ 0x65f6 ∷ []

abbrev pub or_else_text : Text → Text → Text
or_else_text s default = if is_nil s then default else s

-- The result of the command `expanded` from what it came to.
unfoldable pub test_result : Text → Ran → NotifyTestResult
test_result expanded ran =
    let output = trim_right is_newline ran.output in
    let millis = at_least_one ran.millis in
    if ran.out_of_time
    then record {
      succeeded = false;
      exit_code = neg 1;
      duration_ms = millis;
      output = or_else_text output test_timed_out;
      command = expanded;
    }
    else record {
      succeeded = not (is_some ran.failed);
      exit_code = elim ran.exit_code [
        | some code ↦ code
        | none ↦ if is_some ran.failed then neg 1 else pos 0
      ];
      duration_ms = millis;
      output = elim ran.failed [ none ↦ output | some message ↦ or_else_text output message ];
      command = expanded;
    }

-- A report of an error with its line in the log.
abbrev failure : Time → Text → Text → RuntimeStatus
failure now prefix message = record empty_status {
  last_error = message;
  logs = record { at = now; level = Level.error; message = prefix ++ message } ∷ [];
}

module _ (host : Host) (exec : Command → Ran) where
  -- `runNotifyScriptCommand`; its error is nil at every return.
  unfoldable pub run_notify_script_command : InstanceConfig → MappingEvent → Text → NotifyTestResult
  unfolding notify_exec_command test_result
  run_notify_script_command cfg event script =
      test_result (expand_notify_script script (notify_template_vars host event))
        (exec (notify_exec_command host cfg event script))

  -- The mapping that a status shows.
  unfoldable pub shown_mapping :
      (Text → Option Ip) → InstanceConfig → RuntimeStatus → Ip → MappingEvent
  shown_mapping parse_ip cfg st public_ip = record {
    public_ip = public_ip;
    public_port = st.public_port;
    private_ip = or_ip (parse_ip st.private_address) ipv4_zero;
    private_port = st.private_port;
    protocol = or_else_text st.protocol cfg.protocol;
  }

  -- `RunNotifyScriptTest`.
  unfoldable pub run_notify_script_test :
      (Text → Option Ip)
      → InstanceConfig
      → RuntimeStatus
      → Text
      → Result NotifyError NotifyTestResult
  unfolding run_notify_script_command shown_mapping
  run_notify_script_test parse_ip cfg st script = do
    let trimmed = trim_space script
    fail_if (is_nil trimmed) empty_script
    fail_if (is_nil st.public_address || leb_ℤ st.public_port (pos 0)) no_public_mapping
    public_ip ← or_fail (parse_ip st.public_address) bad_public_ip
    ok (run_notify_script_command cfg (shown_mapping parse_ip cfg st public_ip) trimmed)

-- What `cmd.Start` and `cmd.Wait` came to: the texts of their errors.
pub record Launch : Type 0 where
  pub start_failed : Option Text
  pub wait_failed : Option Text

-- `runNotify`: the reports that it sends, and the command that it starts.
unfoldable pub run_notify :
    Host → Time → Launch → InstanceConfig → MappingEvent → Option Command × List RuntimeStatus
unfolding notify_exec_command
run_notify host now launch cfg event = if is_nil cfg.notify_script then (none, []) else (
  some (notify_exec_command host cfg event cfg.notify_script),
  elim launch.start_failed [
    | some message ↦ failure now (codes "notify script failed: ") message ∷ []
    | none ↦ elim launch.wait_failed [
      | some message ↦ failure now (codes "notify script exited: ") message ∷ []
      | none ↦ []
    ]
  ],
)
