-- ===== src/Notify/Command.antt =====
-- internal/core/runner.go: the command of a notify script, from `notifyTemplateVars` to
-- `notifyExecCommand`. The packages os, runtime and net are the fields of `Host`.
use natcat.Base.{
  Bool, List, [], any, drop, false, if◌then◌else◌, leb, length, map, ℕ, ◌&&◌, ◌++◌, ◌-◌, ◌==◌, ◌||◌,
  ◌∷◌,
}
use natcat.Mapping.{MappingEvent}
use natcat.Net.{Ip}
use natcat.Notify.{expand_notify_script}
use natcat.Text.{Text, codes, itoa, join_host_port, text_eq, to_lower}
use natcat.Types.{InstanceConfig}

pub record Host : Type 0 where
  pub windows : Bool
  pub is_file : Text → Bool
  pub environ : List Text
  pub show_ip : Ip → Text

-- `exec.Cmd`: the program, its arguments and its environment.
pub record Command : Type 0 where
  pub program : Text
  pub args : List Text
  pub env : List Text

-- `strings.ContainsAny(script, "\r\n")`.
abbrev pub is_newline : ℕ → Bool
is_newline c = c == 13 || c == 10

-- `strings.HasSuffix`.
unfoldable pub has_suffix : Text → Text → Bool
has_suffix s t = leb (length t) (length s) && text_eq (drop (length s - length t) s) t

module _ (host : Host) where
  -- `notifyTemplateVars`.
  unfoldable pub notify_template_vars : MappingEvent → List (Text × Text)
  notify_template_vars event =
      let ip = host.show_ip event.public_ip in
      let port = itoa event.public_port in
      (codes "NATCAT_PUBLIC_ADDRESS", ip)
      ∷ (codes "NATCAT_PUBLIC_IP", ip)
      ∷ (codes "NATCAT_PUBLIC_PORT", port)
      ∷ (codes "NATCAT_PUBLIC_ENDPOINT", join_host_port ip port)
      ∷ []

  -- `notifyEnvVars`.
  unfoldable pub notify_env_vars : InstanceConfig → MappingEvent → List (Text × Text)
  notify_env_vars cfg event =
      let ip = host.show_ip event.public_ip in
      let port = itoa event.public_port in
      (codes "NATCAT_INSTANCE_ID", cfg.id)
      ∷ (codes "NATCAT_INSTANCE_NAME", cfg.name)
      ∷ (codes "NATCAT_PROTOCOL", event.protocol)
      ∷ (codes "NATCAT_PUBLIC_ADDRESS", ip)
      ∷ (codes "NATCAT_PUBLIC_IP", ip)
      ∷ (codes "NATCAT_PUBLIC_PORT", port)
      ∷ (codes "NATCAT_PUBLIC_ENDPOINT", join_host_port ip port)
      ∷ (codes "NATCAT_PRIVATE_ADDRESS", host.show_ip event.private_ip)
      ∷ (codes "NATCAT_PRIVATE_PORT", itoa event.private_port)
      ∷ []

  -- `notifyEnv`, which names the variables in the order of the map above.
  unfoldable pub notify_env : InstanceConfig → MappingEvent → List Text
  unfolding notify_env_vars
  notify_env cfg event =
      host.environ ++ map (λ (v : Text × Text). v.0 ++ b'=' ∷ v.1) (notify_env_vars cfg event)

  -- `notifyScriptIsFile`.
  unfoldable pub notify_script_is_file : Text → Bool
  notify_script_is_file script = if any is_newline script then false else host.is_file script

  abbrev powershell : List Text → Command
  powershell args = record { program = codes "powershell"; args = args; env = [] }

  -- `notifyCommandContext`.
  unfoldable pub notify_command : Text → Command
  unfolding notify_script_is_file has_suffix
  notify_command script =
      if notify_script_is_file script
      then (if host.windows && has_suffix (to_lower script) (codes ".ps1")
          then powershell (codes "-ExecutionPolicy" ∷ codes "Bypass" ∷ codes "-File" ∷ script ∷ [])
          else record { program = script; args = []; env = [] })
      else if host.windows
      then powershell (
          codes "-NoProfile"
          ∷ codes "-ExecutionPolicy"
          ∷ codes "Bypass"
          ∷ codes "-Command"
          ∷ script
          ∷ [])
      else record { program = codes "sh"; args = codes "-c" ∷ script ∷ []; env = [] }

  -- `notifyExecCommand`.
  unfoldable pub notify_exec_command : InstanceConfig → MappingEvent → Text → Command
  unfolding notify_command notify_env notify_template_vars
  notify_exec_command cfg event script =
      record (notify_command (expand_notify_script script (notify_template_vars event))) {
        env = notify_env cfg event;
      }
