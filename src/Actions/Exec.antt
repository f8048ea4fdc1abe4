-- ===== src/Actions/Exec.antt =====
-- solx-actions/src/exec.rs: how a command is run.
use solx_core.Prelude.{
  ℕ, List, [], ◌∷◌, ◌++◌, Option, none, some, if◌then◌else◌, ◌==◌, Text, codes, ok, err,
}
use solx_core.Json.{Value}
use solx_core.Surface.Error.{exec, Fallible}
use solx_core.Surface.Path.{trim}
use solx_core.Config.Registry.{CommandDef, Commands, find_command}
use solx_core.Actions.Effects.{
  Shell, ShellEnd, not_spawned, timed_out, broken, exited, spawned, Run, World,
  default_timeout_secs, or_value, failed, as_object, config_key, config_str, entries_of, or_text,
}

abbrev pub slug_char : ℕ → ℕ
slug_char c = if c == b'/' then b'_' else c

unfoldable pub trim_slashes : Text → Text
trim_slashes [] = []
trim_slashes (c ∷ s) = if c == b'/' then trim_slashes s else c ∷ s

unfoldable pub slug : Text → Text
slug [] = []
slug (c ∷ s) = slug_char c ∷ slug s

unfoldable pub log_dir_slug : Text → Text
log_dir_slug action_ref = slug (trim_slashes action_ref)

abbrev pub or_cwd : Option Text → Option Text → Text → Text
or_cwd (some c) given appdata = c
or_cwd none given appdata = or_value appdata given

module _ {N : Type 0} where
  abbrev pub shell_result : World N → ShellEnd → Fallible (Value N)
  shell_result w not_spawned = err exec
  shell_result w timed_out = err exec
  shell_result w broken = err exec
  shell_result w (exited success stdout) =
      if success then ok (or_text (w.read_json (trim stdout)) stdout) else err exec

  abbrev pub command_shell :
      CommandDef
      → Text
      → Text
      → List (Text × Text)
      → Option (Value N)
      → Value N
      → Option ℕ
      → Shell N
  command_shell def appdata log_dir registration action_config params timeout_secs = record {
    command = def.command;
    cwd = or_cwd def.cwd (config_str (codes "cwd") action_config) appdata;
    env =
        (codes "SOL_LOG_DIR", log_dir)
        ∷ (registration ++ entries_of (as_object (config_key (codes "env") action_config)));
    stdin = params;
    timeout = or_value default_timeout_secs timeout_secs;
  }

  abbrev pub spawn_and_wait : World N → Shell N → Run N (Value N)
  spawn_and_wait w sh = record { result = shell_result w (w.shell sh); trace = spawned sh ∷ [] }

  abbrev pub run_found :
      World N
      → Option CommandDef
      → Text
      → Text
      → List (Text × Text)
      → Option (Value N)
      → Value N
      → Option ℕ
      → Run N (Value N)
  run_found w none appdata log_dir registration action_config params timeout_secs = failed exec
  run_found w (some def) appdata log_dir registration action_config params timeout_secs =
      spawn_and_wait w
        (command_shell def appdata log_dir registration action_config params timeout_secs)

  -- `registration` holds the variables of the loopback, where it could be started; `logs` and
  -- `join` make the directory of the action's logs.
  unfoldable pub run_command :
      World N
      → Commands
      → Text
      → (Text → Text)
      → List (Text × Text)
      → Text
      → Text
      → Option (Value N)
      → Value N
      → Option ℕ
      → Run N (Value N)
  run_command w commands appdata logs registration action_ref fn_name action_config params
        timeout_secs =
      run_found w (find_command fn_name commands) appdata (logs (log_dir_slug action_ref))
        registration action_config params timeout_secs
