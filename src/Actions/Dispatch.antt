-- ===== src/Actions/Dispatch.antt =====
-- solx-actions/src/dispatch.rs: from a reference and its parameters to the run of the action;
-- internal/mod.rs: the aliases of the parameters of built-in actions. The types' check of the
-- parameters, the built-in actions, the WASM host and the interpreter of scripts stand behind
-- `Backends`; what the caller of a nested run passes on to them is left out.
pub mod Allowed
pub mod Checks
pub mod Aliases
mod Tests
use solx_core.Prelude.{
  ℕ, ◌+◌, Bool, true, false, not, ◌&&◌, List, [], ◌∷◌, ◌++◌, Option, none, some, if◌then◌else◌,
  is_some, ◌==◌, leb, Text, codes, text_eq, Result, ok, err, ◌>>=◌, ◌>>◌,
}
use solx_core.Json.{
  Value, null, bool, number, string, array, object, Fields, end, field, lookup, insert,
}
use solx_core.Surface.Error.{exec, Fallible}
use solx_core.Surface.Path.{full_ref}
use solx_core.Config.Policy.{ActionType, internal, command, script, wasm, webhook}
use solx_core.Files.{CharLib, action_file_path, shared_action_file_path}
use solx_core.Actions.Net.{UrlLib}
use solx_core.Actions.Rows.{Row, ActionEntity}
use solx_core.Actions.Store.{get_unmasked}
use solx_core.Actions.Effects.{
  Effect, Run, World, default_timeout_secs, or_value, failed, returned, did, try_, config_key,
}
use solx_core.Config.Registry.{Commands}
use solx_core.Actions.Exec.{run_command}
use solx_core.Actions.Webhook.{as_number, or_exec, run_webhook}

-- The loop of `to_camel_case`, with the flag that the next character is raised; `upper` is
-- `char::to_uppercase`.
unfoldable pub camel_from : (ℕ → Text) → Bool → Text → Text
camel_from upper raise [] = []
camel_from upper raise (c ∷ s) =
    let after = camel_from upper (c == b'_') s in
    if c == b'_' then after else if raise then upper c ++ after else c ∷ after

unfoldable pub to_camel_case : (ℕ → Text) → Text → Text
to_camel_case upper key = camel_from upper false key

abbrev pub is_ascii_uppercase : ℕ → Bool
is_ascii_uppercase c = leb b'A' c && leb c b'Z'

-- The loop of `to_snake_case`, with the flag that it is past the first character.
unfoldable pub snake_from : Bool → Text → Text
snake_from past [] = []
snake_from past (c ∷ s) =
    let after = snake_from true s in
    if is_ascii_uppercase c
    then (if past then b'_' ∷ (c + 32) ∷ after else (c + 32) ∷ after)
    else c ∷ after

unfoldable pub to_snake_case : Text → Text
to_snake_case key = snake_from false key

-- The artifact is looked up in the shared place, then in the action's own.
abbrev pub first_of : {A : Type 0} → Option A → Option A → Option A
first_of (some a) other = some a
first_of none other = other

module _ {N : Type 0} where
  abbrev pub or_insert : Text → Value N → Option (Value N) → Fields N → Fields N
  or_insert k v none out = insert k v out
  or_insert k v (some w) out = out

  -- `entry(alias).or_insert_with(…)`, for an alias that differs from the key.
  abbrev pub add_alias : Text → Value N → Text → Fields N → Fields N
  add_alias key v alias out =
      if text_eq alias key then out else or_insert alias v (lookup alias out) out

  unfoldable pub add_aliases : (ℕ → Text) → Fields N → Fields N → Fields N
  add_aliases upper end out = out
  add_aliases upper (field key v fs) out =
      add_aliases upper fs
        (add_alias key v (to_snake_case key) (add_alias key v (to_camel_case upper key) out))

  unfoldable pub normalize_params : (ℕ → Text) → Value N → Value N
  normalize_params upper (object fs) = object (add_aliases upper fs fs)
  normalize_params upper null = null
  normalize_params upper (bool b) = bool b
  normalize_params upper (number n) = number n
  normalize_params upper (string s) = string s
  normalize_params upper (array vs) = array vs

module _ (N : Type 0) where
  pub record ActionExecResult : Type 0 where
    pub action : Text
    pub result : Value N
    pub success : Bool
    pub message : Option Text

  -- What stands behind the dispatcher. A script that runs out of its time has no answer.
  pub record Backends : Type 0 where
    pub upper : ℕ → Text
    pub validate : Value N → Text → Fallible (Unit {0})
    pub read_file : Text → Option Text
    pub utf8 : Text → Option Text
    pub run_internal : Text → Value N → Option (Value N) → Run N (Value N)
    pub run_wasm : Text → Option Text → Value N → Option ℕ → Run N ActionExecResult
    pub run_script : Text → Value N → ℕ → Run N (Value N)

  -- The configuration as it is read.
  pub record Settings : Type 0 where
    pub commands : Commands
    pub allowlist : List Text
    pub appdata : Text
    pub logs : Text → Text
    pub registration : List (Text × Text)
    pub background_timeout_secs : ℕ

module _ {N : Type 0} (chars : CharLib) (lib : UrlLib) (world : World N) (behind : Backends N)
    (settings : Settings N) where
  abbrev pub load_artifact : ActionEntity N → Text → Option Text
  load_artifact a bin_name =
      first_of (behind.read_file (shared_action_file_path chars bin_name))
        (behind.read_file (action_file_path chars a.id bin_name))

  unfoldable pub load_wasm_bytes : ActionEntity N → Text → Fallible Text
  load_wasm_bytes a bin_name = or_exec (load_artifact a bin_name)

  unfoldable pub load_script_source : ActionEntity N → Text → Fallible Text
  load_script_source a bin_name = do
    bytes ← or_exec (load_artifact a bin_name)
    or_exec (behind.utf8 bytes)

  abbrev pub timeout_secs : Option (Value N) → Option ℕ
  timeout_secs action_config = as_number world (config_key (codes "timeout_secs") action_config)

  unfoldable pub effective_timeout : Bool → Option (Value N) → Option ℕ
  effective_timeout detached action_config =
      if detached
      then some (or_value settings.background_timeout_secs (timeout_secs action_config))
      else timeout_secs action_config

  abbrev pub normalized_for : Option ActionType → Value N → Value N
  normalized_for (some internal) params = normalize_params behind.upper params
  normalized_for _ params = params

  abbrev pub check_params : Option Text → Value N → Fallible (Unit {0})
  check_params none params = ok tt
  check_params (some tr) params = behind.validate params tr

  abbrev pub wrapped : Text → Run N (Value N) → Run N (ActionExecResult N)
  wrapped action_ref r = record {
    result = r.result >>= λ v.
        ok (record { action = action_ref; result = v; success = true; message = none });
    trace = r.trace;
  }

  -- The match on the type, for an action that is resolved and parameters that are checked.
  unfoldable pub run_action :
      ActionEntity N → Text → Value N → Option ℕ → Option ActionType → Run N (ActionExecResult N)
  run_action a action_ref params timeout (some command) = try_ (or_exec a.fn_name) λ fn_name.
      wrapped action_ref (
        run_command world settings.commands settings.appdata settings.logs settings.registration
          action_ref fn_name a.action_config params timeout)
  run_action a action_ref params timeout (some webhook) = try_ (or_exec a.fn_name) λ url.
      wrapped action_ref
        (run_webhook lib world settings.allowlist a.path a.name url a.action_config params)
  run_action a action_ref params timeout (some internal) =
      try_ (or_exec a.fn_name)
        λ fn_name. wrapped action_ref (behind.run_internal fn_name params a.action_config)
  run_action a action_ref params timeout (some wasm) = try_ (or_exec a.bin_name) λ bin_name.
      try_ (load_wasm_bytes a bin_name) λ bytes. behind.run_wasm bytes a.fn_name params timeout
  run_action a action_ref params timeout (some script) = try_ (or_exec a.bin_name) λ bin_name.
      try_ (load_script_source a bin_name) λ source.
        wrapped action_ref (behind.run_script source params (or_value default_timeout_secs timeout))
  run_action a action_ref params timeout none = failed exec

  unfoldable pub exec_as_with :
      Text → Text → Value N → Option Text → List (Row N) → Run N (ActionExecResult N)
  exec_as_with path name given invocation_id actions = try_ (get_unmasked path name actions) λ a.
      try_ (full_ref a.path a.name) λ action_ref.
        let params = normalized_for a.action_type given in
        try_ (check_params a.param_type_ref params) λ u.
          run_action a action_ref params (effective_timeout (is_some invocation_id) a.action_config)
            a.action_type
