-- ===== src/Actions/Internal/Entity.antt =====
-- solx-actions/src/internal/entity.rs: the built-in actions that save and delete actions, which may
-- not touch commands and webhooks. Their parameters have been read; their errors, which are texts,
-- are `exec`, as where the built-in is dispatched.
pub mod Executables
pub mod Untouched
use solx_core.Prelude.{
  ℕ, Bool, true, false, List, Option, none, some, if◌then◌else◌, Text, ok, err, ◌>>=◌, ◌>>◌,
}
use solx_core.Surface.Error.{
  SolxError, not_found, invalid, validation, conflict, io, db, exec, config, unauthorized, other,
  Fallible,
}
use solx_core.Config.Policy.{ActionType, command, webhook}
use solx_core.Actions.Rows.{Row, ActionEntity, ActionInput}
use solx_core.Actions.Store.{get, save, delete_action}

abbrev pub refused : Option ActionType → Bool
refused (some command) = true
refused (some webhook) = true
refused _ = false

-- The loop over the incoming and the existing type.
unfoldable pub guard_executable_action : Option ActionType → Option ActionType → Fallible (Unit {0})
guard_executable_action existing incoming =
    if refused incoming then err exec else if refused existing then err exec else ok tt

abbrev pub as_exec : {A : Type 0} → Fallible A → Fallible A
as_exec (ok a) = ok a
as_exec (err e) = err exec

module _ {N : Type 0} where
  -- A missing action has no type; any other error is passed on.
  abbrev pub existing_type : Fallible (ActionEntity N) → Fallible (Option ActionType)
  existing_type (ok a) = ok a.action_type
  existing_type (err not_found) = ok none
  existing_type (err invalid) = err exec
  existing_type (err validation) = err exec
  existing_type (err conflict) = err exec
  existing_type (err io) = err exec
  existing_type (err db) = err exec
  existing_type (err exec) = err exec
  existing_type (err config) = err exec
  existing_type (err unauthorized) = err exec
  existing_type (err other) = err exec

  unfoldable pub action_save :
      Text
      → Text
      → ActionInput N
      → Text
      → ℕ
      → List (Row N)
      → Fallible (ActionEntity N × List (Row N))
  action_save path name input fresh now t = do
    existing ← existing_type (get path name t)
    guard_executable_action existing input.action_type
    as_exec (save path name input fresh now t)

  unfoldable pub action_delete : Text → Text → List (Row N) → Fallible (List (Row N))
  action_delete path name t = do
    existing ← existing_type (get path name t)
    guard_executable_action existing none
    as_exec (delete_action path name t)
