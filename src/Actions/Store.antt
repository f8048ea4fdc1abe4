-- ===== src/Actions/Store.antt =====
-- solx-actions/src/store.rs: the reads and writes of one action in the table of actions, which is the
-- list of its rows. A failing connection is not modelled. The time and the fresh id of a write are
-- arguments.
pub mod Rows
pub mod Echo
pub mod Keyed
pub mod Runs
pub mod Tests
use solx_core.Prelude.{
  ℕ, Bool, true, false, ◌&&◌, List, [], ◌∷◌, ◌++◌, Option, none, some, if◌then◌else◌, any, Text,
  text_eq, Result, ok, err, ◌>>=◌, ◌>>◌,
}
use solx_core.Json.{Value}
use solx_core.Surface.Error.{SolxError, not_found, invalid, db, other, Fallible}
use solx_core.Surface.Path.{trim, normalize_path, validate_name, full_ref}
use solx_core.Console.Table.{update, delete}
use solx_core.Config.Policy.{ActionType, validate_capabilities}
use solx_core.Actions.Mask.{Merged, mask_action_config_opt, unmask_merge}
use solx_core.Actions.Rows.{
  Row, ActionEntity, ActionInput, row_to_action, or_empty, action_type_to_str, config_column,
}

abbrev pub or_else {ℓ} : {A : Type ℓ} → Option A → Option A → Option A
or_else none b = b
or_else (some a) b = some a

abbrev pub or_not_found : {A : Type 0} → SolxError → Option A → Fallible A
or_not_found e none = err e
or_not_found e (some a) = ok a

abbrev pub as_invalid : {A : Type 0} → Merged A → Fallible (Option A)
as_invalid (ok v) = ok (some v)
as_invalid (err path) = err invalid

abbrev pub checked : {A : Type 0} → Result (Unit {0}) A → Fallible (Unit {0})
checked (ok u) = ok u
checked (err tag) = err invalid

module _ {N : Type 0} where
  -- `WHERE path=?1 AND name=?2`.
  abbrev pub is_at : Text → Text → Row N → Bool
  is_at path name r = text_eq r.path path && text_eq r.name name

  unfoldable pub find : Text → Text → List (Row N) → Option (Row N)
  find path name [] = none
  find path name (r ∷ t) = if is_at path name r then some r else find path name t

  abbrev pub decoded : Option (Row N) → Option (ActionEntity N)
  decoded none = none
  decoded (some r) = some (row_to_action r)

  unfoldable pub get_row : Text → Text → List (Row N) → Option (ActionEntity N)
  get_row path name t = decoded (find path name t)

  unfoldable pub get_unmasked : Text → Text → List (Row N) → Fallible (ActionEntity N)
  get_unmasked raw name t = do
    path ← normalize_path raw
    validate_name name
    fr ← full_ref path name
    or_not_found not_found (get_row path (trim name) t)

  unfoldable pub masked : ActionEntity N → ActionEntity N
  masked a = record a { action_config = mask_action_config_opt a.action_config }

  unfoldable pub get : Text → Text → List (Row N) → Fallible (ActionEntity N)
  get raw name t = do a ← get_unmasked raw name t; ok (masked a)

  -- `merge_opt!` and `merge_vec!`: what is left out is taken from the stored action.
  abbrev pub from : {A : Type 0} → (ActionEntity N → Option A) → Option (ActionEntity N) → Option A
  from f none = none
  from f (some a) = f a

  abbrev pub merge_opt :
      {A : Type 0} → Option A → (ActionEntity N → Option A) → Option (ActionEntity N) → Option A
  merge_opt given f existing = or_else given (from f existing)

  abbrev pub list_from : {A : Type 0} → (ActionEntity N → List A) → Option (ActionEntity N) → List A
  list_from f none = []
  list_from f (some a) = f a

  abbrev pub merge_vec :
      {A : Type 0} → List A → (ActionEntity N → List A) → Option (ActionEntity N) → List A
  merge_vec [] f existing = list_from f existing
  merge_vec (x ∷ xs) f existing = x ∷ xs

  abbrev pub merge_trusted : Option Bool → Option (ActionEntity N) → Bool
  merge_trusted (some b) existing = b
  merge_trusted none none = false
  merge_trusted none (some a) = a.trusted

  abbrev pub created_or : ℕ → Option (ActionEntity N) → ℕ
  created_or now none = now
  created_or now (some a) = a.created_at

  abbrev pub id_or : Text → Option (ActionEntity N) → Text
  id_or fresh none = fresh
  id_or fresh (some a) = a.id

  abbrev pub merge_config : Option (Value N) → Option (ActionEntity N) → Fallible (Option (Value N))
  merge_config none existing = ok (from (λ a. a.action_config) existing)
  merge_config (some incoming) existing =
      as_invalid (unmask_merge incoming (from (λ a. a.action_config) existing))

  -- The parameters of the statement that is executed.
  unfoldable pub merged_row :
      Text → Text → Text → ActionInput N → Option (Value N) → ℕ → Option (ActionEntity N) → Row N
  merged_row fresh path name input action_config now existing = record {
    id = id_or fresh existing;
    path = path;
    name = name;
    caption = or_empty (merge_opt input.caption (λ a. a.caption) existing);
    description = or_empty (merge_opt input.description (λ a. a.description) existing);
    capabilities = merge_vec input.capabilities (λ a. a.capabilities) existing;
    phrases = merge_vec input.phrases (λ a. a.phrases) existing;
    category = or_empty (merge_opt input.category (λ a. a.category) existing);
    param_type_ref = or_empty (merge_opt input.param_type_ref (λ a. a.param_type_ref) existing);
    result_type_ref = or_empty (merge_opt input.result_type_ref (λ a. a.result_type_ref) existing);
    action_type = action_type_to_str (merge_opt input.action_type (λ a. a.action_type) existing);
    fn_name = or_empty (merge_opt input.fn_name (λ a. a.fn_name) existing);
    bin_name = or_empty (merge_opt input.bin_name (λ a. a.bin_name) existing);
    action_config = config_column action_config;
    files = merge_vec input.files (λ a. a.files) existing;
    trusted = merge_trusted input.trusted existing;
    created_at = created_or now existing;
    updated_at = now;
  }

  -- `UPDATE` leaves the id and the time of creation as they are.
  abbrev pub set_row : Row N → Row N → Row N
  set_row new r = record new { id = r.id; path = r.path; name = r.name; created_at = r.created_at }

  abbrev pub collides : Row N → Row N → Bool
  collides new r = text_eq r.id new.id

  -- `INSERT` fails on an id that is taken; the pair of path and name is free where it is called.
  abbrev pub insert_row : Row N → List (Row N) → Fallible (List (Row N))
  insert_row new t = if any (collides new) t then err db else ok (t ++ new ∷ [])

  unfoldable pub write_row :
      Option (ActionEntity N) → Row N → List (Row N) → Fallible (List (Row N))
  write_row none new t = insert_row new t
  write_row (some a) new t = ok (update (is_at new.path new.name) (set_row new) t)

  -- The answer, and the table behind the write.
  unfoldable pub save :
      Text
      → Text
      → ActionInput N
      → Text
      → ℕ
      → List (Row N)
      → Fallible (ActionEntity N × List (Row N))
  save raw raw_name input fresh now t = do
    path ← normalize_path raw
    validate_name raw_name
    checked (validate_capabilities input.capabilities)
    let name = trim raw_name
    let existing = get_row path name t
    action_config ← merge_config input.action_config existing
    t' ← write_row existing (merged_row fresh path name input action_config now existing) t
    saved ← or_not_found other (get_row path name t')
    ok (masked saved, t')

  unfoldable pub delete_action : Text → Text → List (Row N) → Fallible (List (Row N))
  delete_action raw name t = do
    path ← normalize_path raw
    validate_name name
    fr ← full_ref path name
    if any (is_at path (trim name)) t then ok (delete (is_at path (trim name)) t) else err not_found
