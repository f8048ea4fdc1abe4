-- ===== src/Actions/Store/Tests.antt =====
-- Runs of the table of actions, and the theorems about it at a concrete action with a secret.
use solx_core.Prelude.{
  ℕ, false, List, [], ◌∷◌, none, some, Text, codes, text_eq, ok, err, ◌≡◌, refl,
}
use solx_core.Json.{
  Value, null, string, object, end, field, lookup, insert, modify, nth, push, get_key, get_index,
}
use solx_core.Surface.Error.{not_found, invalid}
use solx_core.Surface.Path.{
  is_whitespace, is_control, is_forbidden, trim_start, trim_end, trim, split, validate_segment,
  validate_name, push_segments, normalize_path, full_ref,
}
use solx_core.Console.Table.{update, delete}
use solx_core.Config.Policy.{has_text, validate_capabilities}
use solx_core.Actions.Net.{starts_with}
use solx_core.Actions.Mask.{
  mask_text, ends_with, auth_key_is_visible, mask_all_strings, mask_auth, mask_action_config,
  mask_action_config_opt, walk, unmask_merge,
}
use solx_core.Actions.Rows.{
  Row, ActionInput, row_to_action, action_type_to_str, action_type_from_str,
}
use solx_core.Actions.Store.{
  find, get_row, get_unmasked, masked, get, merged_row, write_row, save, delete_action,
}
use solx_core.Actions.Store.Echo.{input_of, touched, save-get}
use solx_core.Actions.Store.Keyed.{IsKeyed}
use solx_core.Actions.Store.Runs.{saves, deletes, step, run, run-IsKeyed}

unfoldable pub runs : Unit {0}
unfolding lookup insert modify nth push get_key get_index is_whitespace is_control is_forbidden
    trim_start trim_end trim split validate_segment validate_name push_segments normalize_path
    full_ref update delete has_text validate_capabilities starts_with ends_with auth_key_is_visible
    mask_all_strings mask_auth mask_action_config mask_action_config_opt walk unmask_merge
    row_to_action action_type_to_str action_type_from_str find get_row get_unmasked masked get
    merged_row write_row save delete_action step run text_eq
runs = tt

abbrev pub secrets : Text → Value ℕ
secrets s = object (field (codes "secrets") (object (field (codes "KEY") (string s) end)) end)

abbrev pub hook : Row ℕ
hook = record {
  id = codes "1";
  path = codes "/tools";
  name = codes "hook";
  caption = codes "Hook";
  description = [];
  capabilities = codes "solx:hidden" ∷ [];
  phrases = [];
  category = [];
  param_type_ref = [];
  result_type_ref = [];
  action_type = codes "webhook";
  fn_name = codes "https://a.example";
  bin_name = [];
  action_config = secrets (codes "k");
  files = [];
  trusted = false;
  created_at = 1;
  updated_at = 2;
}

abbrev pub table : List (Row ℕ)
table = hook ∷ []

abbrev pub nothing_given : ActionInput ℕ
nothing_given = record {
  caption = none;
  description = none;
  capabilities = [];
  phrases = [];
  category = none;
  param_type_ref = none;
  result_type_ref = none;
  action_type = none;
  fn_name = none;
  bin_name = none;
  action_config = none;
  files = [];
  trusted = none;
}

-- What is left out is kept, and the answer does not show the secret.
keeps_what_is_left_out :
    save
      (codes "tools/")
      (codes " hook ")
      (record nothing_given { category = some (codes "c") })
      (codes "2")
      9
      table
    ≡ ok (
      masked (row_to_action (record hook { category = codes "c"; updated_at = 9 })),
      record hook { category = codes "c"; updated_at = 9 } ∷ [],
    )
unfolding runs
keeps_what_is_left_out = refl

shows_no_secret :
    get (codes "/tools") (codes "hook") table
    ≡ ok (record (row_to_action hook) { action_config = some (secrets mask_text) })
unfolding runs
shows_no_secret = refl

deletes_once :
    (delete_action (codes "/tools") (codes "hook") table ≡ ok [])
    × (delete_action {N = ℕ} (codes "/tools") (codes "hook") [] ≡ err not_found)
unfolding runs
deletes_once = (refl, refl)

-- An action can be saved under a path with which it is not found again.
saves_out_of_reach :
    (let row = record hook {
      id = codes "2";
      path = codes "/. ";
      caption = [];
      capabilities = [];
      action_type = [];
      fn_name = [];
      action_config = null;
      created_at = 9;
      updated_at = 9;
    } in
      save {N = ℕ} (codes "/. /") (codes "hook") nothing_given (codes "2") 9 []
      ≡ ok (masked (row_to_action row), row ∷ []))
    × ((t : List (Row ℕ)) → get (codes "/. /") (codes "hook") t ≡ err invalid)
unfolding runs
saves_out_of_reach = (refl, λ t. refl)

save-get_example :
    (t' : List (Row ℕ)) × (save
        (codes "/tools")
        (codes "hook")
        (input_of (masked (row_to_action hook)))
        (codes "2")
        9
        table
      ≡ ok (masked (touched 9 (row_to_action hook)), t'))
    × (get_unmasked (codes "/tools") (codes "hook") t' ≡ ok (touched 9 (row_to_action hook)))
unfolding runs
save-get_example =
    save-get (codes "/tools") (codes "hook") (codes "2") 9 table (row_to_action hook) refl
      (refl, (refl, tt, tt), tt) refl

run-IsKeyed_example : IsKeyed (
    run
      (saves (codes "/tools") (codes "b") nothing_given (codes "2") 9
        ∷ deletes (codes "/tools") (codes "hook")
        ∷ [])
      table)
run-IsKeyed_example =
    run-IsKeyed
      (saves (codes "/tools") (codes "b") nothing_given (codes "2") 9
        ∷ deletes (codes "/tools") (codes "hook")
        ∷ [])
      table (refl, refl, tt)
