-- ===== src/Actions/Store/Echo.antt =====
-- A client that reads an action and saves what it was shown changes nothing but the time of the last
-- update, the redacted configuration included.
use solx_core.Prelude.{ℕ, List, [], ◌∷◌, Option, none, some, Text, ok, ◌≡◌, refl, ap, ◌∙◌, subst}
use solx_core.Json.{Value, IsDistinct}
use solx_core.Surface.Path.{trim}
use solx_core.Console.Table.{update}
use solx_core.Config.Policy.{validate_capabilities}
use solx_core.Actions.Mask.{mask_action_config_opt}
use solx_core.Actions.Mask.RoundTrip.{unmask_merge-mask_action_config}
use solx_core.Actions.Rows.{Row, ActionEntity, ActionInput, row_to_action, config_of}
use solx_core.Actions.Store.{
  find, get_row, get_unmasked, masked, merge_config, merged_row, merge_vec, write_row, save,
  set_row, is_at,
}
use solx_core.Actions.Store.Rows.{
  opt-or_empty, type_echo, config_of-column, find-update_self, set_found, get_unmasked-Located,
  Located-get_unmasked,
}

module _ {N : Type 0} where
  -- The payload with every field of an action as it was answered.
  abbrev pub input_of : ActionEntity N → ActionInput N
  input_of a = record {
    caption = a.caption;
    description = a.description;
    capabilities = a.capabilities;
    phrases = a.phrases;
    category = a.category;
    param_type_ref = a.param_type_ref;
    result_type_ref = a.result_type_ref;
    action_type = a.action_type;
    fn_name = a.fn_name;
    bin_name = a.bin_name;
    action_config = a.action_config;
    files = a.files;
    trusted = some a.trusted;
  }

  abbrev pub touched : ℕ → ActionEntity N → ActionEntity N
  touched now a = record a { updated_at = now }

  abbrev pub ConfigDistinct : Option (Value N) → Type 0
  ConfigDistinct none = Unit
  ConfigDistinct (some v) = IsDistinct v

  merge_config_echo :
      (cfg : Option (Value N)) (a : ActionEntity N)
      → a.action_config ≡ cfg
      → ConfigDistinct cfg
      → merge_config (mask_action_config_opt cfg) (some a) ≡ ok cfg
  unfolding mask_action_config_opt
  merge_config_echo none a e d = rw e refl
  merge_config_echo (some v) a e d = rw (e, unmask_merge-mask_action_config v d) refl

  list_echo :
      {A : Type 0} (xs : List A) (f : ActionEntity N → List A) (a : ActionEntity N)
      → f a ≡ xs
      → merge_vec xs f (some a) ≡ xs
  list_echo [] f a e = e
  list_echo (x ∷ xs) f a e = refl

  row_echo :
      (fresh path name : Text) (now : ℕ) (r : Row N)
      → row_to_action (
          set_row
            (merged_row fresh path name
              (input_of (masked (row_to_action r)))
              (config_of r.action_config)
              now
              (some (row_to_action r)))
            r)
        ≡ touched now (row_to_action r)
  unfolding row_to_action merged_row masked
  row_echo fresh path name now r = simp (
    opt-or_empty,
    type_echo,
    config_of-column,
    list_echo r.capabilities (λ (a : ActionEntity N). a.capabilities) (row_to_action r) refl,
    list_echo r.phrases (λ (a : ActionEntity N). a.phrases) (row_to_action r) refl,
    list_echo r.files (λ (a : ActionEntity N). a.files) (row_to_action r) refl,
  )

  echo :
      (fresh path name : Text) (now : ℕ) (r : Row N) (a : ActionEntity N)
      → row_to_action r ≡ a
      → row_to_action (
          set_row (merged_row fresh path name (input_of (masked a)) a.action_config now (some a)) r)
        ≡ touched now a
  unfolding row_to_action
  echo fresh path name now r a e =
      subst
        (λ b.
          row_to_action (
            set_row (merged_row fresh path name (input_of (masked b)) b.action_config now (some b))
              r)
          ≡ touched now b)
        e (row_echo fresh path name now r)

  -- Where the stored configuration repeats no key and the stored tags are valid: to save every field
  -- of an action as `get` has shown it, with the secrets redacted, succeeds and answers what was
  -- shown, and leaves the stored action, its secrets included, as it was but for the time of the last
  -- update.
  pub save-get :
      (raw name fresh : Text) (now : ℕ) (t : List (Row N)) (a : ActionEntity N)
      → get_unmasked raw name t ≡ ok a
      → ConfigDistinct a.action_config
      → validate_capabilities a.capabilities ≡ ok tt
      → (t' : List (Row N)) × (save raw name (input_of (masked a)) fresh now t
          ≡ ok (masked (touched now a), t'))
        × (get_unmasked raw name t' ≡ ok (touched now a))
  unfolding save get_row write_row masked merged_row
  save-get raw name fresh now t a h d c =
      let l = get_unmasked-Located raw name t a h in
      let new =
        merged_row fresh l.path (trim name) (input_of (masked a)) a.action_config now (some a) in
      let t' = update (is_at l.path (trim name)) (set_row new) t in
      let found : find l.path (trim name) t' ≡ some (set_row new l.row) =
        find-update_self l.path (trim name) new t ∙ ap (set_found new) l.found in
      let same : row_to_action (set_row new l.row) ≡ touched now a =
        echo fresh l.path (trim name) now l.row a l.same in
      (
        t',
        rw (l.normalized, l.valid, c, l.found, l.same, merge_config_echo a.action_config a refl d)
            (rw (found, same) refl),
        Located-get_unmasked raw name t' (touched now a) (record {
          path = l.path;
          fr = l.fr;
          row = set_row new l.row;
          normalized = l.normalized;
          valid = l.valid;
          referred = l.referred;
          found = found;
          same = same;
        }),
      )
