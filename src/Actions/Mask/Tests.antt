-- ===== src/Actions/Mask/Tests.antt =====
-- Runs of the masks and the merge, and the theorems about them at concrete configurations.
use solx_core.Prelude.{ℕ, none, some, ◌≡◌, refl, [], ◌∷◌, Text, codes, text_eq, ok}
use solx_core.Json.{
  Value, string, array, object, Fields, end, field, lookup, insert, modify, nth, push, get_key,
  get_index, IsDistinct,
}
use solx_core.Actions.Mask.{
  mask_text, key, ends_with, auth_key_is_visible, mask_all_strings, mask_auth, mask_action_config,
  walk, unmask_merge,
}
use solx_core.Actions.Mask.RoundTrip.{unmask_merge-mask_action_config}
use solx_core.Actions.Mask.Refusal.{at, unmask_merge_refused}
use solx_core.Actions.Mask.Hides.{mask_auth-texts, texts}

runs : Unit {0}
unfolding lookup insert modify nth push get_key get_index ends_with auth_key_is_visible
    mask_all_strings mask_auth mask_action_config walk unmask_merge text_eq
runs = tt

abbrev text : Text → Value ℕ
text s = string s

abbrev stored_fields : Fields ℕ
stored_fields = field (codes "cwd") (text (codes "/old")) (
    field (codes "secrets") (object (field (codes "API_TOKEN") (text (codes "aGVsbG8=")) end)) (
      field (codes "auth")
        (object (
          field (codes "type") (text (codes "bearer"))
            (field (codes "token") (text (codes "rt")) end)))
        end))

abbrev stored : Value ℕ
stored = object stored_fields

abbrev fetched : Value ℕ
fetched = object (
    field (codes "cwd") (text (codes "/old")) (
      field (codes "secrets") (object (field (codes "API_TOKEN") (text mask_text) end)) (
        field (codes "auth")
          (object (
            field (codes "type") (text (codes "bearer"))
              (field (codes "token") (text mask_text) end)))
          end)))

masks_secrets_and_auth : mask_action_config stored ≡ fetched
unfolding runs
masks_secrets_and_auth = refl

stored-IsDistinct : IsDistinct stored
unfolding runs
stored-IsDistinct = (refl, tt, (refl, (refl, tt, tt), (refl, (refl, tt, (refl, tt, tt)), tt)))

unmask_merge-mask_action_config_example :
    unmask_merge (mask_action_config stored) (some stored) ≡ ok stored
unmask_merge-mask_action_config_example = unmask_merge-mask_action_config stored stored-IsDistinct

abbrev echoed : Value ℕ
echoed = object (field (codes "B") (text mask_text) end)

unmask_merge_refused_example :
    (at (key (codes "B") ∷ []) (some echoed) ≡ some (text mask_text))
    × (at (key (codes "B") ∷ []) (some stored) ≡ none)
unmask_merge_refused_example =
    unmask_merge_refused echoed (some stored) (key (codes "B") ∷ []) (unfold runs in (refl, tt, tt))
      (unfold runs in refl)

-- Whatever the key is, the texts of the list are shown.
keeps_a_list_of_texts :
    mask_auth {N = ℕ}
      (object (field (codes "refresh_tokens") (array (texts (codes "rt" ∷ []))) end))
    ≡ object (field (codes "refresh_tokens") (array (texts (codes "rt" ∷ []))) end)
keeps_a_list_of_texts = mask_auth-texts (codes "refresh_tokens") (codes "rt" ∷ [])
