-- ===== src/Actions/Webhook/Template.antt =====
-- solx-actions/src/exec.rs: the URL that a webhook's template gives, and the parameters that are left.
use solx_core.Prelude.{
  ℕ, zero, suc, [], ◌∷◌, ◌++◌, Option, none, some, if◌then◌else◌, length, drop, Text, codes,
}
use solx_core.Json.{Value, null, bool, number, string, array, object, Fields, end, field, get_key}
use solx_core.Config.Allowlist.{remove}
use solx_core.Actions.Net.{starts_with}
use solx_core.Actions.Effects.{as_str, as_object, config_key}

-- `str::replace`, with the number of characters that a match still covers.
unfoldable pub replace_from : ℕ → Text → Text → Text → Text
replace_from skip pattern by [] = []
replace_from (suc skip) pattern by (c ∷ s) = replace_from skip pattern by s
replace_from zero pattern by (c ∷ s) =
    let matched = by ++ replace_from (length (drop 1 pattern)) pattern by s in
    let past = c ∷ replace_from zero pattern by s in
    if starts_with (c ∷ s) pattern then matched else past

abbrev pub placeholder : Text → Text
placeholder key = b'{' ∷ (key ++ b'}' ∷ [])

abbrev pub substitute_one : Text → Option Text → Text → Text
substitute_one key none url = url
substitute_one key (some val) url = replace_from 0 (placeholder key) val url

module _ {N : Type 0} where
  abbrev pub without_key : Text → Value N → Value N
  without_key key (object fs) = object (remove key fs)
  without_key key null = null
  without_key key (bool b) = bool b
  without_key key (number n) = number n
  without_key key (string s) = string s
  without_key key (array vs) = array vs

  -- The loop over the keys, with the URL and the parameters that remain.
  unfoldable pub substitute_keys : Fields N → Value N → Text → Value N → Text × Value N
  substitute_keys end params url remaining = (url, remaining)
  substitute_keys (field key v keys) params url remaining =
      substitute_keys keys params (substitute_one key (as_str (get_key key params)) url)
        (without_key key remaining)

  abbrev pub substitute_in : Option (Fields N) → Text → Value N → Text × Value N
  substitute_in none url params = (url, params)
  substitute_in (some keys) url params = substitute_keys keys params url params

  unfoldable pub substitute_path_params : Text → Option (Value N) → Value N → Text × Value N
  substitute_path_params url action_config params =
      substitute_in (as_object (config_key (codes "path_params") action_config)) url params
