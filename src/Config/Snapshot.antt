-- ===== src/Config/Snapshot.antt =====
-- solx-config/src/lib.rs and types.rs: the typed snapshot of the configuration. It is read as a whole:
-- one key that serde cannot read leaves the defaults of all. The tests for the ranges of the integer
-- types on serde_json's numbers are parameters; a struct is read from an object only.
pub mod Kept
use solx_core.Prelude.{
  Bool, true, false, ◌&&◌, List, [], ◌∷◌, Option, none, some, if◌then◌else◌, is_some, Text, codes,
  ok, err,
}
use solx_core.Json.{
  Value, null, bool, number, string, array, object, Items, nil, cons, Fields, end, field, lookup,
}
use solx_core.Config.Allowlist.{key_base_urls, key_base_urls_legacy, strings_of}
use solx_core.Config.Registry.{
  InstalledPackage, Read, key_commands, key_packages, text_of, commands_of, packages_of,
  read_packages,
}

pub record Integers (N : Type 0) : Type 0 where
  pub is_u16 : N → Bool
  pub is_u64 : N → Bool
  pub is_i64 : N → Bool

-- The types of the fields of `SolxConfig`.
pub data FieldType : Type 0 where
  text_type bool_type u16_type u64_type i64_type texts_type : FieldType
  text_map_type text_maps_type commands_type packages_type rules_type : FieldType

abbrev pub solx_config : List (Text × FieldType)
solx_config =
    (codes "data_directory", text_type)
    ∷ (codes "files_directory", text_type)
    ∷ (codes "models_directory", text_type)
    ∷ (codes "search_index_dir", text_type)
    ∷ (codes "docs_db", text_type)
    ∷ (codes "actions_db", text_type)
    ∷ (codes "types_db", text_type)
    ∷ (key_packages, packages_type)
    ∷ (codes "env_mappings", text_map_type)
    ∷ (codes "env_vars", text_maps_type)
    ∷ (codes "server_url", text_type)
    ∷ (codes "server_token", text_type)
    ∷ (codes "server_port", u16_type)
    ∷ (codes "server_host", text_type)
    ∷ (codes "server_cors_origins", texts_type)
    ∷ (codes "server_embedded", bool_type)
    ∷ (codes "console_max_entries", i64_type)
    ∷ (codes "console_ttl_days", i64_type)
    ∷ (codes "background_timeout_secs", u64_type)
    ∷ (codes "stop_grace_secs", u64_type)
    ∷ (codes "invocation_ttl_days", i64_type)
    ∷ (codes "http_stream_idle_ttl_secs", u64_type)
    ∷ (codes "http_stream_max_buffer_bytes", u64_type)
    ∷ (key_commands, commands_type)
    ∷ (key_base_urls, texts_type)
    ∷ (key_base_urls_legacy, texts_type)
    ∷ (codes "tool_exclude", rules_type)
    ∷ (codes "mcp_exclude", rules_type)
    ∷ (codes "tool_destructive", rules_type)
    ∷ []

abbrev pub is_read : {A : Type 0} → Read A → Bool
is_read (ok a) = true
is_read (err e) = false

module _ {N : Type 0} where
  abbrev pub is_text_map : Fields N → Bool
  is_text_map end = true
  is_text_map (field k v fs) = is_read (text_of (some v)) && is_text_map fs

  abbrev pub is_text_map_value : Value N → Bool
  is_text_map_value (object fs) = is_text_map fs
  is_text_map_value _ = false

  abbrev pub are_text_maps : Fields N → Bool
  are_text_maps end = true
  are_text_maps (field k v fs) = is_text_map_value v && are_text_maps fs

  abbrev pub are_optional_texts : Option (Value N) → Bool
  are_optional_texts none = true
  are_optional_texts (some null) = true
  are_optional_texts (some (array vs)) = is_some (strings_of vs)
  are_optional_texts (some _) = false

  -- `ToolRule`.
  abbrev pub is_rule : Value N → Bool
  is_rule (object fs) =
      is_read (text_of (lookup (codes "path") fs))
      && are_optional_texts (lookup (codes "actions") fs)
  is_rule _ = false

  abbrev pub are_rules : Items N → Bool
  are_rules nil = true
  are_rules (cons v vs) = is_rule v && are_rules vs

  module _ (ints : Integers N) where
    -- A value that stands under the key; the list of packages alone may not be null.
    abbrev pub value_fits : FieldType → Value N → Bool
    value_fits packages_type (array vs) = is_read (packages_of vs)
    value_fits packages_type _ = false
    value_fits _ null = true
    value_fits text_type (string s) = true
    value_fits bool_type (bool b) = true
    value_fits u16_type (number n) = ints.is_u16 n
    value_fits u64_type (number n) = ints.is_u64 n
    value_fits i64_type (number n) = ints.is_i64 n
    value_fits texts_type (array vs) = is_some (strings_of vs)
    value_fits text_map_type (object fs) = is_text_map fs
    value_fits text_maps_type (object fs) = are_text_maps fs
    value_fits commands_type (object fs) = is_read (commands_of fs)
    value_fits rules_type (array vs) = are_rules vs
    value_fits _ _ = false

    abbrev pub fits : FieldType → Option (Value N) → Bool
    fits type none = true
    fits type (some v) = value_fits type v

    unfoldable pub fields_fit : List (Text × FieldType) → Fields N → Bool
    fields_fit [] obj = true
    fields_fit ((key, type) ∷ types) obj = fits type (lookup key obj) && fields_fit types obj

    -- Whether `from_value` reads a `SolxConfig`.
    abbrev pub is_config : Fields N → Bool
    is_config obj = fields_fit solx_config obj

    unfoldable pub list_packages : Fields N → List InstalledPackage
    list_packages obj = if is_config obj then read_packages obj else []
