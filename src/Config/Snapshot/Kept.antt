-- ===== src/Config/Snapshot/Kept.antt =====
-- A registration leaves a configuration that is read as a whole readable as a whole.
use solx_core.Prelude.{
  Bool, true, ◌&&◌, List, [], ◌∷◌, if◌then◌else◌, Text, text_eq, ◌≡◌, refl, inl, inr, Bool-cases,
  arith,
}
use solx_core.Json.{Value, Fields, insert, array, object}
use solx_core.Json.Laws.{DistinctKeys, DistinctKeys-insert}
use solx_core.Config.Allowlist.{
  key_base_urls, key_base_urls_legacy, strings, remove, write_base_urls, add_allowed_base_url,
}
use solx_core.Config.Allowlist.Remove.{lookup-insert, lookup-remove}
use solx_core.Config.Allowlist.Members.{strings_of-strings}
use solx_core.Config.Registry.{
  CommandDef, InstalledPackage, key_commands, key_packages, read_packages, register_command,
  register_package,
}
use solx_core.Config.Registry.Reads.{commands_of-command_fields, packages_of-package_items}
use solx_core.Config.Snapshot.{
  Integers, FieldType, solx_config, value_fits, fields_fit, is_config, list_packages,
}

module _ {N : Type 0} (ints : Integers N) where
  pub list_packages-read_packages :
      (obj : Fields N) → is_config ints obj ≡ true → list_packages ints obj ≡ read_packages obj
  unfolding list_packages
  list_packages-read_packages obj h = rw h refl

  -- A value of the type that the key has, if it is one of the fields.
  abbrev fits_at : Text → Value N → List (Text × FieldType) → Bool
  fits_at k v [] = true
  fits_at k v ((key, type) ∷ types) =
      (if text_eq k key then value_fits ints type v else true) && fits_at k v types

  fields_fit-insert :
      (types : List (Text × FieldType)) (k : Text) (v : Value N) (obj : Fields N)
      → fits_at k v types ≡ true
      → fields_fit ints types obj ≡ true
      → fields_fit ints types (insert k v obj) ≡ true
  unfolding fields_fit
  fields_fit-insert [] k v obj a h = refl
  fields_fit-insert ((key, type) ∷ types) k v obj a h =
      let later = fields_fit-insert types k v obj (ground (arith, a)) (ground (arith, h)) in
      rw (lookup-insert key k v obj, later)
        (elim (Bool-cases (text_eq k key)) [
          | inl e ↦ rw e (let here = rw e at a in ground (arith, here))
          | inr e ↦ rw e (ground (arith, h))
        ])

  fields_fit-remove :
      (types : List (Text × FieldType)) (k : Text) (obj : Fields N)
      → DistinctKeys obj
      → fields_fit ints types obj ≡ true
      → fields_fit ints types (remove k obj) ≡ true
  unfolding fields_fit
  fields_fit-remove [] k obj d h = refl
  fields_fit-remove ((key, type) ∷ types) k obj d h =
      let later = fields_fit-remove types k obj d (ground (arith, h)) in
      rw (lookup-remove key k obj d, later)
        (elim (Bool-cases (text_eq k key)) [ inl e ↦ rw e refl | inr e ↦ rw e (ground (arith, h)) ])

  pub register_command-is_config :
      (key : Text) (def : CommandDef) (obj : Fields N)
      → is_config ints obj ≡ true
      → is_config ints (register_command key def obj) ≡ true
  unfolding register_command text_eq
  register_command-is_config key def obj h =
      fields_fit-insert solx_config key_commands (object _) obj
        (rw (commands_of-command_fields N _) refl) h

  pub register_package-is_config :
      (pkg : InstalledPackage) (obj : Fields N)
      → is_config ints obj ≡ true
      → is_config ints (register_package pkg obj) ≡ true
  unfolding register_package text_eq
  register_package-is_config pkg obj h =
      fields_fit-insert solx_config key_packages (array _) obj
        (rw (packages_of-package_items N _) refl) h

  pub add_allowed_base_url-is_config :
      (prefix : Text) (obj : Fields N)
      → DistinctKeys obj
      → is_config ints obj ≡ true
      → is_config ints (add_allowed_base_url prefix obj) ≡ true
  unfolding add_allowed_base_url write_base_urls text_eq
  add_allowed_base_url-is_config prefix obj d h =
      fields_fit-remove solx_config key_base_urls_legacy
        (insert key_base_urls (array (strings _)) obj) (DistinctKeys-insert key_base_urls _ obj d)
        (fields_fit-insert solx_config key_base_urls (array (strings _)) obj
          (rw (strings_of-strings N _) refl) h)
