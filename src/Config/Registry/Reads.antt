-- ===== src/Config/Registry/Reads.antt =====
-- What is written to the configuration's object is read back from it.
use solx_core.Prelude.{List, [], ◌∷◌, Option, none, some, Text, text_eq, ok, ◌≡◌, refl}
use solx_core.Json.{lookup}
use solx_core.Config.Allowlist.Members.{strings_of-strings}
use solx_core.Config.Registry.{
  CommandDef, InstalledPackage, Commands, command_of, commands_of, command_value, command_fields,
  package_of, packages_of, package_value, package_items,
}

abbrev described : Option Text → Option Text → Text → CommandDef
described description cwd command = record {
  command = command;
  description = description;
  cwd = cwd;
}

module _ (N : Type 0) where
  def_round :
      (command : Text) (description cwd : Option Text)
      → command_of {N = N} (command_value (described description cwd command))
        ≡ ok (described description cwd command)
  unfolding command_of command_value lookup text_eq
  def_round command none none = refl
  def_round command none (some c) = refl
  def_round command (some d) none = refl
  def_round command (some d) (some c) = refl

  pub commands_of-command_fields :
      (map : Commands) → commands_of {N = N} (command_fields map) ≡ ok map
  unfolding commands_of command_fields
  commands_of-command_fields [] = refl
  commands_of-command_fields ((k, def) ∷ map) =
      rw (def_round def.command def.description def.cwd, commands_of-command_fields map) refl

  package_round : (p : InstalledPackage) → package_of {N = N} (package_value p) ≡ ok p
  unfolding package_of package_value lookup text_eq
  package_round p =
      rw (strings_of-strings N p.granted_commands, strings_of-strings N p.granted_base_urls) refl

  pub packages_of-package_items :
      (list : List InstalledPackage) → packages_of {N = N} (package_items list) ≡ ok list
  unfolding packages_of package_items
  packages_of-package_items [] = refl
  packages_of-package_items (p ∷ list) = rw (package_round p, packages_of-package_items list) refl
