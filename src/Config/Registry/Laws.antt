-- ===== src/Config/Registry/Laws.antt =====
-- What each registration makes of the command actions, the packages and the allowlist.
use solx_core.Prelude.{
  Bool, false, not, ◌&&◌, ◌||◌, List, [], ◌∷◌, ◌++◌, Option, none, some, if◌then◌else◌, Text,
  text_eq, text_eq_iff, text_eq_refl, ◌≡◌, refl, sym, ap, subst, ◌∙◌, arith,
}
use solx_core.Json.{Value, object, array, Fields, lookup, insert}
use solx_core.Json.Laws.{DistinctKeys, DistinctKeys-insert}
use solx_core.Config.Allowlist.{
  key_base_urls, key_base_urls_legacy, has, read_base_urls, add_allowed_base_url,
  remove_allowed_base_url,
}
use solx_core.Config.Allowlist.Remove.{lookup-insert}
use solx_core.Config.Allowlist.Members.{
  add_allowed_base_url_lem, remove_allowed_base_url_lem, write_base_urls-DistinctKeys,
}
use solx_core.Config.Registry.{
  CommandDef, InstalledPackage, Commands, key_commands, key_packages, insert_command,
  remove_command, find_command, retain_others, read_commands, read_packages, write_commands,
  write_packages, register_command, deregister_command, register_package, unregister_package,
  commands_at, packages_at,
}
use solx_core.Config.Registry.Reads.{commands_of-command_fields, packages_of-package_items}

find-insert_command :
    (j key : Text) (def : CommandDef) (map : Commands)
    → find_command j (insert_command key def map)
      ≡ (if text_eq key j then some def else find_command j map)
unfolding find_command insert_command
find-insert_command j key def [] = refl
find-insert_command j key def ((k, d) ∷ map) = ground (
  arith,
  text_eq_iff k key,
  text_eq_iff k j,
  text_eq_iff key j,
  find-insert_command j key def map,
)

find-remove_command :
    (j key : Text) (map : Commands)
    → find_command j (remove_command key map) ≡ (if text_eq key j then none else find_command j map)
unfolding find_command remove_command
find-remove_command j key [] = ground arith
find-remove_command j key ((k, d) ∷ map) =
    ground
      (arith, text_eq_iff k key, text_eq_iff k j, text_eq_iff key j, find-remove_command j key map)

module _ {N : Type 0} where
  pub read_commands-write :
      (map : Commands) (obj : Fields N) → read_commands (write_commands map obj) ≡ map
  unfolding read_commands
  read_commands-write map obj =
      rw (lookup-insert key_commands key_commands (object _) obj, text_eq_refl key_commands)
        (rw (commands_of-command_fields N map) refl)

  pub read_packages-write :
      (list : List InstalledPackage) (obj : Fields N)
      → read_packages (write_packages list obj) ≡ list
  unfolding read_packages
  read_packages-write list obj =
      rw (lookup-insert key_packages key_packages (array _) obj, text_eq_refl key_packages)
        (rw (packages_of-package_items N list) refl)

  -- A write to one key is not read under another.
  packages_past :
      (map : Commands) (obj : Fields N) → read_packages (write_commands map obj) ≡ read_packages obj
  unfolding read_packages text_eq
  packages_past map obj = rw (lookup-insert key_packages key_commands (object _) obj) refl

  commands_past :
      (list : List InstalledPackage) (obj : Fields N)
      → read_commands (write_packages list obj) ≡ read_commands obj
  unfolding read_commands text_eq
  commands_past list obj = rw (lookup-insert key_commands key_packages (array _) obj) refl

  urls_past :
      (k : Text) (v : Value N) (obj : Fields N)
      → text_eq k key_base_urls ≡ false
      → text_eq k key_base_urls_legacy ≡ false
      → read_base_urls (insert k v obj) ≡ read_base_urls obj
  unfolding read_base_urls
  urls_past k v obj a b =
      rw (lookup-insert key_base_urls k v obj, lookup-insert key_base_urls_legacy k v obj, a, b)
        refl

  -- What is read of an object: the definition of each command, whether each prefix is admitted, and
  -- the packages.
  pub record Shows (obj : Fields N) (commands : Text → Option CommandDef) (admits : Text → Bool)
      (packages : List InstalledPackage) : Type 0 where
    pub valid : DistinctKeys obj
    pub shows_command : (j : Text) → find_command j (read_commands obj) ≡ commands j
    pub shows_prefix : (q : Text) → has q (read_base_urls obj) ≡ admits q
    pub shows_packages : read_packages obj ≡ packages

  module _ (obj : Fields N) (commands : Text → Option CommandDef) (admits : Text → Bool)
      (packages : List InstalledPackage) (at : Shows obj commands admits packages) where
    commands_written :
        (map : Commands) (c : Text → Option CommandDef)
        → ((j : Text) → find_command j map ≡ c j)
        → Shows (write_commands map obj) c admits packages
    unfolding text_eq
    commands_written map c h = record {
      valid = DistinctKeys-insert key_commands _ obj at.valid;
      shows_command = λ j. rw (read_commands-write map obj) (h j);
      shows_prefix =
          λ q. ap (has q) (urls_past key_commands (object _) obj refl refl) ∙ at.shows_prefix q;
      shows_packages = packages_past map obj ∙ at.shows_packages;
    }

    packages_written :
        (list : List InstalledPackage) → Shows (write_packages list obj) commands admits list
    unfolding text_eq
    packages_written list = record {
      valid = DistinctKeys-insert key_packages _ obj at.valid;
      shows_command = λ j. ap (find_command j) (commands_past list obj) ∙ at.shows_command j;
      shows_prefix =
          λ q. ap (has q) (urls_past key_packages (array _) obj refl refl) ∙ at.shows_prefix q;
      shows_packages = read_packages-write list obj;
    }

    pub register_command-Shows :
        (key : Text) (def : CommandDef)
        → Shows
            (register_command key def obj)
            (λ j. if text_eq key j then some def else commands j)
            admits
            packages
    unfolding register_command
    register_command-Shows key def = commands_written _ _ (λ j.
        find-insert_command j key def (read_commands obj)
        ∙ ap (λ o. if text_eq key j then some def else o) (at.shows_command j))

    pub deregister_command-Shows :
        (key : Text)
        → Shows
            (deregister_command key obj)
            (λ j. if text_eq key j then none else commands j)
            admits
            packages
    unfolding deregister_command
    deregister_command-Shows key = commands_written _ _ (λ j.
        find-remove_command j key (read_commands obj)
        ∙ ap (λ o. if text_eq key j then none else o) (at.shows_command j))

    pub register_package-Shows :
        (pkg : InstalledPackage)
        → Shows
            (register_package pkg obj)
            commands
            admits
            (retain_others pkg.name packages ++ pkg ∷ [])
    unfolding register_package
    register_package-Shows pkg =
        subst
          (λ l.
            Shows (write_packages (retain_others pkg.name l ++ pkg ∷ []) obj) commands admits
              (retain_others pkg.name packages ++ pkg ∷ []))
          (sym at.shows_packages) (packages_written _)

    pub unregister_package-Shows :
        (name : Text)
        → Shows (unregister_package name obj) commands admits (retain_others name packages)
    unfolding unregister_package
    unregister_package-Shows name =
        subst
          (λ l.
            Shows (write_packages (retain_others name l) obj) commands admits
              (retain_others name packages))
          (sym at.shows_packages) (packages_written _)

    -- The allowlist is written under its own keys.
    urls_written :
        (obj' : Fields N) (u : Text → Bool)
        → DistinctKeys obj'
        → ((q : Text) → has q (read_base_urls obj') ≡ u q)
        → ((j : Text)
            → text_eq key_base_urls j ≡ false
            → text_eq key_base_urls_legacy j ≡ false
            → lookup j obj' ≡ lookup j obj)
        → Shows obj' commands u packages
    unfolding read_commands read_packages text_eq
    urls_written obj' u d h same = record {
      valid = d;
      shows_command = λ j.
          ap (λ o. find_command j (commands_at o)) (same key_commands refl refl)
          ∙ at.shows_command j;
      shows_prefix = h;
      shows_packages = ap packages_at (same key_packages refl refl) ∙ at.shows_packages;
    }

    pub add_allowed_base_url-Shows :
        (prefix : Text)
        → Shows
            (add_allowed_base_url prefix obj)
            commands
            (λ q. text_eq prefix q || admits q)
            packages
    unfolding add_allowed_base_url
    add_allowed_base_url-Shows prefix =
        let (added, _, same) = add_allowed_base_url_lem prefix obj at.valid in
        urls_written _ _ (write_base_urls-DistinctKeys _ obj at.valid)
          (λ q. added q ∙ ap (λ b. text_eq prefix q || b) (at.shows_prefix q)) same

    pub remove_allowed_base_url-Shows :
        (prefix : Text)
        → Shows
            (remove_allowed_base_url prefix obj)
            commands
            (λ q. not (text_eq prefix q) && admits q)
            packages
    unfolding remove_allowed_base_url
    remove_allowed_base_url-Shows prefix =
        let (gone, _, same) = remove_allowed_base_url_lem prefix obj at.valid in
        urls_written _ _ (write_base_urls-DistinctKeys _ obj at.valid)
          (λ q. gone q ∙ ap (λ b. not (text_eq prefix q) && b) (at.shows_prefix q)) same
