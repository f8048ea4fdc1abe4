-- ===== src/Packages/Tests.antt =====
-- An installation and a removal, and the theorems about them at these.
use solx_core.Prelude.{
  ltb, ℕ, Bool, true, false, not, ◌&&◌, ◌||◌, [], ◌∷◌, Option, none, some, if◌then◌else◌, any, Text,
  codes, text_eq, ok, err, ◌≡◌, refl,
}
use solx_core.Json.{Value, string, array, object, Fields, end, field, lookup, insert, get_key}
use solx_core.Surface.Error.{exec, not_found}
use solx_core.Config.Allowlist.{
  has, union, without, strings_of, strings, read_base_urls, last_first, remove, write_base_urls,
  add_allowed_base_url, remove_allowed_base_url,
}
use solx_core.Config.Registry.{
  CommandDef, InstalledPackage, insert_command, remove_command, find_command, retain_others,
  command_of, commands_of, command_value, command_fields, package_of, packages_of, package_value,
  package_items, read_commands, read_packages, register_command, deregister_command,
  register_package, unregister_package,
}
use solx_core.Config.Registry.Laws.{Shows}
use solx_core.Packages.{
  Paths, Script, legacy_manifest, command_granted, grants_command, grants_prefix, is_named,
  find_owner, keys, command_warnings, prefix_warnings, resolve_cwd, grant_commands, grant_urls,
  install_granted, install_package, revoke_commands, revoke_urls, uninstall_package,
}
use solx_core.Config.Snapshot.{Integers, fields_fit, is_config, list_packages}
use solx_core.Packages.Manifest.{Grants, parse_grants}
use solx_core.Packages.Loops.{granted}
use solx_core.Packages.Restored.{uninstall_package-install_granted}
use solx_core.Packages.Outcomes.{
  packages_after, EndsAs, record_of, install_granted-Shows, uninstall_package-Shows,
}

runs : Unit {0}
unfolding fields_fit list_packages text_eq lookup insert get_key union without strings_of strings
    read_base_urls last_first remove write_base_urls add_allowed_base_url remove_allowed_base_url
    insert_command remove_command find_command retain_others command_of commands_of command_value
    command_fields package_of packages_of package_value package_items read_commands read_packages
    register_command deregister_command register_package unregister_package find_owner
    command_warnings prefix_warnings resolve_cwd parse_grants grant_commands grant_urls
    install_granted install_package revoke_commands revoke_urls uninstall_package
runs = tt

abbrev paths : Paths
paths = record { is_relative = λ cwd. text_eq cwd (codes "bin"); join = λ dir cwd. cwd }

abbrev mail : InstalledPackage
mail = record {
  name = codes "mail";
  version = codes "1";
  path = codes "/mail";
  installed_at = codes "now";
  granted_commands = codes "send" ∷ codes "sync" ∷ [];
  granted_base_urls = codes "https://m.com/" ∷ [];
}

-- `mail` is installed, and has been granted `sync` after another package.
abbrev before : Fields ℕ
unfolding runs
before =
    field (codes "installed_packages")
      (array (
        package_items (
          record {
            name = codes "calendar";
            version = codes "2";
            path = codes "/calendar";
            installed_at = codes "then";
            granted_commands = codes "sync" ∷ [];
            granted_base_urls = [];
          }
          ∷ mail
          ∷ [])))
      (field (codes "command_actions")
        (object (
          command_fields (
            (codes "sync", record { command = codes "s"; description = none; cwd = none })
            ∷ (codes "send", record { command = codes "m"; description = none; cwd = none })
            ∷ [])))
        (field (codes "allowed_base_urls") (array (strings (codes "https://m.com/" ∷ []))) end))

abbrev commands_before : Text → Option CommandDef
commands_before j = find_command j (read_commands before)

abbrev admits_before : Text → Bool
admits_before q = has q (read_base_urls before)

before-Shows : Shows before commands_before admits_before (read_packages before)
unfolding runs
before-Shows = record {
  valid = (refl, (refl, (refl, tt)));
  shows_command = λ j. refl;
  shows_prefix = λ q. refl;
  shows_packages = refl;
}

abbrev ints : Integers ℕ
ints = record {
  is_u16 = λ n. ltb n 65536;
  is_u64 = λ n. ltb n 18446744073709551616;
  is_i64 = λ n. ltb n 9223372036854775808;
}

before_read : is_config ints before ≡ true
unfolding runs
before_read = refl

-- One key of another type hides every package.
hides_the_packages :
    (uninstall_package ints
      (codes "mail")
      (λ p o. (ok tt, o))
      (field (codes "server_port") (string (codes "80")) before)).0
    ≡ err not_found
unfolding runs
hides_the_packages = refl

abbrev manifest : Value ℕ
manifest = object (
    field (codes "name") (string (codes "feed")) (
      field (codes "command_actions")
        (object (
          field (codes "sync")
            (object (
              field (codes "command") (string (codes "f"))
                (field (codes "cwd") (string (codes "bin")) end)))
            end))
        (field (codes "allowed_webhook_base_urls") (array (strings (codes "https://f.com/" ∷ [])))
          end)))

abbrev grants : Grants
grants = record {
  commands =
      (codes "sync", record { command = codes "f"; description = none; cwd = some (codes "bin") })
      ∷ [];
  base_urls = codes "https://f.com/" ∷ [];
}

abbrev quiet : Script ℕ
quiet obj = (ok tt, obj)

abbrev failing : Script ℕ
failing obj = (err exec, obj)

-- A manifest of the former name, which takes over a command of another package.
reads_a_manifest : parse_grants manifest ≡ ok grants
unfolding runs
reads_a_manifest = refl

warns_of_another_package :
    (install_package ints paths (codes "/feed") (codes "now") true manifest quiet before).0
    ≡ ok (record {
      installed = record_of (codes "/feed") (codes "now") (codes "feed") (codes "0.0.0") grants;
      warnings = legacy_manifest ∷ command_granted (codes "sync") (codes "calendar") ∷ [];
    })
unfolding runs
warns_of_another_package = refl

-- The grants of a package whose script fails stay, and no package is recorded with them.
keeps_the_grants_of_a_failed_script :
    ((install_package ints paths (codes "/feed") (codes "now") true manifest failing before).0
      ≡ err exec)
    × (has (codes "https://f.com/") (
          read_base_urls
            (install_package ints paths
              (codes "/feed")
              (codes "now")
              true
              manifest
              failing
              before).1)
        ≡ true)
unfolding runs
keeps_the_grants_of_a_failed_script = (refl, refl)

install_granted-Shows_example :
    EndsAs
      (err exec)
      (record_of (codes "/feed") (codes "now") (codes "feed") (codes "1") grants)
      (install_granted ints paths
        (codes "/feed")
        (codes "now")
        false
        (codes "feed")
        (codes "1")
        grants
        (λ o. (err exec, o))
        before).0
    × Shows
        (install_granted ints paths
          (codes "/feed")
          (codes "now")
          false
          (codes "feed")
          (codes "1")
          grants
          (λ o. (err exec, o))
          before).1
        (λ j. granted paths (codes "/feed") grants.commands j (commands_before j))
        (λ q. has q grants.base_urls || admits_before q)
        (packages_after
          (err exec)
          (record_of (codes "/feed") (codes "now") (codes "feed") (codes "1") grants)
          (read_packages before))
install_granted-Shows_example =
    install_granted-Shows ints paths (codes "/feed") (codes "now") false (codes "feed") (codes "1")
      grants (err exec) before commands_before admits_before (read_packages before) before-Shows

finds_mail : find_owner (is_named (codes "mail")) (list_packages ints before) ≡ some mail
unfolding runs
finds_mail = refl

uninstall_package-Shows_example :
    ((uninstall_package ints (codes "mail") (λ p. quiet) before).0 ≡ ok tt)
    × Shows
        (uninstall_package ints (codes "mail") (λ p. quiet) before).1
        (λ j.
          if has j mail.granted_commands
            && not
                (any (grants_command j) (retain_others (codes "mail") (list_packages ints before)))
          then none
          else commands_before j)
        (λ q.
          not (
            has q mail.granted_base_urls
            && not
                (any (grants_prefix q) (retain_others (codes "mail") (list_packages ints before))))
          && admits_before q)
        (retain_others (codes "mail") (read_packages before))
uninstall_package-Shows_example =
    uninstall_package-Shows ints (codes "mail") (λ p. quiet) before before mail commands_before
      admits_before (read_packages before) finds_mail refl before-Shows

-- The command of both packages stays.
revokes_what_no_other_package_claims :
    (find_command
        (codes "send")
        (read_commands (uninstall_package ints (codes "mail") (λ p. quiet) before).1)
      ≡ none)
    × (find_command
          (codes "sync")
          (read_commands (uninstall_package ints (codes "mail") (λ p. quiet) before).1)
        ≡ commands_before (codes "sync"))
unfolding runs
revokes_what_no_other_package_claims = (refl, refl)

uninstall_package-install_granted_example :
    Shows
      (uninstall_package ints
        (codes "feed")
        (λ p o. (ok tt, o))
        (install_granted ints paths
          (codes "/feed")
          (codes "now")
          false
          (codes "feed")
          (codes "1")
          grants
          (λ o. (ok tt, o))
          before).1).1
      (λ j.
        if has j (keys grants.commands)
        then (if any (grants_command j) (retain_others (codes "feed") (read_packages before))
            then granted paths (codes "/feed") grants.commands j (commands_before j)
            else none)
        else commands_before j)
      (λ q.
        if has q grants.base_urls
        then any (grants_prefix q) (retain_others (codes "feed") (read_packages before))
        else admits_before q)
      (retain_others (codes "feed") (read_packages before))
uninstall_package-install_granted_example =
    uninstall_package-install_granted ints paths (codes "/feed") (codes "now") false (codes "feed")
      (codes "1") grants before commands_before admits_before (read_packages before) before_read
      before-Shows
