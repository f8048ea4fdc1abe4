-- ===== src/Packages.antt =====
-- solx-packages/src/lib.rs: what an installation grants, and what is revoked ints when the package goes,
-- in the configuration's JSON object. Running the package's script is a parameter, what it does to
-- this object and how it ends: the script's commands are dispatched by the runner. So are the paths
-- of the standard library. The texts of the warnings are left out.
pub mod Manifest
pub mod Loops
pub mod Outcomes
pub mod Whole
pub mod Restored
mod Tests
use solx_core.Prelude.{
  Bool, true, false, not, List, [], ◌∷◌, ◌++◌, Option, none, some, if◌then◌else◌, any, Text, codes,
  text_eq, Result, ok, err, ◌>>=◌,
}
use solx_core.Json.{
  Value, null, bool, number, string, array, object, Fields, end, field, lookup, get_key,
}
use solx_core.Surface.Error.{SolxError, not_found, invalid, Fallible}
use solx_core.Config.Allowlist.{
  key_base_urls, key_base_urls_legacy, has, add_allowed_base_url, remove_allowed_base_url,
}
use solx_core.Config.Registry.{
  CommandDef, InstalledPackage, Commands, key_commands, Read, commands_of, texts_of, retain_others,
  register_command, deregister_command, register_package, unregister_package,
}
use solx_core.Config.Snapshot.{Integers, list_packages}
use solx_core.Packages.Manifest.{Grants, parse_grants, named, version_in}

pub data Warning : Type 0 where
  legacy_manifest : Warning
  command_granted : Text → Text → Warning
  prefix_granted : Text → Text → Warning

pub record InstallOutcome : Type 0 where
  pub installed : InstalledPackage
  pub warnings : List Warning

-- `Path::is_relative`, and a join whose `.` components are dropped.
pub record Paths : Type 0 where
  pub is_relative : Text → Bool
  pub join : Text → Text → Text

unfoldable pub find_owner :
    (InstalledPackage → Bool) → List InstalledPackage → Option InstalledPackage
find_owner test [] = none
find_owner test (p ∷ list) = if test p then some p else find_owner test list

abbrev pub grants_command : Text → InstalledPackage → Bool
grants_command key p = has key p.granted_commands

abbrev pub grants_prefix : Text → InstalledPackage → Bool
grants_prefix prefix p = has prefix p.granted_base_urls

abbrev pub is_named : Text → InstalledPackage → Bool
is_named name p = text_eq p.name name

abbrev pub warned : (Text → Warning) → Option InstalledPackage → List Warning
warned warning none = []
warned warning (some owner) = warning owner.name ∷ []

unfoldable pub command_warnings : List InstalledPackage → Commands → List Warning
command_warnings others [] = []
command_warnings others ((key, def) ∷ map) =
    warned (command_granted key) (find_owner (grants_command key) others)
    ++ command_warnings others map

unfoldable pub prefix_warnings : List InstalledPackage → List Text → List Warning
prefix_warnings others [] = []
prefix_warnings others (prefix ∷ list) =
    warned (prefix_granted prefix) (find_owner (grants_prefix prefix) others)
    ++ prefix_warnings others list

abbrev pub cwd_in : Paths → Text → Option Text → Option Text
cwd_in paths dir none = none
cwd_in paths dir (some cwd) = some (if paths.is_relative cwd then paths.join dir cwd else cwd)

unfoldable pub resolve_cwd : Paths → Text → CommandDef → CommandDef
resolve_cwd paths dir def = record {
  command = def.command;
  description = def.description;
  cwd = cwd_in paths dir def.cwd;
}

abbrev pub keys : Commands → List Text
keys [] = []
keys ((key, def) ∷ map) = key ∷ keys map

abbrev pub Script : Type 0 → Type 0
Script N = Fields N → Fallible (Unit {0}) × Fields N

module _ {N : Type 0} where
  unfoldable pub grant_commands : Paths → Text → Commands → Fields N → Fields N
  grant_commands paths dir [] obj = obj
  grant_commands paths dir ((key, def) ∷ map) obj =
      grant_commands paths dir map (register_command key (resolve_cwd paths dir def) obj)

  unfoldable pub grant_urls : List Text → Fields N → Fields N
  grant_urls [] obj = obj
  grant_urls (prefix ∷ list) obj = grant_urls list (add_allowed_base_url prefix obj)

  abbrev pub recorded :
      InstalledPackage
      → List Warning
      → Fallible (Unit {0}) × Fields N
      → Fallible InstallOutcome × Fields N
  recorded pkg warnings (err e, obj) = (err e, obj)
  recorded pkg warnings (ok _, obj) =
      (ok (record { installed = pkg; warnings = warnings }), register_package pkg obj)

  -- The package `name` with these grants, its manifest read; `obj` is the configuration.
  unfoldable pub install_granted :
      Integers N
      → Paths
      → Text
      → Text
      → Bool
      → Text
      → Text
      → Grants
      → Script N
      → Fields N
      → Fallible InstallOutcome × Fields N
  install_granted ints paths dir now legacy name version grants script obj =
      let others = retain_others name (list_packages ints obj) in
      recorded
        (record {
          name = name;
          version = version;
          path = dir;
          installed_at = now;
          granted_commands = keys grants.commands;
          granted_base_urls = grants.base_urls;
        })
        ((if legacy then legacy_manifest ∷ [] else [])
          ++ command_warnings others grants.commands
          ++ prefix_warnings others grants.base_urls)
        (script (grant_urls grants.base_urls (grant_commands paths dir grants.commands obj)))

  abbrev pub with_grants :
      Integers N
      → Paths
      → Text
      → Text
      → Bool
      → Text
      → Fallible Text
      → Fallible Grants
      → Script N
      → Fields N
      → Fallible InstallOutcome × Fields N
  with_grants ints paths dir now legacy version (err e) grants script obj = (err e, obj)
  with_grants ints paths dir now legacy version (ok name) (err e) script obj = (err e, obj)
  with_grants ints paths dir now legacy version (ok name) (ok grants) script obj =
      install_granted ints paths dir now legacy name version grants script obj

  -- `meta` is the parsed manifest, `legacy` whether its file has the former name.
  unfoldable pub install_package :
      Integers N
      → Paths
      → Text
      → Text
      → Bool
      → Value N
      → Script N
      → Fields N
      → Fallible InstallOutcome × Fields N
  install_package ints paths dir now legacy meta script obj =
      with_grants ints paths dir now legacy (version_in (get_key (codes "version") meta))
        (named (get_key (codes "name") meta)) (parse_grants meta) script obj

  unfoldable pub revoke_commands : List InstalledPackage → List Text → Fields N → Fields N
  revoke_commands others [] obj = obj
  revoke_commands others (key ∷ list) obj =
      revoke_commands others list
        (if any (grants_command key) others then obj else deregister_command key obj)

  unfoldable pub revoke_urls : List InstalledPackage → List Text → Fields N → Fields N
  revoke_urls others [] obj = obj
  revoke_urls others (prefix ∷ list) obj =
      revoke_urls others list
        (if any (grants_prefix prefix) others then obj else remove_allowed_base_url prefix obj)

  abbrev pub revoked :
      Integers N
      → Text
      → InstalledPackage
      → Fallible (Unit {0}) × Fields N
      → Fallible (Unit {0}) × Fields N
  revoked ints name pkg (err e, obj) = (err e, obj)
  revoked ints name pkg (ok _, obj) =
      let others = retain_others name (list_packages ints obj) in
      (
        ok tt,
        unregister_package name (
            revoke_urls others pkg.granted_base_urls
              (revoke_commands others pkg.granted_commands obj)),
      )

  abbrev pub uninstall_found :
      Integers N
      → Text
      → (InstalledPackage → Script N)
      → Fields N
      → Option InstalledPackage
      → Fallible (Unit {0}) × Fields N
  uninstall_found ints name script obj none = (err not_found, obj)
  uninstall_found ints name script obj (some pkg) = revoked ints name pkg (script pkg obj)

  -- The script of a package that has none ends at once.
  unfoldable pub uninstall_package :
      Integers N → Text → (InstalledPackage → Script N) → Fields N → Fallible (Unit {0}) × Fields N
  uninstall_package ints name script obj =
      uninstall_found ints name script obj (find_owner (is_named name) (list_packages ints obj))
