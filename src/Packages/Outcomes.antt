-- ===== src/Packages/Outcomes.antt =====
-- What an installation and its removal leave in the configuration.
use solx_core.Prelude.{
  Bool, not, ◌&&◌, ◌||◌, List, [], ◌∷◌, ◌++◌, Option, none, some, if◌then◌else◌, any, Text, ok, err,
  ◌≡◌, refl,
}
use solx_core.Json.{Fields}
use solx_core.Config.Allowlist.{has}
use solx_core.Surface.Error.{Fallible}
use solx_core.Config.Registry.{CommandDef, InstalledPackage, retain_others}
use solx_core.Config.Registry.Laws.{Shows, register_package-Shows, unregister_package-Shows}
use solx_core.Config.Snapshot.{Integers, list_packages}
use solx_core.Packages.{
  InstallOutcome, Paths, Script, Warning, grants_command, grants_prefix, is_named, find_owner, keys,
  recorded, install_granted, uninstall_package,
}
use solx_core.Packages.Manifest.{Grants}
use solx_core.Packages.Loops.{
  granted, grant_commands-Shows, grant_urls-Shows, revoke_commands-Shows, revoke_urls-Shows,
}

-- The packages that a run records: its own package comes last where the script has succeeded.
unfoldable pub packages_after :
    Fallible (Unit {0}) → InstalledPackage → List InstalledPackage → List InstalledPackage
packages_after (ok _) pkg list = retain_others pkg.name list ++ pkg ∷ []
packages_after (err e) pkg list = list

-- How the run ends: the outcome with the recorded package, or the error of the script.
unfoldable pub EndsAs : Fallible (Unit {0}) → InstalledPackage → Fallible InstallOutcome → Type 0
EndsAs (ok _) pkg (ok outcome) = outcome.installed ≡ pkg
EndsAs (err e) pkg r = r ≡ err e
EndsAs (ok _) pkg (err e) = ⊥

-- The record of a package with what it has been granted.
abbrev pub record_of : Text → Text → Text → Text → Grants → InstalledPackage
record_of dir now name version grants = record {
  name = name;
  version = version;
  path = dir;
  installed_at = now;
  granted_commands = keys grants.commands;
  granted_base_urls = grants.base_urls;
}

module _ {N : Type 0} where
  recorded-Shows :
      (pkg : InstalledPackage) (ws : List Warning) (r : Fallible (Unit {0})) (obj : Fields N)
      (c : Text → Option CommandDef) (a : Text → Bool) (ps : List InstalledPackage)
      → Shows obj c a ps
      → EndsAs r pkg (recorded pkg ws (r, obj)).0
        × Shows (recorded pkg ws (r, obj)).1 c a (packages_after r pkg ps)
  unfolding EndsAs packages_after
  recorded-Shows pkg ws (ok _) obj c a ps at = (refl, register_package-Shows obj c a ps at pkg)
  recorded-Shows pkg ws (err e) obj c a ps at = (refl, at)

  -- Of a configuration that repeats no key and shows these commands, prefixes and packages: where the
  -- script leaves the configuration as it is, however it ends, a command action then has
  -- the last definition that the package declares for it, or the one it had; a URL prefix is admitted
  -- where the package declares it or it was; and the package is recorded, with exactly what was
  -- granted, in place of an earlier one of its name, only where the script has succeeded. Where the
  -- script fails, so does the installation, with its error, and the grants stay.
  pub install_granted-Shows :
      (ints : Integers N) (paths : Paths) (dir now : Text) (legacy : Bool) (name version : Text)
      (grants : Grants) (r : Fallible (Unit {0})) (obj : Fields N)
      (commands : Text → Option CommandDef) (admits : Text → Bool)
      (packages : List InstalledPackage)
      → Shows obj commands admits packages
      → EndsAs r
          (record_of dir now name version grants)
          (install_granted ints paths dir now legacy name version grants (λ o. (r, o)) obj).0
        × Shows
            (install_granted ints paths dir now legacy name version grants (λ o. (r, o)) obj).1
            (λ j. granted paths dir grants.commands j (commands j))
            (λ q. has q grants.base_urls || admits q)
            (packages_after r (record_of dir now name version grants) packages)
  unfolding install_granted
  install_granted-Shows ints paths dir now legacy name version grants r obj commands admits packages
        at =
      recorded-Shows _ _ r _ _ _ packages (
        grant_urls-Shows grants.base_urls _ _ admits packages
          (grant_commands-Shows paths dir grants.commands obj commands admits packages at))

  -- Where the snapshot has a package of the name, and its script succeeds and leaves a configuration
  -- that repeats no key and shows these commands, prefixes and packages, the call succeeds, and of
  -- the commands and prefixes exactly those are gone that the package was granted and no other
  -- package of the snapshot that is taken then is; the packages are the others, and no key is
  -- repeated. (A snapshot has no packages where the configuration is not read as a whole.)
  pub uninstall_package-Shows :
      (ints : Integers N) (name : Text) (script : InstalledPackage → Script N) (obj left : Fields N)
      (pkg : InstalledPackage) (commands : Text → Option CommandDef) (admits : Text → Bool)
      (packages : List InstalledPackage)
      → find_owner (is_named name) (list_packages ints obj) ≡ some pkg
      → script pkg obj ≡ (ok tt, left)
      → Shows left commands admits packages
      → ((uninstall_package ints name script obj).0 ≡ ok tt)
        × Shows
            (uninstall_package ints name script obj).1
            (λ j.
              if has j pkg.granted_commands
                && not (any (grants_command j) (retain_others name (list_packages ints left)))
              then none
              else commands j)
            (λ q.
              not (
                has q pkg.granted_base_urls
                && not (any (grants_prefix q) (retain_others name (list_packages ints left))))
              && admits q)
            (retain_others name packages)
  unfolding uninstall_package
  uninstall_package-Shows ints name script obj left pkg commands admits packages found run at =
      let others = retain_others name (list_packages ints left) in
      rw (found, run)
        (
          refl,
          unregister_package-Shows _ _ _ packages
              (revoke_urls-Shows others pkg.granted_base_urls _ _ admits packages (
                revoke_commands-Shows others pkg.granted_commands left commands admits packages at))
              name,
        )
