-- ===== src/Packages/Restored.antt =====
-- An installation and the removal of the same package behind it.
use solx_core.Prelude.{
  true, Bool, false, not, ◌&&◌, ◌||◌, List, [], ◌∷◌, ◌++◌, Option, none, some, if◌then◌else◌, any,
  Text, text_eq, text_eq_refl, ok, ◌≡◌, refl, ap, subst, ◌∙◌, inl, inr, Bool-cases, arith,
}
use solx_core.Json.{Fields}
use solx_core.Config.Allowlist.{has}
use solx_core.Config.Registry.{CommandDef, InstalledPackage, Commands, retain_others}
use solx_core.Config.Registry.Laws.{Shows}
use solx_core.Config.Snapshot.{Integers, is_config, list_packages}
use solx_core.Config.Snapshot.Kept.{list_packages-read_packages}
use solx_core.Packages.Whole.{install_granted-is_config}
use solx_core.Packages.{
  Paths, grants_command, grants_prefix, is_named, find_owner, keys, install_granted,
  uninstall_package,
}
use solx_core.Packages.Manifest.{Grants}
use solx_core.Packages.Loops.{granted, Shows-as}
use solx_core.Packages.Outcomes.{
  packages_after, record_of, install_granted-Shows, uninstall_package-Shows,
}

granted-none :
    (paths : Paths) (dir : Text) (map : Commands) (j : Text) (o : Option CommandDef)
    → has j (keys map) ≡ false
    → granted paths dir map j o ≡ o
unfolding granted
granted-none paths dir [] j o h = refl
granted-none paths dir ((key, def) ∷ map) j o h = elim (Bool-cases (text_eq key j)) [
  | inl e ↦ ground (arith, h, e)
  | inr e ↦ rw e (granted-none paths dir map j o (ground (arith, h, e)))
]

retain_others-retain_others :
    (pkg : InstalledPackage) (list : List InstalledPackage)
    → retain_others pkg.name (retain_others pkg.name list ++ pkg ∷ []) ≡ retain_others pkg.name list
unfolding retain_others
retain_others-retain_others pkg [] = rw (text_eq_refl pkg.name) refl
retain_others-retain_others pkg (p ∷ list) = elim (Bool-cases (text_eq p.name pkg.name)) [
  | inl e ↦ rw e (retain_others-retain_others pkg list)
  | inr e ↦ rw (e, e) (ap (λ l. p ∷ l) (retain_others-retain_others pkg list))
]

find_owner-retain_others :
    (pkg : InstalledPackage) (list : List InstalledPackage)
    → find_owner (is_named pkg.name) (retain_others pkg.name list ++ pkg ∷ []) ≡ some pkg
unfolding find_owner retain_others
find_owner-retain_others pkg [] = rw (text_eq_refl pkg.name) refl
find_owner-retain_others pkg (p ∷ list) = elim (Bool-cases (text_eq p.name pkg.name)) [
  | inl e ↦ rw e (find_owner-retain_others pkg list)
  | inr e ↦ rw (e, e) (find_owner-retain_others pkg list)
]

module _ {N : Type 0} where
  -- In a configuration that is read as a whole, repeats no key and shows these commands, prefixes and packages, a package
  -- is installed and removed, and neither script changes the configuration: a command or a prefix
  -- that it declares stays where another package claims it, the command with the definition of this
  -- package, and is gone otherwise, even where it was allowed before; what the package does not
  -- declare is as before; and the packages are those of other names.
  pub uninstall_package-install_granted :
      (ints : Integers N) (paths : Paths) (dir now : Text) (legacy : Bool) (name version : Text)
      (grants : Grants) (obj : Fields N) (commands : Text → Option CommandDef)
      (admits : Text → Bool) (packages : List InstalledPackage)
      → is_config ints obj ≡ true
      → Shows obj commands admits packages
      → Shows
          (uninstall_package ints name
            (λ p o. (ok tt, o))
            (install_granted ints paths dir now legacy name version grants
              (λ o. (ok tt, o))
              obj).1).1
          (λ j.
            if has j (keys grants.commands)
            then (if any (grants_command j) (retain_others name packages)
                then granted paths dir grants.commands j (commands j)
                else none)
            else commands j)
          (λ q.
            if has q grants.base_urls
            then any (grants_prefix q) (retain_others name packages)
            else admits q)
          (retain_others name packages)
  unfolding packages_after
  uninstall_package-install_granted ints paths dir now legacy name version grants obj commands
        admits packages whole at =
      let pkg = record_of dir now name version grants in
      let after = retain_others name packages ++ pkg ∷ [] in
      let left =
        install_granted ints paths dir now legacy name version grants (λ o. (ok tt, o)) obj in
      let (_, installed) =
        install_granted-Shows ints paths dir now legacy name version grants (ok tt) obj commands
          admits packages at in
      let read =
        install_granted-is_config ints paths dir now legacy name version grants obj at.valid
          whole in
      let listed : list_packages ints left.1 ≡ after =
        list_packages-read_packages ints left.1 read ∙ installed.shows_packages in
      let (_, gone) =
        uninstall_package-Shows ints name (λ p o. (ok tt, o)) left.1 left.1 pkg _ _ after
          (ap (find_owner (is_named name)) listed ∙ find_owner-retain_others pkg packages) refl
          installed in
      Shows-as
        (subst
          (λ l.
            Shows (uninstall_package ints name (λ p o. (ok tt, o)) left.1).1
              (λ j.
                if has j (keys grants.commands) && not (any (grants_command j) l)
                then none
                else granted paths dir grants.commands j (commands j))
              (λ q.
                not (has q grants.base_urls && not (any (grants_prefix q) l))
                && (has q grants.base_urls || admits q))
              l)
          (retain_others-retain_others pkg packages) (rw listed at gone))
        (λ j. command_as j) (λ q. ground arith)
    where
      command_as :
          (j : Text)
          → (if has j (keys grants.commands)
                && not (any (grants_command j) (retain_others name packages))
              then none
              else granted paths dir grants.commands j (commands j))
            ≡ (if has j (keys grants.commands)
                then (if any (grants_command j) (retain_others name packages)
                    then granted paths dir grants.commands j (commands j)
                    else none)
                else commands j)
      command_as j = elim (Bool-cases (has j (keys grants.commands))) [
        | inl e ↦ rw e (ground arith)
        | inr e ↦ rw e (granted-none paths dir grants.commands j (commands j) e)
      ]
