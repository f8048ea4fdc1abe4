-- ===== src/Packages/Loops.antt =====
-- What the loops over granted entries make of the command actions and the allowlist.
use solx_core.Prelude.{
  Bool, true, false, not, ◌&&◌, ◌||◌, List, [], ◌∷◌, Option, none, some, if◌then◌else◌, any, Text,
  text_eq, text_eq_iff, ◌≡◌, refl, ◌∙◌, inl, inr, Bool-cases, arith,
}
use solx_core.Json.{Fields}
use solx_core.Config.Allowlist.{has, remove_allowed_base_url}
use solx_core.Config.Registry.{CommandDef, InstalledPackage, Commands, deregister_command}
use solx_core.Config.Registry.Laws.{
  Shows, register_command-Shows, deregister_command-Shows, add_allowed_base_url-Shows,
  remove_allowed_base_url-Shows,
}
use solx_core.Packages.{
  Paths, grants_command, grants_prefix, resolve_cwd, grant_commands, grant_urls, revoke_commands,
  revoke_urls,
}

-- The last definition that a list of grants gives a key.
unfoldable pub granted : Paths → Text → Commands → Text → Option CommandDef → Option CommandDef
granted paths dir [] j o = o
granted paths dir ((key, def) ∷ map) j o =
    granted paths dir map j (if text_eq key j then some (resolve_cwd paths dir def) else o)

module _ {N : Type 0} where
  pub Shows-as :
      {obj : Fields N} {c c' : Text → Option CommandDef} {a a' : Text → Bool}
      {ps : List InstalledPackage}
      → Shows obj c a ps
      → ((j : Text) → c j ≡ c' j)
      → ((q : Text) → a q ≡ a' q)
      → Shows obj c' a' ps
  Shows-as at f g = record {
    valid = at.valid;
    shows_command = λ j. at.shows_command j ∙ f j;
    shows_prefix = λ q. at.shows_prefix q ∙ g q;
    shows_packages = at.shows_packages;
  }

  pub grant_commands-Shows :
      (paths : Paths) (dir : Text) (map : Commands) (obj : Fields N) (c : Text → Option CommandDef)
      (a : Text → Bool) (ps : List InstalledPackage)
      → Shows obj c a ps
      → Shows (grant_commands paths dir map obj) (λ j. granted paths dir map j (c j)) a ps
  unfolding grant_commands granted
  grant_commands-Shows paths dir [] obj c a ps at = at
  grant_commands-Shows paths dir ((key, def) ∷ map) obj c a ps at =
      grant_commands-Shows paths dir map _ _ a ps
        (register_command-Shows obj c a ps at key (resolve_cwd paths dir def))

  pub grant_urls-Shows :
      (list : List Text) (obj : Fields N) (c : Text → Option CommandDef) (a : Text → Bool)
      (ps : List InstalledPackage)
      → Shows obj c a ps
      → Shows (grant_urls list obj) c (λ q. has q list || a q) ps
  unfolding grant_urls
  grant_urls-Shows [] obj c a ps at = at
  grant_urls-Shows (prefix ∷ list) obj c a ps at =
      Shows-as (grant_urls-Shows list _ c _ ps (add_allowed_base_url-Shows obj c a ps at prefix))
        (λ j. refl) (λ q. ground arith)

  module _ (others : List InstalledPackage) where
    revoke_command-Shows :
        (key : Text) (obj : Fields N) (c : Text → Option CommandDef) (a : Text → Bool)
        (ps : List InstalledPackage)
        → Shows obj c a ps
        → Shows
            (if any (grants_command key) others then obj else deregister_command key obj)
            (λ j. if text_eq key j && not (any (grants_command j) others) then none else c j)
            a
            ps
    revoke_command-Shows key obj c a ps at = elim (Bool-cases (any (grants_command key) others)) [
      | inl e ↦ rw e (Shows-as at (λ j. kept j e) (λ q. refl))
      | inr e ↦
          rw e (Shows-as (deregister_command-Shows obj c a ps at key) (λ j. gone j e) (λ q. refl))
    ]
      where
        kept :
            (j : Text)
            → any (grants_command key) others ≡ true
            → c j ≡ (if text_eq key j && not (any (grants_command j) others) then none else c j)
        kept j e = ground (arith, e, text_eq_iff key j)

        gone :
            (j : Text)
            → any (grants_command key) others ≡ false
            → (if text_eq key j then none else c j)
              ≡ (if text_eq key j && not (any (grants_command j) others) then none else c j)
        gone j e = ground (arith, e, text_eq_iff key j)

    pub revoke_commands-Shows :
        (list : List Text) (obj : Fields N) (c : Text → Option CommandDef) (a : Text → Bool)
        (ps : List InstalledPackage)
        → Shows obj c a ps
        → Shows
            (revoke_commands others list obj)
            (λ j. if has j list && not (any (grants_command j) others) then none else c j)
            a
            ps
    unfolding revoke_commands
    revoke_commands-Shows [] obj c a ps at = at
    revoke_commands-Shows (key ∷ list) obj c a ps at =
        Shows-as (revoke_commands-Shows list _ _ a ps (revoke_command-Shows key obj c a ps at))
          (λ j. ground arith) (λ q. refl)

    revoke_url-Shows :
        (prefix : Text) (obj : Fields N) (c : Text → Option CommandDef) (a : Text → Bool)
        (ps : List InstalledPackage)
        → Shows obj c a ps
        → Shows
            (if any (grants_prefix prefix) others then obj else remove_allowed_base_url prefix obj)
            c
            (λ q. not (text_eq prefix q && not (any (grants_prefix q) others)) && a q)
            ps
    revoke_url-Shows prefix obj c a ps at = elim (Bool-cases (any (grants_prefix prefix) others)) [
      | inl e ↦ rw e (Shows-as at (λ j. refl) (λ q. kept q e))
      | inr e ↦ rw e (
          Shows-as (remove_allowed_base_url-Shows obj c a ps at prefix) (λ j. refl) (λ q. gone q e))
    ]
      where
        kept :
            (q : Text)
            → any (grants_prefix prefix) others ≡ true
            → a q ≡ (not (text_eq prefix q && not (any (grants_prefix q) others)) && a q)
        kept q e = ground (arith, e, text_eq_iff prefix q)

        gone :
            (q : Text)
            → any (grants_prefix prefix) others ≡ false
            → (not (text_eq prefix q) && a q)
              ≡ (not (text_eq prefix q && not (any (grants_prefix q) others)) && a q)
        gone q e = ground (arith, e, text_eq_iff prefix q)

    pub revoke_urls-Shows :
        (list : List Text) (obj : Fields N) (c : Text → Option CommandDef) (a : Text → Bool)
        (ps : List InstalledPackage)
        → Shows obj c a ps
        → Shows
            (revoke_urls others list obj)
            c
            (λ q. not (has q list && not (any (grants_prefix q) others)) && a q)
            ps
    unfolding revoke_urls
    revoke_urls-Shows [] obj c a ps at = at
    revoke_urls-Shows (prefix ∷ list) obj c a ps at =
        Shows-as (revoke_urls-Shows list _ c _ ps (revoke_url-Shows prefix obj c a ps at))
          (λ j. refl) (λ q. ground arith)
