-- ===== src/Packages/Whole.antt =====
-- An installation leaves a configuration that is read as a whole readable as a whole.
use solx_core.Prelude.{Bool, true, List, [], ◌∷◌, Text, ok, ◌≡◌}
use solx_core.Json.{Fields}
use solx_core.Json.Laws.{DistinctKeys, DistinctKeys-insert}
use solx_core.Config.Allowlist.{add_allowed_base_url}
use solx_core.Config.Allowlist.Members.{write_base_urls-DistinctKeys}
use solx_core.Config.Registry.{Commands, key_commands, register_command}
use solx_core.Config.Snapshot.{Integers, is_config}
use solx_core.Config.Snapshot.Kept.{
  register_command-is_config, register_package-is_config, add_allowed_base_url-is_config,
}
use solx_core.Packages.{Paths, resolve_cwd, grant_commands, grant_urls, install_granted}
use solx_core.Packages.Manifest.{Grants}

module _ {N : Type 0} (ints : Integers N) where
  grant_urls-is_config :
      (list : List Text) (obj : Fields N)
      → DistinctKeys obj
      → is_config ints obj ≡ true
      → is_config ints (grant_urls list obj) ≡ true
  unfolding grant_urls add_allowed_base_url
  grant_urls-is_config [] obj d h = h
  grant_urls-is_config (prefix ∷ list) obj d h =
      grant_urls-is_config list (add_allowed_base_url prefix obj)
        (write_base_urls-DistinctKeys _ obj d) (add_allowed_base_url-is_config ints prefix obj d h)

  grant_all-is_config :
      (paths : Paths) (dir : Text) (map : Commands) (list : List Text) (obj : Fields N)
      → DistinctKeys obj
      → is_config ints obj ≡ true
      → is_config ints (grant_urls list (grant_commands paths dir map obj)) ≡ true
  unfolding grant_commands register_command
  grant_all-is_config paths dir [] list obj d h = grant_urls-is_config list obj d h
  grant_all-is_config paths dir ((key, def) ∷ map) list obj d h =
      grant_all-is_config paths dir map list _ (DistinctKeys-insert key_commands _ obj d)
        (register_command-is_config ints key (resolve_cwd paths dir def) obj h)

  pub install_granted-is_config :
      (paths : Paths) (dir now : Text) (legacy : Bool) (name version : Text) (grants : Grants)
      (obj : Fields N)
      → DistinctKeys obj
      → is_config ints obj ≡ true
      → is_config ints
          (install_granted ints paths dir now legacy name version grants (λ o. (ok tt, o)) obj).1
        ≡ true
  unfolding install_granted
  install_granted-is_config paths dir now legacy name version grants obj d h =
      register_package-is_config ints _ _
        (grant_all-is_config paths dir grants.commands grants.base_urls obj d h)
