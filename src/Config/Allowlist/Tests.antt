-- ===== src/Config/Allowlist/Tests.antt =====
-- Runs of the allowlist at a concrete configuration.
use solx_core.Prelude.{ℕ, [], ◌∷◌, Text, codes, text_eq, ◌≡◌, refl}
use solx_core.Json.{number, array, Fields, end, field, lookup, insert}
use solx_core.Json.Laws.{DistinctKeys}
use solx_core.Config.Allowlist.{
  key_base_urls, key_base_urls_legacy, union, without, strings_of, strings, read_base_urls,
  last_first, remove, write_base_urls, add_allowed_base_url, remove_allowed_base_url,
}

runs : Unit {0}
unfolding text_eq lookup insert union without strings_of strings read_base_urls last_first remove
    write_base_urls add_allowed_base_url remove_allowed_base_url
runs = tt

abbrev port : Text
port = codes "server_port"

-- A configuration with both keys.
abbrev config : Fields ℕ
config =
    field key_base_urls_legacy (array (strings (codes "b" ∷ codes "a" ∷ [])))
      (field port (number 8766) (field key_base_urls (array (strings (codes "a" ∷ []))) end))

config-DistinctKeys : DistinctKeys config
unfolding runs
config-DistinctKeys = (refl, (refl, (refl, tt)))

folds_the_former_key :
    (read_base_urls config ≡ codes "a" ∷ codes "b" ∷ [])
    × (add_allowed_base_url (codes "c") config
        ≡ field key_base_urls
            (array (strings (codes "a" ∷ codes "b" ∷ codes "c" ∷ [])))
            (field port (number 8766) end))
    × (read_base_urls (remove_allowed_base_url (codes "b") config) ≡ codes "a" ∷ [])
unfolding runs
folds_the_former_key = (refl, refl, refl)
