-- ===== src/Packages/Manifest.antt =====
-- solx-packages/src/lib.rs: what an installation reads of a package's manifest.
use solx_core.Prelude.{List, [], ◌∷◌, Option, none, some, Text, codes, ok, err, ◌>>=◌}
use solx_core.Json.{Value, null, string, object, get_key}
use solx_core.Surface.Error.{invalid, Fallible}
use solx_core.Config.Allowlist.{key_base_urls, key_base_urls_legacy}
use solx_core.Config.Registry.{Commands, key_commands, Read, commands_of, texts_of}

pub record Grants : Type 0 where
  pub commands : Commands
  pub base_urls : List Text

abbrev pub or_invalid : {A : Type 0} → Read A → Fallible A
or_invalid (ok a) = ok a
or_invalid (err e) = err invalid

module _ {N : Type 0} where
  abbrev pub present : Option (Value N) → Option (Value N)
  present none = none
  present (some null) = none
  present (some v) = some v

  abbrev pub commands_in : Option (Value N) → Fallible Commands
  commands_in none = ok []
  commands_in (some (object fs)) = or_invalid (commands_of fs)
  commands_in (some _) = err invalid

  abbrev pub urls_in : Option (Value N) → Option (Value N) → Fallible (List Text)
  urls_in none former = or_invalid (texts_of former)
  urls_in (some v) former = or_invalid (texts_of (some v))

  unfoldable pub parse_grants : Value N → Fallible Grants
  parse_grants meta = do
    commands ← commands_in (present (get_key key_commands meta))
    base_urls ←
        urls_in (present (get_key key_base_urls meta)) (present (get_key key_base_urls_legacy meta))
    ok (record { commands = commands; base_urls = base_urls })

  abbrev pub named : Option (Value N) → Fallible Text
  named (some (string [])) = err invalid
  named (some (string (c ∷ s))) = ok (c ∷ s)
  named _ = err invalid

  abbrev pub version_in : Option (Value N) → Text
  version_in (some (string s)) = s
  version_in _ = codes "0.0.0"
