-- ===== src/Actions/Dispatch/Aliases.antt =====
-- The aliases of the parameters of a built-in action.
use solx_core.Prelude.{ℕ, some, Text, ◌≡◌, ◌⊎◌}
use solx_core.Json.{Value, Fields, lookup}
use solx_core.Actions.Dispatch.{to_camel_case, to_snake_case, add_alias}

module _ {N : Type 0} where
  abbrev pub HasKey : Text → Fields N → Type 0
  HasKey k fs = (w : Value N) × (lookup k fs ≡ some w)

  abbrev both_aliases : (ℕ → Text) → Text → Value N → Fields N → Fields N
  both_aliases upper key v out =
      add_alias key v (to_snake_case key) (add_alias key v (to_camel_case upper key) out)

  -- A value of the result is one that was given: under the key itself, or under one that the key
  -- is a spelling of.
  abbrev pub IsGiven : (ℕ → Text) → Fields N → Text → Value N → Type 0
  IsGiven upper given j w =
      (k : Text) × (lookup k given ≡ some w)
      × ((j ≡ k) ⊎ ((j ≡ to_camel_case upper k) ⊎ (j ≡ to_snake_case k)))
