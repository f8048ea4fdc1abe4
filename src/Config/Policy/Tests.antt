-- ===== src/Config/Policy/Tests.antt =====
-- Runs of the policy.
use solx_core.Prelude.{
  true, false, none, some, [], ◌∷◌, codes, text_eq, ok, err, ◌≡◌, ◌≢◌, ◌⊎◌, ◌↔◌, refl,
}
use solx_core.Actions.Net.{starts_with}
use solx_core.Config.Policy.{
  script, Action, ToolPolicy, cap_hidden, cap_destructive, has_text, matches, any_matches, has_tag,
  is_hidden, is_destructive, validate_capabilities,
}
use solx_core.Config.Policy.Glob.{only_stars, glob_loop, glob_fuel, budget, glob_matches}
use solx_core.Config.Policy.Glob.Sound.{GlobMatches, glob_matches-GlobMatches}
use solx_core.Config.Policy.Decisions.{Among, Ruled, RunsOutside, is_hidden_iff}

run_glob : glob_matches (codes "*/_private/*") (codes "/a/_private/b") ≡ true
unfolding glob_matches glob_loop budget only_stars
run_glob = refl

-- A star of the text is matched by the star of the pattern as one character.
run_star : glob_matches (codes "*") (codes "*a") ≡ false
unfolding glob_matches glob_loop budget only_stars
run_star = refl

run_reserved :
    (validate_capabilities (codes "x" ∷ cap_hidden ∷ []) ≡ ok tt)
    × (validate_capabilities (codes "solx:hide" ∷ []) ≡ err (codes "solx:hide"))
unfolding validate_capabilities starts_with has_text text_eq
run_reserved = (refl, refl)

abbrev act : Action
act = record { path = codes "/p/x"; name = codes "y"; action_type = some script; capabilities = [] }

abbrev policy : ToolPolicy
policy = record {
  hidden = record { path = codes "/p/*"; actions = some (codes "y" ∷ []) } ∷ [];
  destructive = [];
}

run_hidden : (is_hidden policy act ≡ true) × (is_destructive policy act ≡ false)
unfolding is_hidden is_destructive has_tag has_text any_matches matches text_eq glob_matches
    glob_loop budget only_stars
run_hidden = (refl, refl)

glob_matches-GlobMatches_example :
    (glob_loop (glob_fuel (codes "/p/*") (codes "/p/x")) (codes "/p/*") (codes "/p/x") none ≢ none)
    × (glob_matches (codes "/p/*") (codes "/p/x") ≡ true
        → GlobMatches (codes "/p/*") (codes "/p/x"))
glob_matches-GlobMatches_example = glob_matches-GlobMatches (codes "/p/*") (codes "/p/x")

is_hidden_iff_example :
    ((is_hidden policy act ≡ true) ↔ (Among cap_hidden act.capabilities ⊎ Ruled policy.hidden act))
    × ((is_destructive policy act ≡ true) ↔ (
        (RunsOutside act.action_type ⊎ Among cap_destructive act.capabilities)
        ⊎ Ruled policy.destructive act))
is_hidden_iff_example = is_hidden_iff policy act
