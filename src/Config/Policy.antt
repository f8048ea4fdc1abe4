-- ===== src/Config/Policy.antt =====
-- solx-config/src/types.rs: the rules and tags that hide an action from the tools, or mark it
-- destructive. Of an action only the fields that the rules read are kept.
pub mod Glob
pub mod Decisions
mod Tests
use solx_core.Prelude.{
  ℕ, Bool, true, false, not, ◌&&◌, ◌||◌, Option, none, some, List, [], ◌∷◌, if◌then◌else◌, Text,
  codes, text_eq, Result, ok, err,
}
use solx_core.Actions.Net.{starts_with}
use solx_core.Config.Policy.Glob.{glob_matches}

pub data ActionType : Type 0 where
  internal command script wasm webhook : ActionType

pub record Action : Type 0 where
  pub path : Text
  pub name : Text
  pub action_type : Option ActionType
  pub capabilities : List Text

pub record ToolRule : Type 0 where
  pub path : Text
  pub actions : Option (List Text)

pub record ToolPolicy : Type 0 where
  pub hidden : List ToolRule
  pub destructive : List ToolRule

abbrev pub cap_hidden : Text
cap_hidden = codes "solx:hidden"

abbrev pub cap_destructive : Text
cap_destructive = codes "solx:destructive"

abbrev pub reserved_cap_prefix : Text
reserved_cap_prefix = codes "solx:"

abbrev pub reserved_caps : List Text
reserved_caps = cap_hidden ∷ cap_destructive ∷ []

-- `contains` of a text.
unfoldable pub has_text : Text → List Text → Bool
has_text t [] = false
has_text t (s ∷ ss) = text_eq s t || has_text t ss

-- The names of a rule, where there are some.
abbrev pub lists_name : Option (List Text) → Text → Bool
lists_name none name = true
lists_name (some []) name = true
lists_name (some (n ∷ ns)) name = has_text name (n ∷ ns)

unfoldable pub matches : ToolRule → Text → Text → Bool
matches rule path name =
    if not (glob_matches rule.path path) then false else lists_name rule.actions name

unfoldable pub any_matches : List ToolRule → Action → Bool
any_matches [] a = false
any_matches (rule ∷ rules) a = matches rule a.path a.name || any_matches rules a

unfoldable pub has_tag : Action → Text → Bool
has_tag a tag = has_text tag a.capabilities

unfoldable pub is_hidden : ToolPolicy → Action → Bool
is_hidden policy a = has_tag a cap_hidden || any_matches policy.hidden a

abbrev pub is_process : Option ActionType → Bool
is_process (some command) = true
is_process (some webhook) = true
is_process _ = false

unfoldable pub is_destructive : ToolPolicy → Action → Bool
is_destructive policy a =
    is_process a.action_type || has_tag a cap_destructive || any_matches policy.destructive a

unfoldable pub validate_capabilities : List Text → Result (Unit {0}) Text
validate_capabilities [] = ok tt
validate_capabilities (cap ∷ caps) =
    if starts_with cap reserved_cap_prefix && not (has_text cap reserved_caps)
    then err cap
    else validate_capabilities caps
