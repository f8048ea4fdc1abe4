-- ===== src/Config/Policy/Decisions.antt =====
-- The decisions of a policy unite the tags of an action and the rules of the configuration.
use solx_core.Prelude.{
  Bool, true, false, ◌||◌, List, [], ◌∷◌, Option, none, some, Text, text_eq, text_eq_iff, ◌≡◌, refl,
  sym, subst, ◌⊎◌, ◌↔◌, inl, inr, Bool-cases,
}
use solx_core.Config.Policy.{
  Action, ToolRule, ToolPolicy, ActionType, command, webhook, script, internal, wasm, cap_hidden,
  cap_destructive, has_text, lists_name, matches, any_matches, has_tag, is_hidden, is_process,
  is_destructive,
}
use solx_core.Config.Policy.Glob.{glob_matches}
use solx_core.Config.Policy.Glob.Sound.{GlobMatches, glob_matches-GlobMatches}

abbrev pub Among : {A : Type 0} → A → List A → Type 0
Among a [] = ⊥
Among a (x ∷ xs) = (x ≡ a) ⊎ Among a xs

-- A rule without names, or with an empty list of them, is about every name.
abbrev pub Names : Option (List Text) → Text → Type 0
Names none name = Unit
Names (some []) name = Unit
Names (some (n ∷ ns)) name = Among name (n ∷ ns)

-- The rule is about the action, whatever the action's tags are.
pub record Applies (rule : ToolRule) (a : Action) : Type 0 where
  pub globbed : glob_matches rule.path a.path ≡ true
  pub matched : GlobMatches rule.path a.path
  pub names : Names rule.actions a.name

abbrev pub Ruled : List ToolRule → Action → Type 0
Ruled rules a = (rule : ToolRule) × Among rule rules × Applies rule a

abbrev pub RunsOutside : Option ActionType → Type 0
RunsOutside type = (type ≡ some command) ⊎ (type ≡ some webhook)

or_cases : (a b : Bool) → (a || b) ≡ true → (a ≡ true) ⊎ (b ≡ true)
or_cases true b h = inl refl
or_cases false b h = inr h

or_left : (a b : Bool) → a ≡ true → (a || b) ≡ true
or_left a b h = rw h refl

or_right : (a b : Bool) → b ≡ true → (a || b) ≡ true
or_right true b h = refl
or_right false b h = h

has_text_iff : (t : Text) (ss : List Text) → (has_text t ss ≡ true) ↔ Among t ss
unfolding has_text
has_text_iff t [] = (λ h. cc, λ h. elim h [ ])
has_text_iff t (s ∷ ss) = (
  λ h. elim (or_cases (text_eq s t) (has_text t ss) h) [
    | inl e ↦ inl ((text_eq_iff s t).0 e)
    | inr e ↦ inr ((has_text_iff t ss).0 e)
  ],
  λ h. elim h [
    | inl e ↦ or_left (text_eq s t) (has_text t ss) ((text_eq_iff s t).1 e)
    | inr e ↦ or_right (text_eq s t) (has_text t ss) ((has_text_iff t ss).1 e)
  ],
)

lists_name_iff :
    (names : Option (List Text)) (name : Text) → (lists_name names name ≡ true) ↔ Names names name
lists_name_iff none name = (λ h. tt, λ h. refl)
lists_name_iff (some []) name = (λ h. tt, λ h. refl)
lists_name_iff (some (n ∷ ns)) name = has_text_iff name (n ∷ ns)

matches_iff : (rule : ToolRule) (a : Action) → (matches rule a.path a.name ≡ true) ↔ Applies rule a
unfolding matches
matches_iff rule a = elim (Bool-cases (glob_matches rule.path a.path)) [
  | inl e ↦ (
    λ h. record {
      globbed = e;
      matched = (glob_matches-GlobMatches rule.path a.path).1 e;
      names = (lists_name_iff rule.actions a.name).0 (rw e at h);
    },
    λ h. rw e ((lists_name_iff rule.actions a.name).1 h.names),
  )
  | inr e ↦ (λ h. cc (rw e at h), λ h. let g = h.globbed in cc)
]

any_matches_iff :
    (rules : List ToolRule) (a : Action) → (any_matches rules a ≡ true) ↔ Ruled rules a
unfolding any_matches
any_matches_iff [] a = (λ h. cc, λ (rule, among, _). elim among [ ])
any_matches_iff (r ∷ rules) a = (
  λ h. elim (or_cases (matches r a.path a.name) (any_matches rules a) h) [
    | inl e ↦ (r, inl refl, (matches_iff r a).0 e)
    | inr e ↦
        let (rule, among, applies) = (any_matches_iff rules a).0 e in (rule, inr among, applies)
  ],
  λ (rule, among, applies). elim among [
    | inl e ↦
        or_left (matches r a.path a.name) (any_matches rules a)
          ((matches_iff r a).1 (subst (λ x. Applies x a) (sym e) applies))
    | inr e ↦
        or_right (matches r a.path a.name) (any_matches rules a)
          ((any_matches_iff rules a).1 (rule, e, applies))
  ],
)

is_process_iff : (type : Option ActionType) → (is_process type ≡ true) ↔ RunsOutside type
is_process_iff (some command) = (λ h. inl refl, λ h. refl)
is_process_iff (some webhook) = (λ h. inr refl, λ h. refl)
is_process_iff (some script) = (λ h. cc, λ h. elim h [ inl e ↦ cc | inr e ↦ cc ])
is_process_iff (some internal) = (λ h. cc, λ h. elim h [ inl e ↦ cc | inr e ↦ cc ])
is_process_iff (some wasm) = (λ h. cc, λ h. elim h [ inl e ↦ cc | inr e ↦ cc ])
is_process_iff none = (λ h. cc, λ h. elim h [ inl e ↦ cc | inr e ↦ cc ])

or_iff :
    {X Y : Type 0} (a b : Bool) → ((a ≡ true) ↔ X) → ((b ≡ true) ↔ Y) → ((a || b) ≡ true) ↔ (X ⊎ Y)
or_iff a b x y = (
  λ h. elim (or_cases a b h) [ inl e ↦ inl (x.0 e) | inr e ↦ inr (y.0 e) ],
  λ h. elim h [ inl e ↦ or_left a b (x.1 e) | inr e ↦ or_right a b (y.1 e) ],
)

-- An action is hidden exactly where it has the tag `solx:hidden`, or a rule of the policy is about it:
-- its path is accepted by the rule's pattern (and so matches it), and the rule names no actions or
-- this one. It is destructive exactly where it is a command or a webhook, or has the tag
-- `solx:destructive`, or a destructive rule is about it. A rule is about an action whatever its tags
-- are, so that rules are a floor that no tag lowers.
pub is_hidden_iff :
    (policy : ToolPolicy) (a : Action)
    → ((is_hidden policy a ≡ true) ↔ (Among cap_hidden a.capabilities ⊎ Ruled policy.hidden a))
      × ((is_destructive policy a ≡ true) ↔ (
          (RunsOutside a.action_type ⊎ Among cap_destructive a.capabilities)
          ⊎ Ruled policy.destructive a))
unfolding is_hidden is_destructive has_tag
is_hidden_iff policy a = (
  or_iff (has_text cap_hidden a.capabilities) (any_matches policy.hidden a)
      (has_text_iff cap_hidden a.capabilities) (any_matches_iff policy.hidden a),
  or_iff (is_process a.action_type || has_text cap_destructive a.capabilities)
      (any_matches policy.destructive a)
      (or_iff (is_process a.action_type) (has_text cap_destructive a.capabilities)
        (is_process_iff a.action_type) (has_text_iff cap_destructive a.capabilities))
      (any_matches_iff policy.destructive a),
)
