-- ===== src/Actions/Mask.antt =====
-- solx-actions/src/mask.rs: secret material is redacted from an `action_config` on the way out,
-- and restored where the redacted value comes back. A function that changes a `&mut Value` is one
-- that returns the new value.
pub mod Merge
pub mod Refusal
pub mod Hides
mod Tests
pub mod Redacted
pub mod RoundTrip
use solx_core.Prelude.{
  ℕ, suc, Bool, true, false, ◌||◌, List, [], ◌∷◌, ◌++◌, Option, none, some, if◌then◌else◌, any,
  Text, codes, text_eq, Result, ok, err, ◌>>=◌,
}
use solx_core.Json.{
  Value, null, bool, number, string, array, object, Items, nil, cons, Fields, end, field, modify,
  insert, push, get_key, get_index,
}

abbrev pub mask_text : Text
mask_text = codes "***"

abbrev pub auth_visible : List Text
auth_visible =
    codes "type"
    ∷ codes "auth_url"
    ∷ codes "token_url"
    ∷ codes "redirect_uri"
    ∷ codes "scope"
    ∷ codes "keyring_service"
    ∷ codes "keyring_account"
    ∷ []

unfoldable pub ends_with : Text → Text → Bool
ends_with [] suffix = text_eq [] suffix
ends_with (c ∷ s) suffix = text_eq (c ∷ s) suffix || ends_with s suffix

unfoldable pub auth_key_is_visible : Text → Bool
auth_key_is_visible key = any (λ k. text_eq k key) auth_visible || ends_with key (codes "_env")

module _ {N : Type 0} where
  unfoldable mutual
    pub mask_all_strings : Value N → Value N
    mask_all_strings (string s) = string mask_text
    mask_all_strings (object fs) = object (mask_all_fields fs)
    mask_all_strings (array vs) = array (mask_all_items vs)
    mask_all_strings null = null
    mask_all_strings (bool b) = bool b
    mask_all_strings (number n) = number n

    pub mask_all_fields : Fields N → Fields N
    mask_all_fields end = end
    mask_all_fields (field k v fs) = field k (mask_all_strings v) (mask_all_fields fs)

    pub mask_all_items : Items N → Items N
    mask_all_items nil = nil
    mask_all_items (cons v vs) = cons (mask_all_strings v) (mask_all_items vs)

  unfoldable mutual
    pub mask_auth : Value N → Value N
    mask_auth (object fs) = object (mask_auth_fields fs)
    mask_auth (array vs) = array (mask_auth_items vs)
    mask_auth null = null
    mask_auth (bool b) = bool b
    mask_auth (number n) = number n
    mask_auth (string s) = string s

    pub mask_auth_fields : Fields N → Fields N
    mask_auth_fields end = end
    mask_auth_fields (field k (string s) fs) =
        field k (string (if auth_key_is_visible k then s else mask_text)) (mask_auth_fields fs)
    mask_auth_fields (field k v fs) =
        field k (if auth_key_is_visible k then v else mask_auth v) (mask_auth_fields fs)

    pub mask_auth_items : Items N → Items N
    mask_auth_items nil = nil
    mask_auth_items (cons v vs) = cons (mask_auth v) (mask_auth_items vs)

  unfoldable pub mask_action_config : Value N → Value N
  mask_action_config (object fs) =
      object (modify (codes "auth") mask_auth (modify (codes "secrets") mask_all_strings fs))
  mask_action_config cfg = cfg

  unfoldable pub mask_action_config_opt : Option (Value N) → Option (Value N)
  mask_action_config_opt none = none
  mask_action_config_opt (some v) = some (mask_action_config v)

-- A piece of the path that `walk` keeps: ".key" or "[index]".
pub data Step : Type 0 where
  key : Text → Step
  index : ℕ → Step

-- The error of `walk` carries the path that its message renders.
abbrev pub Merged : Type 0 → Type 0
Merged A = Result A (List Step)

module _ {N : Type 0} where
  abbrev pub nested_key : Text → Option (Value N) → Option (Value N)
  nested_key k none = none
  nested_key k (some e) = get_key k e

  abbrev pub nested_index : ℕ → Option (Value N) → Option (Value N)
  nested_index i none = none
  nested_index i (some e) = get_index i e

  -- `existing.cloned().ok_or_else(…)`.
  abbrev pub stored_or : List Step → Option (Value N) → Merged (Value N)
  stored_or path none = err path
  stored_or path (some v) = ok v

  -- `walk`; the two loops carry what they have built.
  unfoldable mutual
    pub walk : Value N → Option (Value N) → List Step → Merged (Value N)
    walk (string s) existing path =
        if text_eq s mask_text then stored_or path existing else ok (string s)
    walk (object map) existing path = do out ← walk_fields map end existing path; ok (object out)
    walk (array items) existing path = do out ← walk_items items nil 0 existing path; ok (array out)
    walk null existing path = ok null
    walk (bool b) existing path = ok (bool b)
    walk (number n) existing path = ok (number n)

    pub walk_fields : Fields N → Fields N → Option (Value N) → List Step → Merged (Fields N)
    walk_fields end out existing path = ok out
    walk_fields (field k v map) out existing path = do
      merged ← walk v (nested_key k existing) (path ++ key k ∷ [])
      walk_fields map (insert k merged out) existing path

    pub walk_items : Items N → Items N → ℕ → Option (Value N) → List Step → Merged (Items N)
    walk_items nil out i existing path = ok out
    walk_items (cons v items) out i existing path = do
      merged ← walk v (nested_index i existing) (path ++ index i ∷ [])
      walk_items items (push out merged) (suc i) existing path

  unfoldable pub unmask_merge : Value N → Option (Value N) → Merged (Value N)
  unmask_merge incoming existing = walk incoming existing []
