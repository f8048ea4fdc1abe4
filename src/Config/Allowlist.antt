-- ===== src/Config/Allowlist.antt =====
-- solx-config/src/lib.rs: the list of URL prefixes that outbound requests may have, kept in the
-- configuration's JSON object under a current and a former key. The file, its lock and the cache around
-- the object are not modelled.
pub mod Remove
pub mod Members
mod Tests
use solx_core.Prelude.{
  Bool, true, false, not, List, [], ◌∷◌, ◌++◌, Option, none, some, if◌then◌else◌, any, Text, codes,
  text_eq,
}
use solx_core.Json.{
  Value, null, bool, number, string, array, object, Items, nil, cons, Fields, end, field, lookup,
  insert,
}

abbrev pub key_base_urls : Text
key_base_urls = codes "allowed_base_urls"

abbrev pub key_base_urls_legacy : Text
key_base_urls_legacy = codes "allowed_webhook_base_urls"

abbrev pub has : Text → List Text → Bool
has prefix list = any (λ p. text_eq p prefix) list

abbrev pub push_new : Text → List Text → List Text
push_new prefix list = if has prefix list then list else list ++ prefix ∷ []

-- The loop over the former list.
unfoldable pub union : List Text → List Text → List Text
union list [] = list
union list (prefix ∷ legacy) = union (push_new prefix list) legacy

-- `Vec::retain` of what differs from one prefix.
unfoldable pub without : Text → List Text → List Text
without prefix [] = []
without prefix (p ∷ list) =
    let rest = without prefix list in if not (text_eq p prefix) then p ∷ rest else rest

abbrev pub or_none : Option (List Text) → List Text
or_none none = []
or_none (some list) = list

module _ {N : Type 0} where
  abbrev pub string_and : Value N → Option (List Text) → Option (List Text)
  string_and (string s) (some list) = some (s ∷ list)
  string_and _ _ = none

  -- `from_value` at `Vec<String>`.
  unfoldable pub strings_of : Items N → Option (List Text)
  strings_of nil = some []
  strings_of (cons v vs) = string_and v (strings_of vs)

  abbrev pub list_of : Option (Value N) → List Text
  list_of (some (array vs)) = or_none (strings_of vs)
  list_of _ = []

  -- `to_value` of a `Vec<String>`.
  unfoldable pub strings : List Text → Items N
  strings [] = nil
  strings (p ∷ list) = cons (string p) (strings list)

  unfoldable pub read_base_urls : Fields N → List Text
  read_base_urls obj =
      union (list_of (lookup key_base_urls obj)) (list_of (lookup key_base_urls_legacy obj))

  -- `Map::remove` with entries in insertion order: the last entry takes the place of the removed one.
  abbrev pub behind_first : Text → Value N → Fields N → Fields N
  behind_first k v end = field k v end
  behind_first k v (field j w fs) = field j w (field k v fs)

  unfoldable pub last_first : Fields N → Fields N
  last_first end = end
  last_first (field k v fs) = behind_first k v (last_first fs)

  unfoldable pub remove : Text → Fields N → Fields N
  remove k end = end
  remove k (field j v fs) =
      let rest = remove k fs in if text_eq j k then last_first fs else field j v rest

  unfoldable pub write_base_urls : List Text → Fields N → Fields N
  write_base_urls list obj =
      remove key_base_urls_legacy (insert key_base_urls (array (strings list)) obj)

  unfoldable pub add_allowed_base_url : Text → Fields N → Fields N
  add_allowed_base_url prefix obj = write_base_urls (push_new prefix (read_base_urls obj)) obj

  unfoldable pub remove_allowed_base_url : Text → Fields N → Fields N
  remove_allowed_base_url prefix obj = write_base_urls (without prefix (read_base_urls obj)) obj
