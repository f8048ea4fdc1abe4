-- ===== src/Actions/Mask/Redacted.antt =====
-- What the masks make of a value: the same shape, with some strings replaced.
use solx_core.Prelude.{
  ℕ, Bool, true, false, Option, some, refl, sym, subst, inl, inr, if◌then◌else◌, Bool-cases, Text,
  text_eq, codes,
}
use solx_core.Json.{
  Value, null, bool, number, string, array, object, Items, nil, cons, Fields, end, field, modify,
  IsDistinct, AllDistinct, AreDistinct,
}
use solx_core.Json.Laws.{distinct_keys}
use solx_core.Actions.Mask.{
  mask_text, auth_key_is_visible, mask_all_strings, mask_all_fields, mask_all_items, mask_auth,
  mask_auth_fields, mask_auth_items, mask_action_config, walk,
}
use solx_core.Actions.Mask.Merge.{
  Gives, FieldsGive, no_fields, one_field, ItemsGive, no_items, one_item, Gives-object, Gives-array,
  Covers, CoversItems, Covers-self, CoversItems-self,
}

-- `Redacted m v`: `m` is `v` with the mask in the place of some of its parts.
mutual
  pub data Redacted {N : Type 0} : Value N → Value N → Type 0 where
    hidden : {v : Value N} → Redacted (string mask_text) v
    text : {s : Text} → Redacted (string s) (string s)
    nothing : Redacted null null
    flag : {b : Bool} → Redacted (bool b) (bool b)
    figure : {n : N} → Redacted (number n) (number n)
    items : {ms vs : Items N} → RedactedItems ms vs → Redacted (array ms) (array vs)
    fields : {ms vs : Fields N} → RedactedFields ms vs → Redacted (object ms) (object vs)

  pub data RedactedItems {N : Type 0} : Items N → Items N → Type 0 where
    none_left : RedactedItems nil nil
    next_item :
        {m v : Value N} {ms vs : Items N}
        → Redacted m v
        → RedactedItems ms vs
        → RedactedItems (cons m ms) (cons v vs)

  pub data RedactedFields {N : Type 0} : Fields N → Fields N → Type 0 where
    no_more : RedactedFields end end
    next_field :
        {k : Text} {m v : Value N} {ms vs : Fields N}
        → Redacted m v
        → RedactedFields ms vs
        → RedactedFields (field k m ms) (field k v vs)

module _ {N : Type 0} where
  mutual
    refl_value : (v : Value N) → Redacted v v
    refl_value null = nothing
    refl_value (bool b) = flag
    refl_value (number n) = figure
    refl_value (string s) = text
    refl_value (array vs) = items (refl_items vs)
    refl_value (object fs) = fields (refl_fields fs)

    refl_items : (vs : Items N) → RedactedItems vs vs
    refl_items nil = none_left
    refl_items (cons v vs) = next_item (refl_value v) (refl_items vs)

    refl_fields : (fs : Fields N) → RedactedFields fs fs
    refl_fields end = no_more
    refl_fields (field k v fs) = next_field (refl_value v) (refl_fields fs)

  pub RedactedFields-refl : (fs : Fields N) → RedactedFields fs fs
  RedactedFields-refl fs = refl_fields fs

  pub Redacted_refl : (v : Value N) → Redacted v v
  Redacted_refl v = refl_value v

  mutual
    unfolding mask_all_strings

    mask_all_value : {m v : Value N} → Redacted m v → Redacted (mask_all_strings m) v
    mask_all_value hidden = hidden
    mask_all_value text = hidden
    mask_all_value nothing = nothing
    mask_all_value flag = flag
    mask_all_value figure = figure
    mask_all_value (items h) = items (mask_all_each_item h)
    mask_all_value (fields h) = fields (mask_all_each_field h)

    mask_all_each_item :
        {ms vs : Items N} → RedactedItems ms vs → RedactedItems (mask_all_items ms) vs
    mask_all_each_item none_left = none_left
    mask_all_each_item (next_item h hs) = next_item (mask_all_value h) (mask_all_each_item hs)

    mask_all_each_field :
        {ms vs : Fields N} → RedactedFields ms vs → RedactedFields (mask_all_fields ms) vs
    mask_all_each_field no_more = no_more
    mask_all_each_field (next_field h hs) = next_field (mask_all_value h) (mask_all_each_field hs)

  either :
      (b : Bool) {x y v : Value N} → Redacted x v → Redacted y v → Redacted (if b then x else y) v
  either true h k = h
  either false h k = k

  either_text :
      (b : Bool) {s : Text} {v : Value N}
      → Redacted (string s) v
      → Redacted (string (if b then s else mask_text)) v
  either_text true h = h
  either_text false h = hidden

  mutual
    unfolding mask_auth

    mask_auth_value : {m v : Value N} → Redacted m v → Redacted (mask_auth m) v
    mask_auth_value hidden = hidden
    mask_auth_value text = text
    mask_auth_value nothing = nothing
    mask_auth_value flag = flag
    mask_auth_value figure = figure
    mask_auth_value (items h) = items (mask_auth_each_item h)
    mask_auth_value (fields h) = fields (mask_auth_each_field h)

    mask_auth_each_item :
        {ms vs : Items N} → RedactedItems ms vs → RedactedItems (mask_auth_items ms) vs
    mask_auth_each_item none_left = none_left
    mask_auth_each_item (next_item h hs) = next_item (mask_auth_value h) (mask_auth_each_item hs)

    mask_auth_each_field :
        {ms vs : Fields N} → RedactedFields ms vs → RedactedFields (mask_auth_fields ms) vs
    mask_auth_each_field no_more = no_more
    mask_auth_each_field (next_field {k} hidden hs) =
        next_field (either_text (auth_key_is_visible k) hidden) (mask_auth_each_field hs)
    mask_auth_each_field (next_field {k} text hs) =
        next_field (either_text (auth_key_is_visible k) text) (mask_auth_each_field hs)
    mask_auth_each_field (next_field {k} nothing hs) =
        next_field (either (auth_key_is_visible k) nothing nothing) (mask_auth_each_field hs)
    mask_auth_each_field (next_field {k} flag hs) =
        next_field (either (auth_key_is_visible k) flag flag) (mask_auth_each_field hs)
    mask_auth_each_field (next_field {k} figure hs) =
        next_field (either (auth_key_is_visible k) figure figure) (mask_auth_each_field hs)
    mask_auth_each_field (next_field {k} (items h) hs) =
        next_field (either (auth_key_is_visible k) (items h) (items (mask_auth_each_item h)))
          (mask_auth_each_field hs)
    mask_auth_each_field (next_field {k} (fields h) hs) =
        next_field (either (auth_key_is_visible k) (fields h) (fields (mask_auth_each_field h)))
          (mask_auth_each_field hs)

  modify-Redacted :
      (k : Text) (f : Value N → Value N)
      → ((m v : Value N) → Redacted m v → Redacted (f m) v)
      → {ms vs : Fields N} → RedactedFields ms vs
      → RedactedFields (modify k f ms) vs
  unfolding modify
  modify-Redacted k f h no_more = no_more
  modify-Redacted k f h (next_field {k = j} r rs) = elim (Bool-cases (text_eq j k)) [
    | inl e ↦ rw e (next_field (h _ _ r) rs)
    | inr e ↦ rw e (next_field r (modify-Redacted k f h rs))
  ]

  abbrev pub mask_fields : Fields N → Fields N
  mask_fields fs = modify (codes "auth") mask_auth (modify (codes "secrets") mask_all_strings fs)

  pub mask_fields-Redacted : (fs : Fields N) → RedactedFields (mask_fields fs) fs
  mask_fields-Redacted fs =
      modify-Redacted (codes "auth") mask_auth (λ m v h. mask_auth_value h)
        (modify-Redacted (codes "secrets") mask_all_strings (λ m v h. mask_all_value h)
          (RedactedFields-refl fs))

  pub mask_action_config-Redacted : (cfg : Value N) → Redacted (mask_action_config cfg) cfg
  unfolding mask_action_config
  mask_action_config-Redacted (object fs) = fields (mask_fields-Redacted fs)
  mask_action_config-Redacted null = nothing
  mask_action_config-Redacted (bool b) = flag
  mask_action_config-Redacted (number n) = figure
  mask_action_config-Redacted (string s) = text
  mask_action_config-Redacted (array vs) = items (refl_items vs)

  Gives-text : (s : Text) → Gives {N = N} (string s) (some (string s)) (string s)
  unfolding walk
  Gives-text s path = elim (Bool-cases (text_eq s mask_text)) [ inl e ↦ rw e | inr e ↦ rw e ]

  Gives-hidden : (v : Value N) → Gives (string mask_text) (some v) v
  unfolding walk text_eq
  Gives-hidden v path = refl

  mutual
    unfolding walk

    pub Redacted-Gives : {m v : Value N} → Redacted m v → IsDistinct v → Gives m (some v) v
    Redacted-Gives (hidden {v}) d path = Gives-hidden v path
    Redacted-Gives (text {s}) d path = Gives-text s path
    Redacted-Gives nothing d path = refl
    Redacted-Gives flag d path = refl
    Redacted-Gives figure d path = refl
    Redacted-Gives (items {vs} h) d path = Gives-array (items_give h (CoversItems-self vs) d) path
    Redacted-Gives (fields {vs} h) d path =
        Gives-object (fields_give h (Covers-self vs (distinct_keys vs d)) d) (distinct_keys vs d)
          path

    items_give :
        {ms vs : Items N}
        → RedactedItems ms vs
        → {existing : Option (Value N)} {i : ℕ} → CoversItems existing i vs
        → AllDistinct vs
        → ItemsGive existing i ms vs
    items_give none_left c d = no_items
    items_give (next_item {m} {v} h hs) (c, cs) (d, ds) =
        one_item (subst (λ e. Gives m e v) (sym c) (Redacted-Gives h d)) (items_give hs cs ds)

    pub fields_give :
        {ms vs : Fields N}
        → RedactedFields ms vs
        → {existing : Option (Value N)} → Covers existing vs
        → AreDistinct vs
        → FieldsGive existing ms vs
    fields_give no_more c d = no_fields
    fields_give (next_field {m} {v} h hs) (c, cs) (_, d, ds) =
        one_field (subst (λ e. Gives m e v) (sym c) (Redacted-Gives h d)) (fields_give hs cs ds)
