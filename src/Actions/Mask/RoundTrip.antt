-- ===== src/Actions/Mask/RoundTrip.antt =====
-- Writing back what was read: the merge restores every redacted value.
use solx_core.Prelude.{ℕ, false, Option, some, ◌≡◌, refl, [], Text, text_eq, ok}
use solx_core.Json.{
  Value, null, bool, number, string, array, object, Items, nil, cons, Fields, end, field, insert,
  IsDistinct, AllDistinct, AreDistinct,
}
use solx_core.Json.Laws.{distinct_keys, DistinctKeys-insert}
use solx_core.Actions.Mask.{mask_text, mask_action_config, walk, unmask_merge, nested_key}
use solx_core.Actions.Mask.Merge.{
  Gives, FieldsGive, no_fields, one_field, ItemsGive, no_items, one_item, Gives-object, Gives-array,
  FieldsGive-insert, Covers-self,
}
use solx_core.Actions.Mask.Redacted.{
  mask_action_config-Redacted, mask_fields, mask_fields-Redacted, Redacted-Gives, fields_give,
}

module _ {N : Type 0} where
  -- No string of the value is the mask.
  abbrev mutual
    pub IsClean : Value N → Type 0
    IsClean (string s) = text_eq s mask_text ≡ false
    IsClean (array vs) = AllClean vs
    IsClean (object fs) = AreClean fs
    IsClean _ = Unit

    pub AllClean : Items N → Type 0
    AllClean nil = Unit
    AllClean (cons v vs) = IsClean v × AllClean vs

    pub AreClean : Fields N → Type 0
    AreClean end = Unit
    AreClean (field k v fs) = IsClean v × AreClean fs

  mutual
    unfolding walk

    clean : (v : Value N) → IsClean v → IsDistinct v → (e : Option (Value N)) → Gives v e v
    clean null c d e path = refl
    clean (bool b) c d e path = refl
    clean (number n) c d e path = refl
    clean (string s) c d e path = rw c
    clean (array vs) c d e path = Gives-array (clean_items vs c d e 0) path
    clean (object fs) c d e path = Gives-object (clean_fields fs c d e) (distinct_keys fs d) path

    clean_items :
        (vs : Items N)
        → AllClean vs
        → AllDistinct vs
        → (e : Option (Value N)) (i : ℕ) → ItemsGive e i vs vs
    clean_items nil c d e i = no_items
    clean_items (cons v vs) (c, cs) (d, ds) e i =
        one_item (clean v c d _) (clean_items vs cs ds e _)

    clean_fields :
        (fs : Fields N) → AreClean fs → AreDistinct fs → (e : Option (Value N)) → FieldsGive e fs fs
    clean_fields end c d e = no_fields
    clean_fields (field k v fs) (c, cs) (_, d, ds) e =
        one_field (clean v c d _) (clean_fields fs cs ds e)

  -- Masking a configuration that repeats no key and merging the result over the stored one gives
  -- the stored one.
  pub unmask_merge-mask_action_config :
      (cfg : Value N) → IsDistinct cfg → unmask_merge (mask_action_config cfg) (some cfg) ≡ ok cfg
  unfolding unmask_merge
  unmask_merge-mask_action_config cfg d = Redacted-Gives (mask_action_config-Redacted cfg) d []

  -- Where no key is repeated: setting a top-level key of a masked configuration to a value that
  -- holds no mask, and merging the result over the stored one, sets that key of the stored one and
  -- nothing else.
  pub unmask_merge-insert :
      (fs : Fields N) (k : Text) (w : Value N)
      → IsDistinct (object fs)
      → IsDistinct w
      → IsClean w
      → unmask_merge (object (insert k w (mask_fields fs))) (some (object fs))
        ≡ ok (object (insert k w fs))
  unfolding unmask_merge
  unmask_merge-insert fs k w d dw c =
      Gives-object
        (FieldsGive-insert k w (clean w c dw (nested_key k (some (object fs))))
          (fields_give (mask_fields-Redacted fs) (Covers-self fs (distinct_keys fs d)) d))
        (DistinctKeys-insert k w fs (distinct_keys fs d)) []

  -- A value that holds no mask and repeats no key replaces whatever was stored.
  pub unmask_merge_clean :
      (v : Value N) (existing : Option (Value N))
      → IsClean v
      → IsDistinct v
      → unmask_merge v existing ≡ ok v
  unfolding unmask_merge
  unmask_merge_clean v existing c d = clean v c d existing []
