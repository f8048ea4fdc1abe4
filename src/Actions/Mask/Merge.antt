-- ===== src/Actions/Mask/Merge.antt =====
-- The two loops of `walk`: what they return when each item merges on its own.
use solx_core.Prelude.{
  ℕ, suc, List, [], ◌∷◌, ◌++◌, Option, none, some, ◌≡◌, refl, sym, ap, subst, inl, inr, Bool-cases,
  Text, text_eq, text_eq_refl, text_eq_iff, text_eq_comm, ok,
}
use solx_core.Json.{
  Value, array, object, Items, nil, cons, Fields, end, field, lookup, get_key, get_index, insert,
}
use solx_core.Json.Laws.{
  append_fields, append_items, append_fields-end, append_fields_assoc, append_items-nil,
  append_items_assoc, push-append, DistinctKeys, FreshFor, FreshFor-end, insert-append,
  FreshFor-concat, absent_head,
}
use solx_core.Actions.Mask.{
  Step, key, index, nested_key, nested_index, walk, walk_fields, walk_items,
}

module _ {N : Type 0} where
  -- Wherever it stands, `m` merges into `r`.
  abbrev pub Gives : Value N → Option (Value N) → Value N → Type 0
  Gives m existing r = (path : List Step) → walk m existing path ≡ ok r

  pub data FieldsGive (existing : Option (Value N)) : Fields N → Fields N → Type 0 where
    no_fields : FieldsGive existing end end
    one_field :
        {k : Text} {m r : Value N} {ms rs : Fields N}
        → Gives m (nested_key k existing) r
        → FieldsGive existing ms rs
        → FieldsGive existing (field k m ms) (field k r rs)

  pub data ItemsGive (existing : Option (Value N)) : ℕ → Items N → Items N → Type 0 where
    no_items : {i : ℕ} → ItemsGive existing i nil nil
    one_item :
        {i : ℕ} {m r : Value N} {ms rs : Items N}
        → Gives m (nested_index i existing) r
        → ItemsGive existing (suc i) ms rs
        → ItemsGive existing i (cons m ms) (cons r rs)

  pub walk_fields-append :
      {existing : Option (Value N)} {ms rs : Fields N} (out : Fields N) (path : List Step)
      → FieldsGive existing ms rs
      → DistinctKeys rs
      → FreshFor out rs
      → walk_fields ms out existing path ≡ ok (append_fields out rs)
  unfolding walk
  walk_fields-append out path no_fields d f = ap ok (sym (append_fields-end out))
  walk_fields-append out path (one_field {k} {r} {rs} g gs) (a, d) (f, fs) =
      rw
        (
          g (path ++ key k ∷ []),
          insert-append k r out f,
          walk_fields-append (append_fields out (field k r end)) path gs d
              (FreshFor-concat out k r rs a fs),
        )
        (ap ok (append_fields_assoc out (field k r end) rs))

  pub walk_items-append :
      {existing : Option (Value N)} {i : ℕ} {ms rs : Items N} (out : Items N) (path : List Step)
      → ItemsGive existing i ms rs
      → walk_items ms out i existing path ≡ ok (append_items out rs)
  unfolding walk
  walk_items-append out path no_items = ap ok (sym (append_items-nil out))
  walk_items-append out path (one_item {i} {r} {rs} g gs) =
      rw
        (
          g (path ++ index i ∷ []),
          push-append out r,
          walk_items-append (append_items out (cons r nil)) path gs,
        )
        (ap ok (append_items_assoc out (cons r nil) rs))

  pub Gives-object :
      {existing : Option (Value N)} {ms rs : Fields N}
      → FieldsGive existing ms rs
      → DistinctKeys rs
      → Gives (object ms) existing (object rs)
  unfolding walk
  Gives-object {rs} g d path = rw (walk_fields-append end path g d (FreshFor-end rs))

  pub Gives-array :
      {existing : Option (Value N)} {ms rs : Items N}
      → ItemsGive existing 0 ms rs
      → Gives (array ms) existing (array rs)
  unfolding walk
  Gives-array g path = rw (walk_items-append nil path g)

  -- Inserting the same value, which merges into itself, on both sides.
  pub FieldsGive-insert :
      {existing : Option (Value N)} {ms rs : Fields N} (k : Text) (w : Value N)
      → Gives w (nested_key k existing) w
      → FieldsGive existing ms rs
      → FieldsGive existing (insert k w ms) (insert k w rs)
  unfolding insert
  FieldsGive-insert k w g no_fields = one_field g no_fields
  FieldsGive-insert {existing} k w g (one_field {k = j} h gs) = elim (Bool-cases (text_eq j k)) [
    | inl e ↦ rw e (
        one_field (subst (λ t. Gives w (nested_key t existing) w) (sym ((text_eq_iff j k).0 e)) g)
          gs)
    | inr e ↦ rw e (one_field h (FieldsGive-insert k w g gs))
  ]

  -- Every field of the list stands in the stored map, every item at its place in the stored array.
  abbrev pub Covers : Option (Value N) → Fields N → Type 0
  Covers existing end = Unit
  Covers existing (field k v fs) = (nested_key k existing ≡ some v) × Covers existing fs

  abbrev pub CoversItems : Option (Value N) → ℕ → Items N → Type 0
  CoversItems existing i nil = Unit
  CoversItems existing i (cons v vs) =
      (nested_index i existing ≡ some v) × CoversItems existing (suc i) vs

  Covers-field :
      (k : Text) (v : Value N) (fs gs : Fields N)
      → lookup k gs ≡ none
      → Covers (some (object fs)) gs
      → Covers (some (object (field k v fs))) gs
  unfolding get_key
  Covers-field k v fs end a h = tt
  Covers-field k v fs (field j w gs) a (c, h) =
      let (ne, a') = absent_head k j w gs a in
      (rw (text_eq_comm j k ne) c, Covers-field k v fs gs a' h)

  pub Covers-self : (fs : Fields N) → DistinctKeys fs → Covers (some (object fs)) fs
  unfolding get_key
  Covers-self end d = tt
  Covers-self (field k v fs) (a, d) =
      (rw (text_eq_refl k), Covers-field k v fs fs a (Covers-self fs d))

  CoversItems-cons :
      (v : Value N) (vs ws : Items N) (i : ℕ)
      → CoversItems (some (array vs)) i ws
      → CoversItems (some (array (cons v vs))) (suc i) ws
  unfolding get_index
  CoversItems-cons v vs nil i h = tt
  CoversItems-cons v vs (cons w ws) i (c, h) = (c, CoversItems-cons v vs ws (suc i) h)

  pub CoversItems-self : (vs : Items N) → CoversItems (some (array vs)) 0 vs
  unfolding get_index
  CoversItems-self nil = tt
  CoversItems-self (cons v vs) = (refl, CoversItems-cons v vs vs 0 (CoversItems-self vs))
