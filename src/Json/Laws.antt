-- ===== src/Json/Laws.antt =====
-- The laws of `lookup`, `insert` and `push` that the merge of two maps or arrays rests on.
use solx_core.Prelude.{
  false, none, ◌≡◌, refl, ap, inl, inr, Bool-cases, Text, text_eq, text_eq_comm,
}
use solx_core.Json.{Value, Items, nil, cons, Fields, end, field, lookup, insert, push, AreDistinct}

module _ {N : Type 0} where
  abbrev pub append_fields : Fields N → Fields N → Fields N
  append_fields end gs = gs
  append_fields (field k v fs) gs = field k v (append_fields fs gs)

  abbrev pub append_items : Items N → Items N → Items N
  append_items nil ws = ws
  append_items (cons v vs) ws = cons v (append_items vs ws)

  pub append_fields-end : (fs : Fields N) → append_fields fs end ≡ fs
  append_fields-end end = refl
  append_fields-end (field k v fs) = ap (field k v) (append_fields-end fs)

  pub append_fields_assoc :
      (a b c : Fields N) → append_fields (append_fields a b) c ≡ append_fields a (append_fields b c)
  append_fields_assoc end b c = refl
  append_fields_assoc (field k v a) b c = ap (field k v) (append_fields_assoc a b c)

  pub append_items-nil : (vs : Items N) → append_items vs nil ≡ vs
  append_items-nil nil = refl
  append_items-nil (cons v vs) = ap (cons v) (append_items-nil vs)

  pub append_items_assoc :
      (a b c : Items N) → append_items (append_items a b) c ≡ append_items a (append_items b c)
  append_items_assoc nil b c = refl
  append_items_assoc (cons v a) b c = ap (cons v) (append_items_assoc a b c)

  pub push-append : (vs : Items N) (v : Value N) → push vs v ≡ append_items vs (cons v nil)
  unfolding push
  push-append nil v = refl
  push-append (cons w vs) v = ap (cons w) (push-append vs v)

  -- Different keys down the whole list.
  abbrev pub DistinctKeys : Fields N → Type 0
  DistinctKeys end = Unit
  DistinctKeys (field k v fs) = (lookup k fs ≡ none) × DistinctKeys fs

  pub distinct_keys : (fs : Fields N) → AreDistinct fs → DistinctKeys fs
  distinct_keys end h = tt
  distinct_keys (field k v fs) (a, _, h) = (a, distinct_keys fs h)

  -- None of the keys of the second list stands in the first.
  abbrev pub FreshFor : Fields N → Fields N → Type 0
  FreshFor out end = Unit
  FreshFor out (field k v fs) = (lookup k out ≡ none) × FreshFor out fs

  pub FreshFor-end : (fs : Fields N) → FreshFor end fs
  unfolding lookup
  FreshFor-end end = tt
  FreshFor-end (field k v fs) = (refl, FreshFor-end fs)

  -- A missing key is inserted at the end.
  pub insert-append :
      (k : Text) (v : Value N) (out : Fields N)
      → lookup k out ≡ none
      → insert k v out ≡ append_fields out (field k v end)
  unfolding lookup insert
  insert-append k v end h = refl
  insert-append k v (field j w out) h = elim (Bool-cases (text_eq j k)) [
    | inl e ↦ cc (rw e at h)
    | inr e ↦ rw e (ap (field j w) (insert-append k v out (rw e at h)))
  ]

  lookup-concat :
      (j k : Text) (v : Value N) (out : Fields N)
      → lookup j out ≡ none
      → text_eq k j ≡ false
      → lookup j (append_fields out (field k v end)) ≡ none
  unfolding lookup
  lookup-concat j k v end h ne = rw ne
  lookup-concat j k v (field i w out) h ne = elim (Bool-cases (text_eq i j)) [
    | inl e ↦ cc (rw e at h)
    | inr e ↦ rw e (lookup-concat j k v out (rw e at h) ne)
  ]

  -- What a missing key says of the first key of the list, and of the rest.
  pub absent_head :
      (k j : Text) (v : Value N) (fs : Fields N)
      → lookup k (field j v fs) ≡ none
      → (text_eq j k ≡ false) × (lookup k fs ≡ none)
  unfolding lookup
  absent_head k j v fs h = elim (Bool-cases (text_eq j k)) [
    | inl e ↦ cc (rw e at h)
    | inr e ↦ (e, rw e at h)
  ]

  pub FreshFor-concat :
      (out : Fields N) (k : Text) (v : Value N) (fs : Fields N)
      → lookup k fs ≡ none
      → FreshFor out fs
      → FreshFor (append_fields out (field k v end)) fs
  FreshFor-concat out k v end a h = tt
  FreshFor-concat out k v (field j w fs) a (f, h) =
      let (ne, a') = absent_head k j w fs a in
      (lookup-concat j k v out f (text_eq_comm j k ne), FreshFor-concat out k v fs a' h)

  lookup-insert_ne :
      (j k : Text) (v : Value N) (fs : Fields N)
      → text_eq k j ≡ false
      → lookup j fs ≡ none
      → lookup j (insert k v fs) ≡ none
  unfolding lookup insert
  lookup-insert_ne j k v end ne h = rw ne
  lookup-insert_ne j k v (field i w fs) ne h =
      let (other, h') = absent_head j i w fs h in
      elim (Bool-cases (text_eq i k)) [
        | inl e ↦ rw (e, other) h'
        | inr e ↦ rw (e, other) (lookup-insert_ne j k v fs ne h')
      ]

  -- Inserting keeps the keys different.
  pub DistinctKeys-insert :
      (k : Text) (v : Value N) (fs : Fields N) → DistinctKeys fs → DistinctKeys (insert k v fs)
  unfolding insert lookup
  DistinctKeys-insert k v end h = (refl, tt)
  DistinctKeys-insert k v (field j w fs) (a, h) = elim (Bool-cases (text_eq j k)) [
    | inl e ↦ rw e (a, h)
    | inr e ↦ rw e (lookup-insert_ne j k v fs (text_eq_comm j k e) a, DistinctKeys-insert k v fs h)
  ]
