-- ===== src/Actions/Mask/Hides.antt =====
-- What a masked configuration no longer shows, and what it still shows.
use solx_core.Prelude.{
  Bool, true, false, ◌≡◌, refl, ap, ap₂, ◌∙◌, List, [], ◌∷◌, ◌⊎◌, inl, inr, if◌then◌else◌,
  Bool-cases, Text, codes, text_eq, text_eq_iff, arith,
}
use mathlib.Core.Option
use solx_core.Json.{
  Value, null, bool, number, string, array, object, Items, nil, cons, Fields, end, field, lookup,
  modify, get_key,
}
use solx_core.Actions.Mask.{
  mask_text, auth_key_is_visible, mask_all_strings, mask_all_fields, mask_all_items, mask_auth,
  mask_auth_fields, mask_auth_items, mask_action_config,
}

-- Two values that differ in their strings alone.
mutual
  pub data SameShape {N : Type 0} : Value N → Value N → Type 0 where
    strings : {s t : Text} → SameShape (string s) (string t)
    nulls : SameShape null null
    bools : {b : Bool} → SameShape (bool b) (bool b)
    numbers : {n : N} → SameShape (number n) (number n)
    arrays : {vs ws : Items N} → SameItems vs ws → SameShape (array vs) (array ws)
    objects : {fs gs : Fields N} → SameFields fs gs → SameShape (object fs) (object gs)

  pub data SameItems {N : Type 0} : Items N → Items N → Type 0 where
    empty : SameItems nil nil
    more_items :
        {v w : Value N} {vs ws : Items N}
        → SameShape v w
        → SameItems vs ws
        → SameItems (cons v vs) (cons w ws)

  pub data SameFields {N : Type 0} : Fields N → Fields N → Type 0 where
    closed : SameFields end end
    more_fields :
        {k : Text} {v w : Value N} {fs gs : Fields N}
        → SameShape v w
        → SameFields fs gs
        → SameFields (field k v fs) (field k w gs)

shown_or_text :
    (k s : Text)
    → (auth_key_is_visible k ≡ true)
      ⊎ ((if auth_key_is_visible k then s else mask_text) ≡ mask_text)
shown_or_text k s = elim (Bool-cases (auth_key_is_visible k)) [ inl e ↦ inl e | inr e ↦ inr (rw e) ]

module _ {N : Type 0} where
  mutual
    unfolding mask_all_strings

    masked_alike : {v w : Value N} → SameShape v w → mask_all_strings v ≡ mask_all_strings w
    masked_alike strings = refl
    masked_alike nulls = refl
    masked_alike bools = refl
    masked_alike numbers = refl
    masked_alike (arrays h) = ap array (masked_items_alike h)
    masked_alike (objects h) = ap object (masked_fields_alike h)

    masked_items_alike : {vs ws : Items N} → SameItems vs ws → mask_all_items vs ≡ mask_all_items ws
    masked_items_alike empty = refl
    masked_items_alike (more_items h hs) = ap₂ cons (masked_alike h) (masked_items_alike hs)

    masked_fields_alike :
        {fs gs : Fields N} → SameFields fs gs → mask_all_fields fs ≡ mask_all_fields gs
    masked_fields_alike closed = refl
    masked_fields_alike (more_fields {k} h hs) =
        ap₂ (field k) (masked_alike h) (masked_fields_alike hs)

  -- A write to a key, and a read of it or of another one.
  lookup-modify :
      (j k : Text) (f : Value N → Value N) (fs : Fields N)
      → lookup j (modify k f fs) ≡ (if text_eq k j then Option.map f (lookup j fs) else lookup j fs)
  unfolding lookup modify
  lookup-modify j k f end = elim (Bool-cases (text_eq k j)) [ inl e ↦ rw e | inr e ↦ rw e ]
  lookup-modify j k f (field i v fs) =
      ground (arith, text_eq_iff i k, text_eq_iff i j, text_eq_iff k j, lookup-modify j k f fs)

  -- Reads of a masked configuration: `secrets` and `auth` go through their masks, and every other
  -- key is as it was.
  pub get_key-mask_action_config :
      (fs : Fields N)
      → (get_key (codes "secrets") (mask_action_config (object fs))
          ≡ Option.map mask_all_strings (lookup (codes "secrets") fs))
        × (get_key (codes "auth") (mask_action_config (object fs))
            ≡ Option.map mask_auth (lookup (codes "auth") fs))
        × ((j : Text)
            → text_eq (codes "secrets") j ≡ false
            → text_eq (codes "auth") j ≡ false
            → get_key j (mask_action_config (object fs)) ≡ lookup j fs)
  unfolding mask_action_config get_key text_eq
  get_key-mask_action_config fs = (
    lookup-modify (codes "secrets") (codes "auth") mask_auth _
        ∙ lookup-modify (codes "secrets") (codes "secrets") mask_all_strings fs,
    lookup-modify (codes "auth") (codes "auth") mask_auth _
        ∙ ap (Option.map mask_auth)
            (lookup-modify (codes "auth") (codes "secrets") mask_all_strings fs),
    λ j s a.
        lookup-modify j (codes "auth") mask_auth _
        ∙ rw a (lookup-modify j (codes "secrets") mask_all_strings fs ∙ rw s),
  )

  -- Two values that differ only in their strings are masked to the same value: the mask of the
  -- secrets tells nothing of them.
  pub mask_all_strings-SameShape :
      (v w : Value N) → SameShape v w → mask_all_strings v ≡ mask_all_strings w
  mask_all_strings-SameShape v w h = masked_alike h

  -- Below `auth`: a string that stands directly under a key that is not on the visible list is the
  -- mask, also in the objects and arrays below such keys.
  abbrev mutual
    pub IsHidden : Value N → Type 0
    IsHidden (object fs) = FieldsHidden fs
    IsHidden (array vs) = ItemsHidden vs
    IsHidden _ = Unit

    pub ItemsHidden : Items N → Type 0
    ItemsHidden nil = Unit
    ItemsHidden (cons v vs) = IsHidden v × ItemsHidden vs

    pub FieldsHidden : Fields N → Type 0
    FieldsHidden end = Unit
    FieldsHidden (field k v fs) =
        ((auth_key_is_visible k ≡ true) ⊎ IsHiddenField v) × FieldsHidden fs

    pub IsHiddenField : Value N → Type 0
    IsHiddenField (string s) = s ≡ mask_text
    IsHiddenField (object fs) = FieldsHidden fs
    IsHiddenField (array vs) = ItemsHidden vs
    IsHiddenField _ = Unit

  -- One field: the test on its key decides.
  shown_or :
      (k : Text) (v w : Value N)
      → IsHiddenField w
      → (auth_key_is_visible k ≡ true) ⊎ IsHiddenField (if auth_key_is_visible k then v else w)
  shown_or k v w h = elim (Bool-cases (auth_key_is_visible k)) [
    | inl e ↦ inl e
    | inr e ↦ inr (rw e h)
  ]

  mutual
    unfolding mask_auth

    hides : (v : Value N) → IsHidden (mask_auth v)
    hides null = tt
    hides (bool b) = tt
    hides (number n) = tt
    hides (string s) = tt
    hides (array vs) = hides_items vs
    hides (object fs) = hides_fields fs

    hides_items : (vs : Items N) → ItemsHidden (mask_auth_items vs)
    hides_items nil = tt
    hides_items (cons v vs) = (hides v, hides_items vs)

    hides_fields : (fs : Fields N) → FieldsHidden (mask_auth_fields fs)
    hides_fields end = tt
    hides_fields (field k (string s) fs) = (shown_or_text k s, hides_fields fs)
    hides_fields (field k null fs) = (shown_or k null null tt, hides_fields fs)
    hides_fields (field k (bool b) fs) = (shown_or k (bool b) (bool b) tt, hides_fields fs)
    hides_fields (field k (number n) fs) = (shown_or k (number n) (number n) tt, hides_fields fs)
    hides_fields (field k (array vs) fs) =
        (shown_or k (array vs) (array (mask_auth_items vs)) (hides_items vs), hides_fields fs)
    hides_fields (field k (object gs) fs) =
        (shown_or k (object gs) (object (mask_auth_fields gs)) (hides_fields gs), hides_fields fs)

  -- After the mask of `auth`, a string that stands directly under a key that is not visible is the
  -- mask.
  pub mask_auth-IsHidden : (v : Value N) → IsHidden (mask_auth v)
  mask_auth-IsHidden v = hides v

  abbrev pub texts : List Text → Items N
  texts [] = nil
  texts (t ∷ ts) = cons (string t) (texts ts)

  mask_auth_items-texts : (ts : List Text) → mask_auth_items (texts ts) ≡ texts ts
  unfolding mask_auth
  mask_auth_items-texts [] = refl
  mask_auth_items-texts (t ∷ ts) = ap (cons (string t)) (mask_auth_items-texts ts)

  -- A list of strings that stands under a key of `auth` is not masked, whatever the key.
  pub mask_auth-texts :
      (k : Text) (ts : List Text)
      → mask_auth (object (field k (array (texts ts)) end))
        ≡ object (field k (array (texts ts)) end)
  unfolding mask_auth
  mask_auth-texts k ts = elim (Bool-cases (auth_key_is_visible k)) [
    | inl e ↦ rw e
    | inr e ↦ rw e (ap (λ vs. object (field k (array vs) end)) (mask_auth_items-texts ts))
  ]
