-- ===== src/Actions/Mask/Refusal.antt =====
-- When the merge refuses: a mask came back where nothing is stored.
use solx_core.Prelude.{
  ℕ, suc, Option, none, some, ◌≡◌, refl, ap, ◌∙◌, List, [], ◌∷◌, ◌++◌, append_assoc, append-nil,
  inl, inr, Bool-cases, Text, text_eq, text_eq_iff, ok, err, >>=-eq-err,
}
use solx_core.Json.{
  Value, null, bool, number, string, array, object, Items, nil, cons, Fields, end, field, insert,
  push, IsDistinct, AllDistinct, AreDistinct,
}
use solx_core.Json.Laws.{distinct_keys}
use solx_core.Actions.Mask.{
  mask_text, Step, key, index, nested_key, nested_index, walk, walk_fields, walk_items,
  unmask_merge,
}
use solx_core.Actions.Mask.Merge.{Covers, CoversItems, Covers-self, CoversItems-self}

module _ {N : Type 0} where
  -- What stands at a path.
  abbrev pub at : List Step → Option (Value N) → Option (Value N)
  at [] v = v
  at (key k ∷ p) v = at p (nested_key k v)
  at (index i ∷ p) v = at p (nested_index i v)

  -- A path below `path` where the incoming value is the mask and nothing is stored.
  pub record Unrestored (incoming existing : Option (Value N)) (path q : List Step) : Type 0 where
    pub below : List Step
    pub path_eq : q ≡ path ++ below
    pub is_mask : at below incoming ≡ some (string mask_text)
    pub not_stored : at below existing ≡ none

  Unrestored-key :
      {incoming existing : Option (Value N)} {path q : List Step} (k : Text) (v : Value N)
      → nested_key k incoming ≡ some v
      → Unrestored (some v) (nested_key k existing) (path ++ key k ∷ []) q
      → Unrestored incoming existing path q
  Unrestored-key {path} k v c u = record {
    below = key k ∷ u.below;
    path_eq = u.path_eq ∙ append_assoc path (key k ∷ []) u.below;
    is_mask = rw c u.is_mask;
    not_stored = u.not_stored;
  }

  Unrestored-index :
      {incoming existing : Option (Value N)} {path q : List Step} (i : ℕ) (v : Value N)
      → nested_index i incoming ≡ some v
      → Unrestored (some v) (nested_index i existing) (path ++ index i ∷ []) q
      → Unrestored incoming existing path q
  Unrestored-index {path} i v c u = record {
    below = index i ∷ u.below;
    path_eq = u.path_eq ∙ append_assoc path (index i ∷ []) u.below;
    is_mask = rw c u.is_mask;
    not_stored = u.not_stored;
  }

  refused_text :
      (s : Text) (existing : Option (Value N)) (path : List Step) {q : List Step}
      → walk (string s) existing path ≡ err q
      → Unrestored (some (string s)) existing path q
  unfolding walk
  refused_text s none path {q} h = elim (Bool-cases (text_eq s mask_text)) [
    | inl e ↦ record {
      below = [];
      path_eq = let h' : err path ≡ err q = rw e at h in rw append-nil (cc);
      is_mask = ap (λ t. some (string t)) ((text_eq_iff s mask_text).0 e);
      not_stored = refl;
    }
    | inr e ↦ cc (rw e at h)
  ]
  refused_text s (some v) path h = elim (Bool-cases (text_eq s mask_text)) [
    | inl e ↦ cc (rw e at h)
    | inr e ↦ cc (rw e at h)
  ]

  mutual
    unfolding walk

    refused :
        (m : Value N) (existing : Option (Value N)) (path : List Step) {q : List Step}
        → IsDistinct m
        → walk m existing path ≡ err q
        → Unrestored (some m) existing path q
    refused null existing path d h = cc
    refused (bool b) existing path d h = cc
    refused (number n) existing path d h = cc
    refused (string s) existing path d h = refused_text s existing path h
    refused (array vs) existing path d h =
        elim (>>=-eq-err (walk_items vs nil 0 existing path) (λ out. ok (array out)) h) [
          | inl e ↦ refused_items vs nil 0 vs existing path d (CoversItems-self vs) e
          | inr (out, _, e) ↦ cc
        ]
    refused (object fs) existing path d h =
        elim (>>=-eq-err (walk_fields fs end existing path) (λ out. ok (object out)) h) [
          | inl e ↦ refused_fields fs end fs existing path d (Covers-self fs (distinct_keys fs d)) e
          | inr (out, _, e) ↦ cc
        ]

    refused_items :
        (vs out : Items N) (i : ℕ) (whole : Items N) (existing : Option (Value N))
        (path : List Step) {q : List Step}
        → AllDistinct vs
        → CoversItems (some (array whole)) i vs
        → walk_items vs out i existing path ≡ err q
        → Unrestored (some (array whole)) existing path q
    refused_items nil out i whole existing path d c h = cc
    refused_items (cons v vs) out i whole existing path (d, ds) (c, cs) h =
        elim (>>=-eq-err (walk v (nested_index i existing) (path ++ index i ∷ []))
          (λ merged. walk_items vs (push out merged) (suc i) existing path) h) [
            | inl e ↦
                Unrestored-index i v c
                  (refused v (nested_index i existing) (path ++ index i ∷ []) d e)
            | inr (merged, _, e) ↦
                refused_items vs (push out merged) (suc i) whole existing path ds cs e
          ]

    refused_fields :
        (fs out whole : Fields N) (existing : Option (Value N)) (path : List Step) {q : List Step}
        → AreDistinct fs
        → Covers (some (object whole)) fs
        → walk_fields fs out existing path ≡ err q
        → Unrestored (some (object whole)) existing path q
    refused_fields end out whole existing path d c h = cc
    refused_fields (field k v fs) out whole existing path (_, d, ds) (c, cs) h =
        elim (>>=-eq-err (walk v (nested_key k existing) (path ++ key k ∷ []))
          (λ merged. walk_fields fs (insert k merged out) existing path) h) [
            | inl e ↦
                Unrestored-key k v c (refused v (nested_key k existing) (path ++ key k ∷ []) d e)
            | inr (merged, _, e) ↦
                refused_fields fs (insert k merged out) whole existing path ds cs e
          ]

  -- Where the incoming value repeats no key, the merge refuses only if this value holds the mask at
  -- a place where nothing is stored, and its error names that place.
  pub unmask_merge_refused :
      (incoming : Value N) (existing : Option (Value N)) (q : List Step)
      → IsDistinct incoming
      → unmask_merge incoming existing ≡ err q
      → (at q (some incoming) ≡ some (string mask_text)) × (at q existing ≡ none)
  unfolding unmask_merge
  unmask_merge_refused incoming existing q d h =
      let u = refused incoming existing [] d h in rw u.path_eq (u.is_mask, u.not_stored)
