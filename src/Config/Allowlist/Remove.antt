-- ===== src/Config/Allowlist/Remove.antt =====
-- Reads behind an insertion and a removal in a map without repeated keys.
use solx_core.Prelude.{
  none, some, if◌then◌else◌, Text, text_eq, text_eq_iff, text_eq_refl, ◌≡◌, refl, ap, inl, inr, ◌∙◌,
  arith, Bool-cases,
}
use solx_core.Json.{Value, Fields, end, field, lookup, insert}
use solx_core.Json.Laws.{DistinctKeys}
use solx_core.Config.Allowlist.{behind_first, last_first, remove}

module _ {N : Type 0} where
  pub lookup-insert :
      (j k : Text) (v : Value N) (fs : Fields N)
      → lookup j (insert k v fs) ≡ (if text_eq k j then some v else lookup j fs)
  unfolding lookup insert
  lookup-insert j k v end = refl
  lookup-insert j k v (field i w fs) =
      ground (arith, text_eq_iff i k, text_eq_iff i j, text_eq_iff k j, lookup-insert j k v fs)

  lookup-behind_first :
      (j k : Text) (v : Value N) (fs : Fields N)
      → lookup k fs ≡ none
      → lookup j (behind_first k v fs) ≡ lookup j (field k v fs)
  unfolding lookup
  lookup-behind_first j k v end h = refl
  lookup-behind_first j k v (field i w fs) h =
      ground (arith, h, text_eq_iff i k, text_eq_iff i j, text_eq_iff k j, text_eq_refl k)

  lookup-last_first :
      (j : Text) (fs : Fields N) → DistinctKeys fs → lookup j (last_first fs) ≡ lookup j fs
  unfolding lookup last_first
  lookup-last_first j end d = refl
  lookup-last_first j (field k v fs) (a, d) =
      lookup-behind_first j k v (last_first fs) (lookup-last_first k fs d ∙ a)
      ∙ ap (λ o. if text_eq k j then some v else o) (lookup-last_first j fs d)

  pub lookup-remove :
      (j k : Text) (fs : Fields N)
      → DistinctKeys fs
      → lookup j (remove k fs) ≡ (if text_eq k j then none else lookup j fs)
  unfolding lookup remove
  lookup-remove j k end d = ground arith
  lookup-remove j k (field i v fs) (a, d) = elim (Bool-cases (text_eq i k)) [
    | inl e ↦ rw e (
        lookup-last_first j fs d
        ∙ ground (arith, a, e, text_eq_iff i k, text_eq_iff i j, text_eq_iff k j))
    | inr e ↦
        rw (e, lookup-remove j k fs d)
          (ground (arith, e, text_eq_iff i k, text_eq_iff i j, text_eq_iff k j))
  ]

  -- Neither does a removal repeat a key.
  DistinctKeys-behind_first :
      (k : Text) (v : Value N) (fs : Fields N)
      → lookup k fs ≡ none
      → DistinctKeys fs
      → DistinctKeys (behind_first k v fs)
  unfolding lookup
  DistinctKeys-behind_first k v end h d = (refl, tt)
  DistinctKeys-behind_first k v (field i w fs) h (a, d) =
      (ground (arith, text_eq_iff i k, text_eq_iff k i), (ground arith, d))

  DistinctKeys-last_first : (fs : Fields N) → DistinctKeys fs → DistinctKeys (last_first fs)
  unfolding last_first
  DistinctKeys-last_first end d = tt
  DistinctKeys-last_first (field k v fs) (a, d) =
      DistinctKeys-behind_first k v (last_first fs) (lookup-last_first k fs d ∙ a)
        (DistinctKeys-last_first fs d)

  pub DistinctKeys-remove :
      (k : Text) (fs : Fields N) → DistinctKeys fs → DistinctKeys (remove k fs)
  unfolding remove
  DistinctKeys-remove k end d = tt
  DistinctKeys-remove k (field j v fs) (a, d) = elim (Bool-cases (text_eq j k)) [
    | inl e ↦ rw e (DistinctKeys-last_first fs d)
    | inr e ↦ rw e (lookup-remove j k fs d ∙ rw a (ground arith), DistinctKeys-remove k fs d)
  ]
