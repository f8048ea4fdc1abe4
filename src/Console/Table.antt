-- ===== src/Console/Table.antt =====
-- The SQL statements on a table, which is the list of its rows in the order of insertion.
use solx_core.Prelude.{Bool, List, [], ◌∷◌, if◌then◌else◌}

module _ {ℓ} {A : Type ℓ} where
  -- `UPDATE … SET … WHERE …`.
  unfoldable pub update : (A → Bool) → (A → A) → List A → List A
  update here set [] = []
  update here set (r ∷ t) = (if here r then set r else r) ∷ update here set t

  -- `DELETE … WHERE …`.
  unfoldable pub delete : (A → Bool) → List A → List A
  delete here [] = []
  delete here (r ∷ t) = let rest = delete here t in if here r then rest else r ∷ rest

  -- `SELECT … WHERE …`.
  unfoldable pub select : (A → Bool) → List A → List A
  select here [] = []
  select here (r ∷ t) = let rest = select here t in if here r then r ∷ rest else rest
