-- ===== src/Json.antt =====
-- serde_json's `Value`, with its `Map` in insertion order (feature `preserve_order`). The type of
-- numbers is a parameter: this layer only moves them.
pub mod Laws
use solx_core.Prelude.{
  ℕ, zero, suc, Bool, true, false, Option, none, some, ◌≡◌, if◌then◌else◌, Text, text_eq,
}

mutual
  pub data Value (N : Type 0) : Type 0 where
    null : Value N
    bool : Bool → Value N
    number : N → Value N
    string : Text → Value N
    array : Items N → Value N
    object : Fields N → Value N

  pub data Items (N : Type 0) : Type 0 where
    nil : Items N
    cons : Value N → Items N → Items N

  pub data Fields (N : Type 0) : Type 0 where
    end : Fields N
    field : Text → Value N → Fields N → Fields N

module _ {N : Type 0} where
  -- `Map::get`.
  unfoldable pub lookup : Text → Fields N → Option (Value N)
  lookup k end = none
  lookup k (field j v fs) = if text_eq j k then some v else lookup k fs

  -- `Map::insert`: in place for a key that is there, else at the end.
  unfoldable pub insert : Text → Value N → Fields N → Fields N
  insert k v end = field k v end
  insert k v (field j w fs) = if text_eq j k then field j v fs else field j w (insert k v fs)

  -- A write through `Map::get_mut`.
  unfoldable pub modify : Text → (Value N → Value N) → Fields N → Fields N
  modify k f end = end
  modify k f (field j v fs) = if text_eq j k then field j (f v) fs else field j v (modify k f fs)

  unfoldable pub nth : ℕ → Items N → Option (Value N)
  nth i nil = none
  nth zero (cons v vs) = some v
  nth (suc i) (cons v vs) = nth i vs

  -- `Vec::push`.
  unfoldable pub push : Items N → Value N → Items N
  push nil v = cons v nil
  push (cons w ws) v = cons w (push ws v)

  -- `Value::get` with a key and with an index.
  unfoldable pub get_key : Text → Value N → Option (Value N)
  unfolding lookup
  get_key k (object fs) = lookup k fs
  get_key k _ = none

  unfoldable pub get_index : ℕ → Value N → Option (Value N)
  unfolding nth
  get_index i (array vs) = nth i vs
  get_index i _ = none

  -- No key stands twice in a `Map`, at any depth.
  abbrev mutual
    pub IsDistinct : Value N → Type 0
    IsDistinct (array vs) = AllDistinct vs
    IsDistinct (object fs) = AreDistinct fs
    IsDistinct _ = Unit

    pub AllDistinct : Items N → Type 0
    AllDistinct nil = Unit
    AllDistinct (cons v vs) = IsDistinct v × AllDistinct vs

    pub AreDistinct : Fields N → Type 0
    AreDistinct end = Unit
    AreDistinct (field k v fs) = (lookup k fs ≡ none) × IsDistinct v × AreDistinct fs
