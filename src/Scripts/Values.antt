-- ===== src/Scripts/Values.antt =====
-- solx-scripts/src/lib.rs and expr.rs: variables and their paths, the text of a value in a command,
-- and the tests that expressions apply to values.
use solx_core.Prelude.{
  ℕ, ◌+◌, ◌*◌, ◌-◌, Bool, true, false, not, ◌&&◌, ◌||◌, Option, none, some, List, [], ◌∷◌,
  if◌then◌else◌, is_empty, is_some, ltb, leb, ◌==◌, Text, codes,
}
use solx_core.Json.{
  Value, Items, null, bool, number, string, array, object, nil, cons, end, field, lookup, nth,
}
use solx_core.Surface.Path.{split}
use solx_core.Actions.Net.{find_text}
use solx_core.Scripts.Platform.{Platform}

-- `parse::<usize>`: decimal digits behind at most one plus sign, below 2 ^ 64.
abbrev pub digit : ℕ → Option ℕ
digit c = if leb 48 c && leb c 57 then some (c - 48) else none

unfoldable pub digits : ℕ → Text → Option ℕ
digits n [] = some n
digits n (c ∷ s) = elim (digit c) [ none ↦ none | some d ↦ digits (10 * n + d) s ]

abbrev pub strip_plus : Text → Text
strip_plus [] = []
strip_plus (c ∷ s) = if c == b'+' then s else c ∷ s

abbrev pub below_limit : Option ℕ → Option ℕ
below_limit none = none
below_limit (some n) = if ltb n 18446744073709551616 then some n else none

unfoldable pub parse_usize : Text → Option ℕ
unfolding digits
parse_usize s = let t = strip_plus s in if is_empty t then none else below_limit (digits 0 t)

-- `find` of a character, as the texts on its two sides.
abbrev pub cons_side : ℕ → Option (Text × Text) → Option (Text × Text)
cons_side c none = none
cons_side c (some (before, after)) = some (c ∷ before, after)

unfoldable pub split_at_char : ℕ → Text → Option (Text × Text)
split_at_char sep [] = none
split_at_char sep (c ∷ s) =
    let rest = cons_side c (split_at_char sep s) in if c == sep then some ([], s) else rest

-- The variable of a dotted reference, and the path behind it.
abbrev pub var_path : Text → Text × Option Text
var_path name = elim (split_at_char b'.' name) [
  | none ↦ (name, none)
  | some sides ↦ (sides.0, some sides.1)
]

module _ (P : Platform) where
  open P use {Number, Float, as_f64, f64_eq, f64_zero, to_json, value_eq}

  -- The variables, `HashMap<String, Value>`, as the function `get`.
  abbrev pub Ctx : Type 0
  Ctx = Text → Option (Value Number)

  abbrev pub or_null : Option (Value Number) → Value Number
  or_null none = null
  or_null (some v) = v

  abbrev pub child : Text → Value Number → Value Number
  child key (object fs) = or_null (lookup key fs)
  child key (array vs) = elim (parse_usize key) [ none ↦ null | some i ↦ or_null (nth i vs) ]
  child key _ = null

  unfoldable pub walk_path : List Text → Value Number → Value Number
  walk_path [] v = v
  walk_path (key ∷ keys) v = walk_path keys (child key v)

  unfoldable pub navigate_json_path : Value Number → Text → Value Number
  unfolding walk_path
  navigate_json_path v path = walk_path (split b'.' path) v

  unfoldable pub value_to_arg_string : Value Number → Text
  value_to_arg_string (string s) = s
  value_to_arg_string null = codes "null"
  value_to_arg_string v = to_json v

  abbrev pub at_path : Option (Value Number) → Option Text → Value Number
  at_path none path = null
  at_path (some v) none = v
  at_path (some v) (some path) = navigate_json_path v path

  unfoldable pub resolve_var : Text → Ctx → Value Number
  resolve_var name ctx =
      let (var_name, field_path) = var_path name in at_path (ctx var_name) field_path

  abbrev pub nonzero : Option Float → Bool
  nonzero none = false
  nonzero (some f) = not (f64_eq f f64_zero)

  unfoldable pub is_truthy : Value Number → Bool
  is_truthy null = false
  is_truthy (bool b) = b
  is_truthy (number n) = nonzero (as_f64 n)
  is_truthy (string []) = false
  is_truthy (string (c ∷ s)) = true
  is_truthy (array nil) = false
  is_truthy (array (cons v vs)) = true
  is_truthy (object end) = false
  is_truthy (object (field k v fs)) = true

  -- `==` of two `Option<f64>`.
  abbrev pub floats_eq : Option Float → Option Float → Bool
  floats_eq none none = true
  floats_eq (some x) (some y) = f64_eq x y
  floats_eq _ _ = false

  unfoldable pub values_eq : Value Number → Value Number → Bool
  values_eq (number x) (number y) = floats_eq (as_f64 x) (as_f64 y)
  values_eq a b = value_eq a b

  unfoldable pub any_eq : Items Number → Value Number → Bool
  any_eq nil v = false
  any_eq (cons w ws) v = values_eq w v || any_eq ws v

  unfoldable pub value_contains : Value Number → Value Number → Bool
  unfolding any_eq
  value_contains (string s) (string n) = is_some (find_text n s)
  value_contains (array vs) v = any_eq vs v
  value_contains (object fs) (string key) = is_some (lookup key fs)
  value_contains _ _ = false
