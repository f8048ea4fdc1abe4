-- ===== src/Scripts/Lexer/Numbers.antt =====
-- solx-scripts/src/expr.rs: the number literals, as integers of 64 bits or else as floats.
use solx_core.Prelude.{
  ℕ, zero, suc, ℤ, pos, negsuc, Bool, false, not, ◌&&◌, ◌||◌, Option, none, some, [], ◌∷◌,
  if◌then◌else◌, is_empty, ltb, leb, ◌==◌, Text, ok, err,
}
use solx_core.Surface.Error.{invalid, Fallible}
use solx_core.Scripts.Platform.{Platform}
use solx_core.Scripts.Values.{digits, strip_plus}

abbrev pub is_digit : ℕ → Bool
is_digit c = leb 48 c && leb c 57

abbrev pub peek_digit : Text → Bool
peek_digit [] = false
peek_digit (c ∷ s) = is_digit c

abbrev pub is_e : ℕ → Bool
is_e c = c == b'e' || c == b'E'

-- The characters of a number behind its first: whether an exponent has begun, and just begun.
unfoldable pub number_text : Bool → Bool → Text → Text
number_text exponent begun [] = []
number_text exponent begun (c ∷ s) =
    let starts = is_e c && not exponent in
    let rest = number_text (exponent || starts) starts s in
    if is_digit c || c == b'.' || starts || (begun && (c == b'+' || c == b'-'))
    then c ∷ rest
    else []

abbrev positive : Option ℕ → Option ℤ
positive none = none
positive (some n) = if ltb n 9223372036854775808 then some (pos n) else none

abbrev negative : Option ℕ → Option ℤ
negative none = none
negative (some zero) = some (pos 0)
negative (some (suc n)) = if ltb n 9223372036854775808 then some (negsuc n) else none

abbrev natural : Text → Option ℕ
natural s = if is_empty s then none else digits 0 s

-- `parse::<i64>`.
unfoldable pub parse_i64 : Text → Option ℤ
parse_i64 [] = none
parse_i64 (c ∷ s) =
    if c == b'-' then negative (natural s) else positive (natural (strip_plus (c ∷ s)))

module _ (P : Platform) where
  open P use {Number, Float, parse_f64, from_f64, from_i64}

  abbrev of_float : Option Float → Option Number
  of_float none = none
  of_float (some f) = from_f64 f

  abbrev found : Option Number → Fallible Number
  found none = err invalid
  found (some n) = ok n

  -- The value of a numeric literal.
  unfoldable pub number_value : Text → Fallible Number
  number_value s = elim (parse_i64 s) [
    | some i ↦ ok (from_i64 i)
    | none ↦ found (of_float (parse_f64 s))
  ]
