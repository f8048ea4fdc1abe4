-- ===== src/Scripts/Lexer/Strings.antt =====
-- solx-scripts/src/expr.rs: the string literals. Each function gives the number of characters that it
-- takes, the closing quotes with them.
use solx_core.Prelude.{
  ℕ, zero, suc, ◌+◌, ◌*◌, ◌-◌, Bool, true, false, not, ◌&&◌, ◌||◌, Option, none, some, List, [],
  ◌∷◌, ◌++◌, if◌then◌else◌, is_empty, take, drop, length, ltb, leb, ◌==◌, Text, ok, err, ◌>>=◌,
}
use Prim.Native.Nat.{◌%◌}
use solx_core.Surface.Error.{invalid, Fallible}
use solx_core.Scripts.Platform.{Platform}
use solx_core.Scripts.Syntax.{TemplatePart, text, ref}
use solx_core.Scripts.Values.{strip_plus}
use solx_core.Scripts.Quotes.{peek_is, two_quotes}
use solx_core.Scripts.Stage.{is_name_char}

abbrev pub longer : Text → Fallible (Text × ℕ) → Fallible (Text × ℕ)
longer out (err e) = err e
longer out (ok (s, n)) = ok (out ++ s, suc n)

unfoldable pub triple_body : Text → Fallible (Text × ℕ)
triple_body [] = err invalid
triple_body (c ∷ s) =
    let rest = longer (c ∷ []) (triple_body s) in
    if c == b'\'' && two_quotes s then ok ([], 3) else rest

-- The flag says that the character is the quote of a pair `\'`.
unfoldable pub single_body : Bool → Text → Fallible (Text × ℕ)
single_body escaped [] = err invalid
single_body escaped (c ∷ s) =
    let pair = not escaped && c == b'\\' && peek_is b'\'' s in
    let rest = longer (if pair then [] else c ∷ []) (single_body pair s) in
    if not escaped && c == b'\'' then ok ([], 1) else rest

-- `u32::from_str_radix` of at most four characters, with base 16.
abbrev hex_digit : ℕ → Option ℕ
hex_digit c =
    if leb 48 c && leb c 57
    then some (c - 48)
    else if leb 65 c && leb c 70
    then some (c - 55)
    else if leb 97 c && leb c 102
    then some (c - 87)
    else none

unfoldable pub hex_digits : ℕ → Text → Option ℕ
hex_digits n [] = some n
hex_digits n (c ∷ s) = elim (hex_digit c) [ none ↦ none | some d ↦ hex_digits (16 * n + d) s ]

abbrev pub number_or_invalid : Option ℕ → Fallible ℕ
number_or_invalid none = err invalid
number_or_invalid (some n) = ok n

unfoldable pub hex4 : Text → Fallible ℕ
hex4 s =
    let t = strip_plus (take 4 s) in
    if is_empty t then err invalid else number_or_invalid (hex_digits 0 t)

abbrev pub is_high_surrogate : ℕ → Bool
is_high_surrogate code = leb 55296 code && ltb code 56320

-- `char::from_u32`.
abbrev pub from_u32 : ℕ → Fallible ℕ
from_u32 n = if ltb n 55296 || (ltb 57343 n && ltb n 1114112) then ok n else err invalid

-- The code point of a pair; the subtraction wraps around at 32 bits.
abbrev pub surrogate_pair : ℕ → ℕ → ℕ
surrogate_pair high low =
    65536 + (high - 55296) * 1024 + (low + 4294967296 - 56320) % 4294967296 % 1024

abbrev low_surrogate : ℕ → Text → Fallible (Text × ℕ)
low_surrogate high (b ∷ u ∷ s) =
    if b == b'\\' && u == b'u'
    then (do
      low ← hex4 s
      c ← from_u32 (surrogate_pair high low)
      ok (c ∷ [], 7 + length (take 4 s)))
    else err invalid
low_surrogate high s = err invalid

abbrev unicode_escape : Text → Fallible (Text × ℕ)
unicode_escape s = do
  code ← hex4 s
  if is_high_surrogate code
      then low_surrogate code (drop 4 s)
      else (do c ← from_u32 code; ok (c ∷ [], 1 + length (take 4 s)))

-- `lex_json_escape`, behind the backslash.
unfoldable pub lex_json_escape : Text → Fallible (Text × ℕ)
lex_json_escape [] = ok (b'\\' ∷ [], 0)
lex_json_escape (c ∷ s) =
    if c == b'"' || c == b'\\' || c == b'/'
    then ok (c ∷ [], 1)
    else if c == b'b'
    then ok (8 ∷ [], 1)
    else if c == b'f'
    then ok (12 ∷ [], 1)
    else if c == b'n'
    then ok (10 ∷ [], 1)
    else if c == b'r'
    then ok (13 ∷ [], 1)
    else if c == b't'
    then ok (9 ∷ [], 1)
    else if c == b'u'
    then unicode_escape s
    else ok (b'\\' ∷ c ∷ [], 1)

abbrev pub ends_with_dot : Text → Bool
ends_with_dot [] = false
ends_with_dot (c ∷ []) = c == b'.'
ends_with_dot (c ∷ d ∷ s) = ends_with_dot (d ∷ s)

-- What a character of a double-quoted string does: it ends it, fails, or goes on with parts, the
-- text behind them, the flag that there are parts, and so many characters to pass over.
pub data StringPiece : Type 0 where
  stop : StringPiece
  fail : StringPiece
  go : List TemplatePart → Text → Bool → ℕ → StringPiece

abbrev name_from : ℕ → Option Text → Option Text
name_from c none = none
name_from c (some name) = some (c ∷ name)

module _ (P : Platform) where
  unfoldable pub braced_name : Text → Option Text
  braced_name [] = none
  braced_name (c ∷ s) =
      let rest = name_from c (braced_name s) in
      if c == b'}' then some [] else if is_name_char P c then rest else none

  abbrev valid_name : Text → Option (Text × ℕ)
  valid_name name =
      if is_empty name || peek_is b'.' name || ends_with_dot name
      then none
      else some (name, length name + 2)

  unfoldable pub lex_braced_ref : Text → Option (Text × ℕ)
  lex_braced_ref [] = none
  lex_braced_ref (brace ∷ s) = elim (braced_name s) [ none ↦ none | some name ↦ valid_name name ]

  abbrev text_part : Text → List TemplatePart
  text_part [] = []
  text_part (c ∷ s) = text (c ∷ s) ∷ []

  abbrev escape_piece : Text → Bool → Fallible (Text × ℕ) → StringPiece
  escape_piece cur any (err e) = fail
  escape_piece cur any (ok (out, n)) = go [] (cur ++ out) any n

  abbrev ref_piece : Text → Bool → Option (Text × ℕ) → StringPiece
  ref_piece cur any none = go [] (cur ++ b'$' ∷ []) any 0
  ref_piece cur any (some (name, n)) = go (text_part cur ++ ref name ∷ []) [] true n

  unfoldable pub piece : Bool → Text → ℕ → Text → StringPiece
  piece any cur c s =
      if c == b'\\' && peek_is b'$' s
      then go [] (cur ++ b'$' ∷ []) any 1
      else if c == b'\\'
      then escape_piece cur any (lex_json_escape s)
      else if c == b'$' && peek_is b'{' s
      then ref_piece cur any (lex_braced_ref s)
      else if c == b'"'
      then stop
      else go [] (cur ++ c ∷ []) any 0

  abbrev piece_at : ℕ → Bool → Text → ℕ → Text → StringPiece
  piece_at (suc n) any cur c s = go [] cur any n
  piece_at zero any cur c s = piece any cur c s

  abbrev last_part : Bool → Text → List TemplatePart
  last_part any cur = if not (is_empty cur) || not any then text cur ∷ [] else []

  unfoldable pub double_body : ℕ → Bool → Text → Text → Fallible (List TemplatePart × ℕ)
  double_body n any cur [] = err invalid
  double_body n any cur (c ∷ s) = elim (piece_at n any cur c s) [
    | stop ↦ ok (last_part any cur, 1)
    | fail ↦ err invalid
    | go parts cur' any' n' ↦ do (rest, k) ← double_body n' any' cur' s; ok (parts ++ rest, suc k)
  ]
