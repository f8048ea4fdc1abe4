-- ===== src/Scripts/Block/Keywords.antt =====
-- solx-scripts/src/block.rs: the keyword that a statement starts with.
use solx_core.Prelude.{
  ℕ, ℤ, Bool, not, ◌&&◌, ◌||◌, Option, none, some, [], ◌∷◌, if◌then◌else◌, is_empty, ◌==◌, Text,
  codes, text_eq, ok, err, ◌>>=◌,
}
use solx_core.Surface.Error.{invalid, Fallible}
use solx_core.Surface.Path.{is_whitespace, trim, trim_start}
use solx_core.Scripts.Platform.{Platform}
use solx_core.Scripts.Syntax.{Expr}
use solx_core.Scripts.Stage.{all_word_chars}
use solx_core.Scripts.Lexer.{parse_expr}
use solx_core.Scripts.Lexer.Numbers.{parse_i64}
use solx_core.Scripts.Interp.Program.{ForSource, from_pipeline, range}

pub data Keyword (N : Type 0) : Type 0 where
  kw_if : Expr N → Keyword N
  kw_else_if : Expr N → Keyword N
  kw_else : Keyword N
  kw_end_if : Keyword N
  kw_for : Text → ForSource → Keyword N
  kw_end_for : Keyword N
  kw_wait : Text → Keyword N
  kw_plain : Text → Keyword N

-- A text up to its first white space, and from there on.
abbrev cons_word : ℕ → Text × Text → Text × Text
cons_word c (word, rest) = (c ∷ word, rest)

unfoldable pub split_word : Text → Text × Text
split_word [] = ([], [])
split_word (c ∷ s) =
    let rest = cons_word c (split_word s) in if is_whitespace c then ([], c ∷ s) else rest

unfoldable pub split_first_word : Text → Text × Text
split_first_word s = split_word (trim_start s)

-- `split_once` at "..".
abbrev pub cons_before : ℕ → Option (Text × Text) → Option (Text × Text)
cons_before c none = none
cons_before c (some (before, after)) = some (c ∷ before, after)

unfoldable pub split_dots : Text → Option (Text × Text)
split_dots [] = none
split_dots (c ∷ []) = none
split_dots (c ∷ d ∷ s) =
    let later = cons_before c (split_dots (d ∷ s)) in
    if c == b'.' && d == b'.' then some ([], s) else later

abbrev both : Option ℤ → Option ℤ → Option (ℤ × ℤ)
both (some a) (some b) = some (a, b)
both _ _ = none

unfoldable pub try_parse_range : Text → Option (ℤ × ℤ)
try_parse_range s = elim (split_dots s) [
  | none ↦ none
  | some sides ↦ both (parse_i64 (trim sides.0)) (parse_i64 (trim sides.1))
]

unfoldable pub is_else_if : Text → Bool
is_else_if stmt =
    let (word, rest) = split_first_word stmt in
    text_eq word (codes "else") && text_eq ((split_first_word rest).0) (codes "if")

module _ (P : Platform) where
  open P use {Number}

  abbrev require_empty : Text → Keyword Number → Fallible (Keyword Number)
  require_empty rest kw = if is_empty (trim rest) then ok kw else err invalid

  abbrev source_of : Text → ForSource
  source_of src = elim (try_parse_range src) [
    | none ↦ from_pipeline src
    | some ends ↦ range ends.0 ends.1
  ]

  abbrev for_source : Text → Text × Text → Fallible (Keyword Number)
  for_source item (in_word, src) =
      if not (text_eq in_word (codes "in"))
      then err invalid
      else if is_empty (trim src)
      then err invalid
      else ok (kw_for item (source_of (trim src)))

  abbrev for_item : Text × Text → Fallible (Keyword Number)
  for_item (item, after) =
      if is_empty item || not (all_word_chars P item)
      then err invalid
      else for_source item (split_first_word (trim after))

  abbrev after_dollar : Text → Fallible (Keyword Number)
  after_dollar [] = err invalid
  after_dollar (c ∷ s) = if c == b'$' then for_item (split_first_word s) else err invalid

  unfoldable pub parse_for_header : Text → Fallible (Keyword Number)
  parse_for_header rest = after_dollar (trim rest)

  abbrev else_keyword : Text → Text → Fallible (Keyword Number)
  else_keyword stmt rest =
      if is_else_if stmt
      then (do e ← parse_expr P ((split_first_word rest).1); ok (kw_else_if e))
      else require_empty rest kw_else

  abbrev wait_keyword : Text → Fallible (Keyword Number)
  wait_keyword amount = if is_empty amount then err invalid else ok (kw_wait amount)

  abbrev keyword_of : Text → Text → Text → Fallible (Keyword Number)
  keyword_of stmt word rest =
      if text_eq word (codes "if")
      then (do e ← parse_expr P rest; ok (kw_if e))
      else if text_eq word (codes "elseif")
      then (do e ← parse_expr P rest; ok (kw_else_if e))
      else if text_eq word (codes "else")
      then else_keyword stmt rest
      else if text_eq word (codes "endif")
      then require_empty rest kw_end_if
      else if text_eq word (codes "endfor")
      then require_empty rest kw_end_for
      else if text_eq word (codes "for")
      then parse_for_header rest
      else if text_eq word (codes "then")
      then err invalid
      else if text_eq word (codes "wait")
      then wait_keyword (trim rest)
      else ok (kw_plain stmt)

  unfoldable pub classify : Text → Fallible (Keyword Number)
  classify stmt = let (word, rest) = split_first_word stmt in keyword_of stmt word rest
