-- ===== src/Scripts/Lexer.antt =====
-- solx-scripts/src/expr.rs: the lexer. A token gives with it the number of characters that it takes
-- behind its first one; they are passed over when they are reached, so no fuel is used.
pub mod Strings
pub mod Numbers
use solx_core.Prelude.{
  ℕ, zero, suc, ◌+◌, Bool, true, false, not, ◌&&◌, ◌||◌, Option, none, some, List, [], ◌∷◌, ◌++◌,
  if◌then◌else◌, is_empty, length, drop, ◌==◌, Text, codes, text_eq, Result, ok, err, ◌>>=◌,
}
use solx_core.Surface.Error.{SolxError, invalid, Fallible}
use solx_core.Surface.Path.{is_whitespace}
use solx_core.Scripts.Platform.{Platform}
use solx_core.Scripts.Syntax.{
  CompareOp, eq, ne, lt, le, gt, ge, contains, Token, lparen, rparen, and_token, or_token,
  not_token, op, var_token, str, template_token, num, lbrace, rbrace, lbracket, rbracket, comma,
  colon, bool_token, null_token, Expr,
}
use solx_core.Scripts.Values.{digit}
use solx_core.Scripts.Quotes.{peek_is, two_quotes}
use solx_core.Scripts.Stage.{is_word_char, take_name}
use solx_core.Scripts.Parser.{Stop, parse_tokens}
use solx_core.Scripts.Lexer.Strings.{single_body, triple_body, double_body}
use solx_core.Scripts.Lexer.Numbers.{is_digit, peek_digit, number_text, number_value}

module _ (P : Platform) where
  open P use {Number, is_alphabetic}

  -- The tokens that a character starts, and how many characters it takes with it.
  abbrev pub Lexed : Type 0
  Lexed = Fallible (List (Token Number) × ℕ)

  abbrev one : Token Number → ℕ → Lexed
  one t n = ok (t ∷ [], n)

  -- `expect_char` behind the first of two equal characters.
  abbrev expect_char : ℕ → Token Number → Text → Lexed
  expect_char c t s = if peek_is c s then one t 1 else err invalid

  -- The operator that an equals sign makes longer.
  abbrev or_equal : Token Number → Token Number → Text → Lexed
  or_equal long short s = if peek_is b'=' s then one long 1 else one short 0

  abbrev lex_single : Text → Lexed
  lex_single s =
      if two_quotes s
      then (do (t, n) ← triple_body (drop 2 s); one (str t) (2 + n))
      else (do (t, n) ← single_body false s; one (str t) n)

  abbrev lex_var : Text → Lexed
  lex_var s =
      let name = take_name P s in
      if is_empty name then err invalid else one (var_token name) (length name)

  unfoldable pub take_word : Text → Text
  take_word [] = []
  take_word (c ∷ s) = let rest = take_word s in if is_word_char P c then c ∷ rest else []

  abbrev word_token : Text → Fallible (Token Number)
  word_token w =
      if text_eq w (codes "true")
      then ok (bool_token true)
      else if text_eq w (codes "false")
      then ok (bool_token false)
      else if text_eq w (codes "null")
      then ok null_token
      else if text_eq w (codes "contains")
      then ok (op contains)
      else err invalid

  abbrev lex_word : ℕ → Text → Lexed
  lex_word c s = do t ← word_token (c ∷ take_word s); one t (length (take_word s))

  abbrev lex_number : ℕ → Text → Lexed
  lex_number c s = do
    n ← number_value P (c ∷ number_text false false s)
    one (num n) (length (number_text false false s))

  abbrev lex_other : ℕ → Text → Lexed
  lex_other c s =
      if is_digit c || (c == b'-' && peek_digit s)
      then lex_number c s
      else if is_alphabetic c || c == b'_'
      then lex_word c s
      else err invalid

  abbrev lex_quote : ℕ → Text → Lexed
  lex_quote c s =
      if c == b'\''
      then lex_single s
      else if c == b'"'
      then (do (parts, n) ← double_body P 0 false [] s; one (template_token parts) n)
      else if c == b'$'
      then lex_var s
      else lex_other c s

  abbrev lex_operator : ℕ → Text → Lexed
  lex_operator c s =
      if c == b'&'
      then expect_char b'&' and_token s
      else if c == b'|'
      then expect_char b'|' or_token s
      else if c == b'!'
      then or_equal (op ne) not_token s
      else if c == b'='
      then expect_char b'=' (op eq) s
      else if c == b'<'
      then or_equal (op le) (op lt) s
      else if c == b'>'
      then or_equal (op ge) (op gt) s
      else lex_quote c s

  abbrev lex_bracket : ℕ → Text → Lexed
  lex_bracket c s =
      if c == b'('
      then one lparen 0
      else if c == b')'
      then one rparen 0
      else if c == b'{'
      then one lbrace 0
      else if c == b'}'
      then one rbrace 0
      else if c == b'['
      then one lbracket 0
      else if c == b']'
      then one rbracket 0
      else if c == b','
      then one comma 0
      else if c == b':'
      then one colon 0
      else lex_operator c s

  unfoldable pub lex_char : ℕ → Text → Lexed
  lex_char c s = if is_whitespace c then ok ([], 0) else lex_bracket c s

  abbrev lex_step : ℕ → ℕ → Text → Lexed
  lex_step (suc n) c s = ok ([], n)
  lex_step zero c s = lex_char c s

  unfoldable pub lex_from : ℕ → Text → Fallible (List (Token Number))
  lex_from n [] = ok []
  lex_from n (c ∷ s) = do (ts, n') ← lex_step n c s; rest ← lex_from n' s; ok (ts ++ rest)

  unfoldable pub lex : Text → Fallible (List (Token Number))
  lex src = lex_from 0 src

  abbrev pub of_parser : Result (Expr Number) Stop → Fallible (Expr Number)
  of_parser (ok e) = ok e
  of_parser (err stop) = err invalid

  unfoldable pub parse_expr : Text → Fallible (Expr Number)
  parse_expr src = do tokens ← lex src; of_parser (parse_tokens tokens)
