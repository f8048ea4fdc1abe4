-- ===== src/Scripts/Tests.antt =====
-- A platform with whole numbers and a runner that records its commands, for the runs of the scripts.
mod Expressions
mod Programs
use solx_core.Prelude.{
  ℕ, suc, ◌+◌, ℤ, pos, negsuc, min, Bool, true, false, ◌&&◌, ◌||◌, none, some, List, [], ◌∷◌, ◌++◌,
  if◌then◌else◌, ltb, leb, ◌==◌, Text, codes, text_eq, ok, err, ◌≡◌, ◌≢◌, refl,
}
use solx_core.Json.{Value, null, bool, number, string}
use solx_core.Surface.Path.{is_whitespace, trim, trim_start, trim_end}
use solx_core.Scripts.Platform.{Platform}
use solx_core.Scripts.Syntax.{
  eq, lt, text, ref, Expr, literal, var, template, array_of, not_, and_, or_, compare, no_items,
  item, lparen, not_token, var_token,
}
use solx_core.Scripts.Parser.{out_of_fuel, parse_tokens, parse_or, template_expr}
use solx_core.Scripts.Parser.Printer.{emit}
use solx_core.Scripts.Parser.Total.{parse_tokens-ne-out_of_fuel}
use solx_core.Scripts.Parser.RoundTrip.Whole.{parse_tokens-emit}
use solx_core.Scripts.Values.{
  is_truthy, digits, Ctx, split_at_char, value_to_arg_string, resolve_var,
}
use solx_core.Scripts.Eval.{as_number, eval_compare, eval_expr}
use solx_core.Scripts.Eval.Defined.{eval_expr-ne-err}
use solx_core.Scripts.Quotes.{
  strip_comments, strip_from, strip_step, quote_move, two_quotes, split_respecting_quotes,
  split_respecting_quotes_by, split_from,
}
use solx_core.Scripts.Quotes.Comments.{strip_comments-strip_comments}
use solx_core.Scripts.Quotes.Split.{MakeUp, split_respecting_quotes-MakeUp}
use solx_core.Scripts.Stage.{
  text_arg, literal_arg, tokenize_stage_args, tokenize_from, stage_step, text_step, bracket_char,
  substitute_vars_in_token, subst_from, subst_step, take_name, trim_dots, has_char, all_word_chars,
  parse_assignment,
}
use solx_core.Scripts.Stage.Words.{spaced, text_args, tokenize_stage_args-spaced}
use solx_core.Scripts.Stage.Assign.{parse_assignment-name}
use solx_core.Scripts.Lexer.{parse_expr, lex, lex_from, lex_char, take_word}
use solx_core.Scripts.Lexer.Strings.{
  single_body, triple_body, double_body, piece, lex_json_escape, hex4, hex_digits, lex_braced_ref,
  braced_name,
}
use solx_core.Scripts.Lexer.Numbers.{number_text, number_value, parse_i64}
use solx_core.Scripts.Block.Keywords.{
  split_first_word, split_word, is_else_if, split_dots, try_parse_range, parse_for_header, classify,
}
use solx_core.Scripts.Block.{
  is_value_expr, plain_statement, expect_keyword, parse_block, parse_statements,
}
use solx_core.Scripts.Program.{
  push_all, execute_script, execute_script_with_vars, push_statements, push_loop, join, drop_empty,
  find_then, split_at_then, parse_program,
}
use solx_core.Scripts.Program.Total.{parse_program-ne-out_of_fuel}
use solx_core.Scripts.Interp.{
  execute_pipeline, stage_tokens, run_stages, Runner, Machine, exec_block, exec_for, source_items,
  each, int_items, restore,
}
use solx_core.Scripts.Interp.Program.{range, value, for_, Block, set_var, remove_var, done, next}
use solx_core.Scripts.Interp.Frame.{exec_block-ctx}

abbrev pub is_letter : ℕ → Bool
is_letter c = (leb 97 c && leb c 122) || (leb 65 c && leb c 90)

abbrev pub whole_number : ℤ → ℕ
whole_number (pos n) = n
whole_number (negsuc n) = 0

abbrev pub values_same : Value ℕ → Value ℕ → Bool
values_same null null = true
values_same (bool a) (bool b) = if a then b else (if b then false else true)
values_same _ _ = false

abbrev pub shown : Value ℕ → Text
shown (number n) = (48 + n) ∷ []
shown v = codes "json"

abbrev pub small : Platform
small = record {
  Number = ℕ;
  Float = ℕ;
  as_f64 = some;
  f64_eq = λ a b. a == b;
  f64_lt = ltb;
  f64_le = leb;
  f64_min = min;
  f64_zero = 0;
  max_wait_secs = 300;
  parse_f64 = digits 0;
  from_f64 = some;
  from_i64 = whole_number;
  value_eq = values_same;
  to_json = shown;
  is_alphabetic = is_letter;
  is_alphanumeric = λ c. is_letter c || (leb 48 c && leb c 57);
}

-- A runner that records the commands, and whose result is their number.
abbrev pub counts : List (List Text) → ℕ
counts [] = 0
counts (c ∷ cs) = suc (counts cs)

abbrev pub recorder : Runner small
recorder = record {
  World = List (List Text);
  run = λ tokens piped w. (ok (number (counts w)), w ++ tokens ∷ []);
  sleep = λ secs w. w;
}

abbrev pub no_vars : Ctx small
no_vars name = none

abbrev pub with_x : Ctx small
with_x name = if (elim name [ [] ↦ false | c ∷ s ↦ c == b'x' ]) then some (number 5) else none
