-- ===== src/Scripts/Tests/Expressions.antt =====
-- Runs of the functions on expressions and texts, and the theorems about them at concrete values.
use solx_core.Prelude.{ℕ, ◌+◌, true, some, [], ◌∷◌, codes, text_eq, ok, err, ◌≡◌, ◌≢◌, refl}
use solx_core.Json.{Value, Fields, bool, number, string, object, end, field, insert}
use solx_core.Surface.Path.{is_whitespace, trim, trim_start, trim_end}
use solx_core.Scripts.Syntax.{
  eq, lt, text, ref, Expr, literal, var, template, array_of, not_, and_, or_, compare, no_items,
  item, object_of, Pairs, no_pairs, pair, lparen, not_token, var_token,
}
use solx_core.Scripts.Parser.{out_of_fuel, parse_tokens, parse_or, template_expr}
use solx_core.Scripts.Parser.Printer.{emit}
use solx_core.Scripts.Parser.Total.{parse_tokens-ne-out_of_fuel}
use solx_core.Scripts.Parser.RoundTrip.Whole.{parse_tokens-emit}
use solx_core.Scripts.Values.{digits, resolve_var, split_at_char, value_to_arg_string}
use solx_core.Scripts.Eval.{eval_expr}
use solx_core.Scripts.Eval.Defined.{eval_expr-ne-err}
use solx_core.Scripts.Quotes.{
  strip_comments, strip_from, strip_step, quote_move, two_quotes, split_respecting_quotes,
  split_respecting_quotes_by, split_from,
}
use solx_core.Scripts.Quotes.Comments.{strip_comments-strip_comments}
use solx_core.Scripts.Quotes.Split.{MakeUp, split_respecting_quotes-MakeUp}
use solx_core.Scripts.Stage.{
  text_arg, literal_arg, tokenize_stage, tokenize_stage_args, tokenize_from, stage_step, text_step,
  bracket_char, substitute_vars_in_token, subst_from, subst_step, take_name, trim_dots, has_char,
  all_word_chars, parse_assignment,
}
use solx_core.Scripts.Stage.Assign.{parse_assignment-name}
use solx_core.Scripts.Lexer.{parse_expr, lex, lex_from, lex_char, take_word}
use solx_core.Scripts.Lexer.Strings.{
  single_body, triple_body, double_body, piece, lex_json_escape, hex4, hex_digits, lex_braced_ref,
  braced_name,
}
use solx_core.Scripts.Lexer.Numbers.{number_text, number_value, parse_i64}
use solx_core.Scripts.Tests.{small, no_vars, with_x}

-- `$x < 2 || !($y && true)`, with the parentheses that the precedences ask for.
abbrev sample : Expr ℕ
sample =
    or_ (compare lt (var (codes "x")) (literal (number 2)))
      (not_ (and_ (var (codes "y")) (literal (bool true))))

run_parse : parse_expr small (codes "$x < 2 || !($y && true)") ≡ ok sample
unfolding parse_expr lex lex_from lex_char take_word number_text number_value parse_i64 digits
    parse_tokens parse_or template_expr take_name single_body triple_body double_body piece
    lex_json_escape hex4 hex_digits lex_braced_ref braced_name two_quotes is_whitespace text_eq
run_parse = refl

run_template :
    parse_expr small (codes "[\"a${x.y}\", \"b\"]")
    ≡ ok (
        array_of (
          item
            (template (text (codes "a") ∷ ref (codes "x.y") ∷ []))
            (item (literal (string (codes "b"))) no_items)))
unfolding parse_expr lex lex_from lex_char take_word number_text number_value parse_i64 digits
    parse_tokens parse_or template_expr take_name single_body triple_body double_body piece
    lex_json_escape hex4 hex_digits lex_braced_ref braced_name two_quotes is_whitespace text_eq
run_template = refl

run_escape : lex_json_escape (codes "u0041!") ≡ ok (codes "A", 5)
unfolding lex_json_escape hex4 hex_digits
run_escape = refl

-- A surrogate pair may end in any escape: that of `A` is taken for a low surrogate.
run_surrogate : lex_json_escape (codes "ud800\\u0041") ≡ ok ((65536 + 65) ∷ [], 11)
unfolding lex_json_escape hex4 hex_digits
run_surrogate = refl

run_strip : strip_comments (codes "a # b\n'#' # c") ≡ codes "a \n'#' "
unfolding strip_comments strip_from strip_step quote_move two_quotes
run_strip = refl

run_split : split_respecting_quotes b';' (codes "a;'b;c';") ≡ codes "a" ∷ codes "'b;c'" ∷ []
unfolding split_respecting_quotes split_respecting_quotes_by split_from quote_move two_quotes trim
    trim_start trim_end is_whitespace
run_split = refl

-- An escaped backslash ends a string for the splitting, and not for the arguments.
run_backslash :
    (split_respecting_quotes b';' (codes "\"a\\\\\" ;b") ≡ codes "\"a\\\\\" " ∷ codes "b" ∷ [])
    × (tokenize_stage_args (codes "\"a\\\\\" b") ≡ text_arg (codes "a\\\" b") ∷ [])
unfolding split_respecting_quotes split_respecting_quotes_by split_from quote_move two_quotes trim
    trim_start trim_end is_whitespace tokenize_stage_args tokenize_from stage_step text_step
run_backslash = (refl, refl)

run_tokenize :
    tokenize_stage_args (codes "exec '/a b' {\"k\": [1, 2]}")
    ≡ text_arg (codes "exec") ∷ text_arg (codes "/a b") ∷ literal_arg (codes "{\"k\": [1, 2]}") ∷ []
unfolding tokenize_stage_args tokenize_from stage_step text_step bracket_char two_quotes
    is_whitespace
run_tokenize = refl

run_substitute : substitute_vars_in_token small (codes "<$x.>$y$") with_x ≡ codes "<5.>$y$"
unfolding substitute_vars_in_token subst_from subst_step take_name trim_dots has_char split_at_char
    value_to_arg_string
run_substitute = refl

parse_tokens-ne-out_of_fuel_example :
    parse_tokens {N = ℕ} (lparen ∷ not_token ∷ var_token (codes "x") ∷ []) ≢ err out_of_fuel
parse_tokens-ne-out_of_fuel_example =
    parse_tokens-ne-out_of_fuel (lparen ∷ not_token ∷ var_token (codes "x") ∷ [])

parse_tokens-emit_example : parse_tokens (emit 0 sample) ≡ ok sample
parse_tokens-emit_example = parse_tokens-emit sample ((tt, tt), (tt, tt))

abbrev x_is_five : Expr ℕ
x_is_five = compare eq (var (codes "x.y")) (literal (number 5))

eval_expr-ne-err_example : (v : Value ℕ) × (eval_expr small x_is_five no_vars ≡ ok v)
eval_expr-ne-err_example = eval_expr-ne-err small x_is_five no_vars (tt, tt, tt)

-- `{"k": 1, "k": $x}`.
abbrev twice : Pairs ℕ
twice =
    pair (literal (string (codes "k"))) (literal (number 1))
      (pair (literal (string (codes "k"))) (var (codes "x")) no_pairs)

abbrev one_key : Fields ℕ
one_key = field (codes "k") (number 5) end

evaluates_twice : eval_expr small (object_of twice) with_x ≡ ok (object one_key)
unfolding eval_expr insert text_eq split_at_char resolve_var
evaluates_twice = refl

strip_comments-strip_comments_example :
    strip_comments (strip_comments (codes "a # b\n'#' # c"))
    ≡ strip_comments (codes "a # b\n'#' # c")
strip_comments-strip_comments_example = strip_comments-strip_comments (codes "a # b\n'#' # c")

split_respecting_quotes-MakeUp_example :
    MakeUp b';' (split_respecting_quotes b';' (codes "a;'b;c'; ")) (codes "a;'b;c'; ")
split_respecting_quotes-MakeUp_example = split_respecting_quotes-MakeUp b';' (codes "a;'b;c'; ")

-- A comparison that stands alone is an assignment.
parse_assignment-name_example :
    parse_assignment small (codes "$x== 5") ≡ (some (codes "x"), trim (codes "= 5"))
unfolding all_word_chars has_char trim trim_start trim_end is_whitespace
parse_assignment-name_example =
    parse_assignment-name small (codes "x") (codes "= 5") refl refl refl refl

run_stage : tokenize_stage (codes "json {\"k\": 1}") ≡ codes "json" ∷ codes "{\"k\": 1}" ∷ []
unfolding tokenize_stage tokenize_stage_args tokenize_from stage_step text_step bracket_char
    two_quotes is_whitespace
run_stage = refl
