-- ===== src/Scripts/Tests/Programs.antt =====
-- Runs of the interpreter and of whole scripts, and the theorems about them at concrete values.
use solx_core.Prelude.{ℕ, pos, none, some, [], ◌∷◌, Text, codes, text_eq, ok, err, ◌≡◌, ◌≢◌, refl}
use solx_core.Json.{null, number}
use solx_core.Surface.Path.{is_whitespace, trim, trim_start, trim_end}
use solx_core.Scripts.Syntax.{var}
use solx_core.Scripts.Parser.{out_of_fuel, parse_tokens, parse_or, template_expr}
use solx_core.Scripts.Values.{
  is_truthy, digits, Ctx, split_at_char, value_to_arg_string, resolve_var,
}
use solx_core.Scripts.Eval.{as_number, eval_compare, eval_expr}
use solx_core.Scripts.Quotes.{
  strip_comments, strip_from, strip_step, quote_move, two_quotes, split_respecting_quotes,
  split_respecting_quotes_by, split_from,
}
use solx_core.Scripts.Stage.{
  tokenize_stage_args, tokenize_from, stage_step, text_step, substitute_vars_in_token, subst_from,
  subst_step, take_name, trim_dots, has_char, all_word_chars, parse_assignment,
}
use solx_core.Scripts.Lexer.{parse_expr, lex, lex_from, lex_char, take_word}
use solx_core.Scripts.Lexer.Numbers.{number_text, number_value, parse_i64}
use solx_core.Scripts.Block.Keywords.{
  split_first_word, split_word, is_else_if, split_dots, try_parse_range, parse_for_header, classify,
}
use solx_core.Scripts.Block.{
  is_value_expr, plain_statement, expect_keyword, parse_block, parse_statements,
}
use solx_core.Scripts.Program.{
  push_all, execute_script, execute_script_with_vars, push_statements, push_loop, join, drop_empty,
  find_then, split_at_then, parse_program,
}
use solx_core.Scripts.Program.Total.{parse_program-ne-out_of_fuel}
use solx_core.Scripts.Interp.{
  execute_pipeline, stage_tokens, run_stages, Machine, exec_block, exec_for, source_items, each,
  int_items, restore,
}
use solx_core.Scripts.Interp.Program.{range, value, for_, Block, set_var, remove_var, done, next}
use solx_core.Scripts.Interp.Frame.{exec_block-ctx}
use solx_core.Scripts.Tests.{small, recorder, no_vars, with_x}

abbrev start : Machine small recorder
start = record { ctx = with_x; world = [] }

-- `for $i in 0..2; $y = $i; endfor`
abbrev loop : Block ℕ
loop =
    next
      (for_ (codes "i") (range (pos 0) (pos 2))
        (next (value (some (codes "y")) (var (codes "i"))) done))
      done

abbrev after_loop : Machine small recorder
after_loop = record {
  ctx = restore small recorder (codes "i") none (
      set_var small (codes "y") (number 1) (
        set_var small (codes "i") (number 1) (
          set_var small (codes "y") (number 0)
            (set_var small (codes "i") (number 0) (remove_var small (codes "i") with_x)))));
  world = [];
}

loop_runs : exec_block small recorder loop null start ≡ ok (number 1, after_loop)
unfolding exec_block exec_for source_items each int_items eval_expr resolve_var split_at_char
    text_eq
loop_runs = refl

exec_block-ctx_example : after_loop.ctx (codes "i") ≡ none
unfolding text_eq
exec_block-ctx_example =
    exec_block-ctx small recorder loop null (number 1) start after_loop (codes "i") refl loop_runs

abbrev after_program : Ctx small
after_program = restore small recorder (codes "i") none (
    set_var small (codes "i") (number 2) (
      set_var small (codes "i") (number 1)
        (set_var small (codes "i") (number 0) (remove_var small (codes "i") no_vars))))

-- A loop with a branch, on lines of its own.
abbrev program : Text
program = codes "for $i in 0..3\n if $i > 1 then json $i;\nendif\nendfor"

parse_program-ne-out_of_fuel_example : parse_program small program ≢ err out_of_fuel
parse_program-ne-out_of_fuel_example = parse_program-ne-out_of_fuel small program

-- The runner is called once, for the item 2.
run_script :
    execute_script small recorder program []
    ≡ ok (number 0, record { ctx = after_program; world = (codes "json" ∷ codes "2" ∷ []) ∷ [] })
unfolding execute_script execute_script_with_vars strip_comments strip_from strip_step parse_program
    push_all parse_statements parse_block classify parse_for_header try_parse_range split_dots
    expect_keyword plain_statement is_value_expr parse_assignment all_word_chars push_statements
    push_loop split_first_word split_word is_else_if split_respecting_quotes
    split_respecting_quotes_by split_from quote_move two_quotes is_whitespace trim trim_start
    trim_end text_eq join drop_empty find_then split_at_then parse_expr lex lex_from lex_char
    take_word number_text number_value parse_i64 digits parse_tokens parse_or template_expr
    take_name exec_block exec_for source_items each int_items eval_expr eval_compare as_number
    is_truthy resolve_var split_at_char execute_pipeline run_stages stage_tokens tokenize_stage_args
    tokenize_from stage_step text_step substitute_vars_in_token subst_from subst_step trim_dots
    has_char value_to_arg_string
run_script = refl
