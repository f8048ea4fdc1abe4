-- ===== src/Scripts/Program.antt =====
-- solx-scripts/src/block.rs and lib.rs: a script's text, split into statements, parsed and run. The
-- loop of `push_statements` spends a unit of fuel for each header that it takes off.
pub mod Weights
pub mod Total
use solx_core.Prelude.{
  ℕ, zero, suc, ◌+◌, Bool, true, false, not, ◌&&◌, ◌||◌, Option, none, some, List, [], ◌∷◌, ◌++◌,
  if◌then◌else◌, is_empty, length, ◌==◌, Text, codes, text_eq, Result, ok, err, ◌>>=◌,
}
use solx_core.Json.{null}
use solx_core.Surface.Error.{invalid}
use solx_core.Surface.Path.{is_whitespace, trim}
use solx_core.Scripts.Platform.{Platform}
use solx_core.Scripts.Parser.{Stop, out_of_fuel}
use solx_core.Scripts.Values.{Ctx}
use solx_core.Scripts.Quotes.{strip_comments, split_respecting_quotes, split_respecting_quotes_by}
use solx_core.Scripts.Interp.{Runner, Machine, Outcome, exec_block}
use solx_core.Scripts.Interp.Program.{Block}
use solx_core.Scripts.Block.Keywords.{split_first_word, is_else_if}
use solx_core.Scripts.Block.{parse_statements}

-- `LINE_KEYWORDS`.
abbrev pub is_line_keyword : Text → Bool
is_line_keyword w =
    text_eq w (codes "if")
    || text_eq w (codes "elseif")
    || text_eq w (codes "else")
    || text_eq w (codes "endif")
    || text_eq w (codes "for")
    || text_eq w (codes "endfor")
    || text_eq w (codes "wait")

-- `join` with one character.
unfoldable pub join : ℕ → List Text → Text
join sep [] = []
join sep (w ∷ []) = w
join sep (w ∷ v ∷ ws) = w ++ sep ∷ join sep (v ∷ ws)

unfoldable pub drop_empty : List Text → List Text
drop_empty [] = []
drop_empty (w ∷ ws) = let rest = drop_empty ws in if is_empty w then rest else w ∷ rest

-- The words before and behind the first `then`.
abbrev pub word_before : Text → Option (List Text × List Text) → Option (List Text × List Text)
word_before w none = none
word_before w (some (before, after)) = some (w ∷ before, after)

unfoldable pub find_then : List Text → Option (List Text × List Text)
find_then [] = none
find_then (w ∷ ws) =
    let later = word_before w (find_then ws) in
    if text_eq w (codes "then") then some ([], ws) else later

abbrev pub words_of : Text → List Text
words_of line = drop_empty (split_respecting_quotes_by (λ st c. (is_whitespace c, st)) tt line)

abbrev pub joined_at : Text → Option (List Text × List Text) → Text × Text
joined_at line none = (line, [])
joined_at line (some (before, after)) = (join b' ' before, join b' ' after)

unfoldable pub split_at_then : Text → Text × Text
split_at_then line = joined_at line (find_then (words_of line))

abbrev pub is_conditional : Text → Bool
is_conditional rest =
    let word = (split_first_word rest).0 in
    text_eq word (codes "if") || text_eq word (codes "elseif") || is_else_if rest

-- The header at the start of a text, and the text behind it.
abbrev pub header_of : Bool → List Text → Text × Text
header_of conditional [] =
    if conditional
    then ((split_at_then []).0, (split_at_then []).1 ++ b'\n' ∷ [])
    else ([], b'\n' ∷ [])
header_of conditional (line ∷ lines) =
    if conditional
    then ((split_at_then line).0, (split_at_then line).1 ++ b'\n' ∷ join b'\n' lines)
    else (line, b'\n' ∷ join b'\n' lines)

abbrev pub cut_header : Text → Text × Text
cut_header rest = header_of (is_conditional rest) (split_respecting_quotes b'\n' rest)

unfoldable pub push_loop : ℕ → Text → Result (List Text) Stop
push_loop zero rest = err out_of_fuel
push_loop (suc f) rest =
    let more = do
      stmts ← push_loop f (trim ((cut_header rest).1))
      ok (trim ((cut_header rest).0) ∷ stmts)
    in if is_empty rest
      then ok []
      else if is_line_keyword ((split_first_word rest).0)
      then more
      else ok (rest ∷ [])

unfoldable pub push_statements : Text → Result (List Text) Stop
push_statements piece = push_loop (suc (length (trim piece))) (trim piece)

unfoldable pub push_all : List Text → Result (List Text) Stop
push_all [] = ok []
push_all (piece ∷ pieces) = do
  stmts ← push_statements piece
  rest ← push_all pieces
  ok (stmts ++ rest)

module _ (P : Platform) where
  unfoldable pub parse_program : Text → Result (Block P.Number) Stop
  parse_program source = do
    stmts ← push_all (split_respecting_quotes b';' source)
    parse_statements P stmts

  module _ (R : Runner P) where
    abbrev run_program : Ctx P → R.World → Result (Block P.Number) Stop → Outcome P R
    run_program initial w (err stop) = err (invalid, record { ctx = initial; world = w })
    run_program initial w (ok program) =
        exec_block P R program null (record { ctx = initial; world = w })

    unfoldable pub execute_script_with_vars : Text → Ctx P → R.World → Outcome P R
    execute_script_with_vars source initial w =
        run_program initial w (parse_program (strip_comments source))

    unfoldable pub execute_script : Text → R.World → Outcome P R
    execute_script source w = execute_script_with_vars source (λ name. none) w
