-- ===== src/Scripts/Block.antt =====
-- solx-scripts/src/block.rs: the statements of a script, and the parser of their blocks. The position
-- is the list of the statements that are left; each call spends a unit of fuel.
pub mod Keywords
pub mod Total
use solx_core.Prelude.{
  ℕ, zero, suc, ◌+◌, ◌*◌, ℤ, Bool, true, false, not, ◌&&◌, ◌||◌, Option, none, some, List, [], ◌∷◌,
  if◌then◌else◌, is_empty, length, ◌==◌, Text, codes, text_eq, Result, ok, err, ◌>>=◌,
}
use solx_core.Surface.Error.{invalid, Fallible}
use solx_core.Surface.Path.{is_whitespace, trim, trim_start}
use solx_core.Scripts.Platform.{Platform}
use solx_core.Scripts.Syntax.{Expr}
use solx_core.Scripts.Parser.{Stop, invalid_expr, out_of_fuel}
use solx_core.Scripts.Stage.{all_word_chars, parse_assignment}
use solx_core.Scripts.Lexer.{parse_expr}
use solx_core.Scripts.Lexer.Numbers.{is_digit, parse_i64}
use solx_core.Scripts.Interp.Program.{
  ForSource, from_pipeline, range, Statement, pipeline, value, if_, for_, wait, Block, done, next,
  Branches, no_branch, branch,
}
use solx_core.Scripts.Block.Keywords.{
  Keyword, kw_if, kw_else_if, kw_else, kw_end_if, kw_for, kw_end_for, kw_wait, kw_plain,
  split_first_word, classify,
}

-- `checked` under the parser's fuel: an error refuses the script.
abbrev pub checked : {A : Type 0} → Fallible A → Result A Stop
checked (ok a) = ok a
checked (err e) = err invalid_expr

module _ (P : Platform) where
  open P use {Number}

  abbrev starts_value : Text → Bool
  starts_value [] = false
  starts_value (c ∷ s) =
      is_digit c
      || c == b'$'
      || c == b'-'
      || c == b'"'
      || c == b'\''
      || c == b'('
      || c == b'!'
      || c == b'{'
      || c == b'['

  unfoldable pub is_value_expr : Text → Bool
  is_value_expr src =
      let first = (split_first_word src).0 in
      text_eq first (codes "true")
      || text_eq first (codes "false")
      || text_eq first (codes "null")
      || starts_value src

  abbrev plain_of : Option Text × Text → Fallible (Statement Number)
  plain_of (name, src) =
      if is_value_expr src
      then (do e ← parse_expr P src; ok (value name e))
      else ok (pipeline name src)

  unfoldable pub plain_statement : Text → Fallible (Statement Number)
  plain_statement raw = plain_of (parse_assignment P raw)

  abbrev is_end_if : Keyword Number → Bool
  is_end_if kw_end_if = true
  is_end_if _ = false

  abbrev is_end_for : Keyword Number → Bool
  is_end_for kw_end_for = true
  is_end_for _ = false

  abbrev pub Left : Type 0 → Type 0
  Left A = Result (A × List Text) Stop

  unfoldable pub expect_keyword : (Keyword Number → Bool) → List Text → Left (Unit {0})
  expect_keyword expected [] = err invalid_expr
  expect_keyword expected (s ∷ ss) = do
    kw ← checked (classify P s)
    if expected kw then ok (tt, ss) else err invalid_expr

  unfoldable mutual
    pub parse_block : ℕ → List Text → Left (Block Number)
    parse_block zero ss = err out_of_fuel
    parse_block (suc f) [] = ok (done, [])
    parse_block (suc f) (s ∷ ss) = do kw ← checked (classify P s); block_at f kw s ss

    -- The statement `s`, of which the keyword is known.
    pub block_at : ℕ → Keyword Number → Text → List Text → Left (Block Number)
    block_at zero kw s ss = err out_of_fuel
    block_at (suc f) (kw_if cond) s ss = do
      (stmt, ss₁) ← parse_if f cond ss
      (rest, ss₂) ← parse_block f ss₁
      ok (next stmt rest, ss₂)
    block_at (suc f) (kw_for item source) s ss = do
      (body, ss₁) ← parse_block f ss
      (_, ss₂) ← expect_keyword is_end_for ss₁
      (rest, ss₃) ← parse_block f ss₂
      ok (next (for_ item source body) rest, ss₃)
    block_at (suc f) (kw_wait amount) s ss = do
      (rest, ss₁) ← parse_block f ss
      ok (next (wait amount) rest, ss₁)
    block_at (suc f) (kw_plain raw) s ss = do
      stmt ← checked (plain_statement raw)
      (rest, ss₁) ← parse_block f ss
      ok (next stmt rest, ss₁)
    block_at (suc f) (kw_else_if cond) s ss = ok (done, s ∷ ss)
    block_at (suc f) kw_else s ss = ok (done, s ∷ ss)
    block_at (suc f) kw_end_if s ss = ok (done, s ∷ ss)
    block_at (suc f) kw_end_for s ss = ok (done, s ∷ ss)

    pub parse_if : ℕ → Expr Number → List Text → Left (Statement Number)
    parse_if zero cond ss = err out_of_fuel
    parse_if (suc f) cond ss = do
      (body, ss₁) ← parse_block f ss
      (rest, ss₂) ← parse_branches f ss₁
      ok (if_ (branch cond body rest), ss₂)

    -- The loop of `parse_if` over the other branches.
    pub parse_branches : ℕ → List Text → Left (Branches Number)
    parse_branches zero ss = err out_of_fuel
    parse_branches (suc f) [] = err invalid_expr
    parse_branches (suc f) (s ∷ ss) = do kw ← checked (classify P s); branches_at f kw ss

    pub branches_at : ℕ → Keyword Number → List Text → Left (Branches Number)
    branches_at zero kw ss = err out_of_fuel
    branches_at (suc f) (kw_else_if cond) ss = do
      (body, ss₁) ← parse_block f ss
      (rest, ss₂) ← parse_branches f ss₁
      ok (branch cond body rest, ss₂)
    branches_at (suc f) kw_else ss = do
      (body, ss₁) ← parse_block f ss
      (_, ss₂) ← expect_keyword is_end_if ss₁
      ok (no_branch body, ss₂)
    branches_at (suc f) kw_end_if ss = ok (no_branch done, ss)
    branches_at (suc f) kw ss = err invalid_expr

  abbrev complete : Block Number × List Text → Result (Block Number) Stop
  complete (body, []) = ok body
  complete (body, s ∷ ss) = err invalid_expr

  -- The end of `parse_program`: all of the statements make up one block.
  unfoldable pub parse_statements : List Text → Result (Block Number) Stop
  parse_statements ss = do parsed ← parse_block (4 * length ss + 1) ss; complete parsed
