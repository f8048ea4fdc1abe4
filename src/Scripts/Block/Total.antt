-- ===== src/Scripts/Block/Total.antt =====
-- The fuel of the block parser suffices: four units for each statement, as every call either passes a
-- statement or goes one level down.
use solx_core.Prelude.{
  ℕ, zero, suc, ◌+◌, ◌*◌, ◌<◌, Bool, List, [], ◌∷◌, length, Text, Result, ok, err, ◌>>=◌, ◌≢◌,
  arith,
}
use solx_core.Surface.Error.{Fallible}
use solx_core.Scripts.Platform.{Platform}
use solx_core.Scripts.Syntax.{Expr}
use solx_core.Scripts.Parser.{Stop, out_of_fuel}
use solx_core.Scripts.Parser.Leaves.{Leaves, took, refused, Leaves-bind, Leaves-if}
use solx_core.Scripts.Interp.Program.{Block}
use solx_core.Scripts.Block.Keywords.{
  Keyword, kw_if, kw_else_if, kw_else, kw_end_if, kw_for, kw_end_for, kw_wait, kw_plain, classify,
}
use solx_core.Scripts.Block.{
  checked, plain_statement, is_end_if, is_end_for, expect_keyword, parse_block, block_at, parse_if,
  parse_branches, branches_at, complete, parse_statements,
}

module _ (P : Platform) where
  open P use {Number}

  checked-Leaves :
      {A B : Type 0} {n : ℕ} (r : Fallible A) (k : A → Result (B × List Text) Stop)
      → ((a : A) → Leaves n (k a))
      → Leaves n (checked r >>= k)
  checked-Leaves (ok a) k h = h a
  checked-Leaves (err e) k h = refused

  -- The keyword that is expected is consumed.
  expect_keyword-Leaves :
      (expected : Keyword Number → Bool) (ss : List Text)
      → Leaves (length ss) (expect_keyword P expected ss)
  unfolding expect_keyword
  expect_keyword-Leaves expected [] = refused
  expect_keyword-Leaves expected (s ∷ ss) =
      checked-Leaves (classify P s) _
        λ kw. Leaves-if (expected kw) (λ e. took (omega arith)) refused

  mutual
    unfolding parse_block

    parse_block-Leaves :
        (f : ℕ) (ss : List Text) → 4 * length ss < f → Leaves (suc (length ss)) (parse_block P f ss)
    parse_block-Leaves zero ss h = absurd (omega arith)
    parse_block-Leaves (suc f) [] h = took (omega arith)
    parse_block-Leaves (suc f) (s ∷ ss) h =
        checked-Leaves (classify P s) _ λ kw. block_at-Leaves f kw s ss (omega arith)

    block_at-Leaves :
        (f : ℕ) (kw : Keyword Number) (s : Text) (ss : List Text)
        → 4 * length ss + 3 < f
        → Leaves (suc (suc (length ss))) (block_at P f kw s ss)
    block_at-Leaves zero kw s ss h = absurd (omega arith)
    block_at-Leaves (suc f) (kw_if cond) s ss h =
        Leaves-bind _ (parse_if-Leaves f cond ss (omega arith)) λ stmt ss₁ l.
          Leaves-bind _ (parse_block-Leaves f ss₁ (omega arith)) λ rest ss₂ l'. took (omega arith)
    block_at-Leaves (suc f) (kw_for item source) s ss h =
        Leaves-bind _ (parse_block-Leaves f ss (omega arith)) λ body ss₁ l.
          Leaves-bind _ (expect_keyword-Leaves (is_end_for P) ss₁) λ _ ss₂ l'.
            Leaves-bind _ (parse_block-Leaves f ss₂ (omega arith))
              λ rest ss₃ l''. took (omega arith)
    block_at-Leaves (suc f) (kw_wait amount) s ss h =
        Leaves-bind _ (parse_block-Leaves f ss (omega arith)) λ rest ss₁ l. took (omega arith)
    block_at-Leaves (suc f) (kw_plain raw) s ss h = checked-Leaves (plain_statement P raw) _ λ stmt.
        Leaves-bind _ (parse_block-Leaves f ss (omega arith)) λ rest ss₁ l. took (omega arith)
    block_at-Leaves (suc f) (kw_else_if cond) s ss h = took (omega arith)
    block_at-Leaves (suc f) kw_else s ss h = took (omega arith)
    block_at-Leaves (suc f) kw_end_if s ss h = took (omega arith)
    block_at-Leaves (suc f) kw_end_for s ss h = took (omega arith)

    parse_if-Leaves :
        (f : ℕ) (cond : Expr Number) (ss : List Text)
        → 4 * length ss + 2 < f
        → Leaves (length ss) (parse_if P f cond ss)
    parse_if-Leaves zero cond ss h = absurd (omega arith)
    parse_if-Leaves (suc f) cond ss h =
        Leaves-bind _ (parse_block-Leaves f ss (omega arith)) λ body ss₁ l.
          Leaves-bind _ (parse_branches-Leaves f ss₁ (omega arith))
            λ rest ss₂ l'. took (omega arith)

    -- At least the `endif` is consumed.
    parse_branches-Leaves :
        (f : ℕ) (ss : List Text)
        → 4 * length ss + 1 < f
        → Leaves (length ss) (parse_branches P f ss)
    parse_branches-Leaves zero ss h = absurd (omega arith)
    parse_branches-Leaves (suc f) [] h = refused
    parse_branches-Leaves (suc f) (s ∷ ss) h =
        checked-Leaves (classify P s) _ λ kw. branches_at-Leaves f kw ss (omega arith)

    branches_at-Leaves :
        (f : ℕ) (kw : Keyword Number) (ss : List Text)
        → 4 * length ss + 4 < f
        → Leaves (suc (length ss)) (branches_at P f kw ss)
    branches_at-Leaves zero kw ss h = absurd (omega arith)
    branches_at-Leaves (suc f) (kw_else_if cond) ss h =
        Leaves-bind _ (parse_block-Leaves f ss (omega arith)) λ body ss₁ l.
          Leaves-bind _ (parse_branches-Leaves f ss₁ (omega arith))
            λ rest ss₂ l'. took (omega arith)
    branches_at-Leaves (suc f) kw_else ss h =
        Leaves-bind _ (parse_block-Leaves f ss (omega arith)) λ body ss₁ l.
          Leaves-bind _ (expect_keyword-Leaves (is_end_if P) ss₁) λ _ ss₂ l'. took (omega arith)
    branches_at-Leaves (suc f) kw_end_if ss h = took (omega arith)
    branches_at-Leaves (suc f) (kw_if cond) ss h = refused
    branches_at-Leaves (suc f) (kw_for item source) ss h = refused
    branches_at-Leaves (suc f) kw_end_for ss h = refused
    branches_at-Leaves (suc f) (kw_wait amount) ss h = refused
    branches_at-Leaves (suc f) (kw_plain raw) ss h = refused

  complete-ne-out_of_fuel :
      {n : ℕ} {r : Result (Block Number × List Text) Stop}
      → Leaves n r
      → (r >>= complete P) ≢ err out_of_fuel
  complete-ne-out_of_fuel (took {ts = []} l) = cc
  complete-ne-out_of_fuel (took {ts = s ∷ ss} l) = cc
  complete-ne-out_of_fuel refused = cc

  -- The block parser ends: every list of statements is parsed to a block or refused, however its `if`s
  -- and `for`s are nested and whichever of them lack an end.
  pub parse_statements-ne-out_of_fuel : (ss : List Text) → parse_statements P ss ≢ err out_of_fuel
  unfolding parse_statements
  parse_statements-ne-out_of_fuel ss =
      complete-ne-out_of_fuel (parse_block-Leaves (4 * length ss + 1) ss (omega arith))
