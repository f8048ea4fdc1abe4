-- ===== src/Scripts/Interp/Program.antt =====
-- solx-scripts/src/ast.rs: statements; and the changes of a variable. An `if` without `else` has an
-- empty block there, which has the value that the source gives it, null.
use solx_core.Prelude.{ℤ, Option, none, some, if◌then◌else◌, Text, text_eq}
use solx_core.Json.{Value}
use solx_core.Scripts.Platform.{Platform}
use solx_core.Scripts.Syntax.{Expr}
use solx_core.Scripts.Values.{Ctx}

pub data ForSource : Type 0 where
  from_pipeline : Text → ForSource
  range : ℤ → ℤ → ForSource

mutual
  pub data Statement (N : Type 0) : Type 0 where
    pipeline : Option Text → Text → Statement N
    value : Option Text → Expr N → Statement N
    if_ : Branches N → Statement N
    for_ : Text → ForSource → Block N → Statement N
    wait : Text → Statement N

  pub data Block (N : Type 0) : Type 0 where
    done : Block N
    next : Statement N → Block N → Block N

  pub data Branches (N : Type 0) : Type 0 where
    no_branch : Block N → Branches N
    branch : Expr N → Block N → Branches N → Branches N

module _ (P : Platform) where
  -- `HashMap::insert` and `HashMap::remove_var`.
  abbrev pub set_var : Text → Value P.Number → Ctx P → Ctx P
  set_var name v ctx = λ x. if text_eq x name then some v else ctx x

  abbrev pub remove_var : Text → Ctx P → Ctx P
  remove_var name ctx = λ x. if text_eq x name then none else ctx x
