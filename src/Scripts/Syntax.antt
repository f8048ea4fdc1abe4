-- ===== src/Scripts/Syntax.antt =====
-- solx-scripts/src/expr.rs: expressions and the tokens they are parsed from. The type of numbers is a
-- parameter. A list of expressions inside an expression is a type of its own.
use solx_core.Prelude.{Bool, List, Text}
use solx_core.Json.{Value}

pub data CompareOp : Type 0 where
  eq ne lt le gt ge contains : CompareOp

pub data TemplatePart : Type 0 where
  text : Text → TemplatePart
  ref : Text → TemplatePart

mutual
  pub data Expr (N : Type 0) : Type 0 where
    literal : Value N → Expr N
    var : Text → Expr N
    template : List TemplatePart → Expr N
    object_of : Pairs N → Expr N
    array_of : Exprs N → Expr N
    not_ : Expr N → Expr N
    and_ : Expr N → Expr N → Expr N
    or_ : Expr N → Expr N → Expr N
    compare : CompareOp → Expr N → Expr N → Expr N

  pub data Exprs (N : Type 0) : Type 0 where
    no_items : Exprs N
    item : Expr N → Exprs N → Exprs N

  pub data Pairs (N : Type 0) : Type 0 where
    no_pairs : Pairs N
    pair : Expr N → Expr N → Pairs N → Pairs N

pub data Token (N : Type 0) : Type 0 where
  lparen rparen and_token or_token not_token : Token N
  op : CompareOp → Token N
  var_token : Text → Token N
  str : Text → Token N
  template_token : List TemplatePart → Token N
  num : N → Token N
  lbrace rbrace lbracket rbracket comma colon : Token N
  bool_token : Bool → Token N
  null_token : Token N
