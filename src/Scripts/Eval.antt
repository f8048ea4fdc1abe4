-- ===== src/Scripts/Eval.antt =====
-- solx-scripts/src/expr.rs: the evaluation of expressions.
pub mod Laws
pub mod Defined
use solx_core.Prelude.{
  ℕ, Bool, true, false, not, ◌&&◌, Option, none, some, List, [], ◌∷◌, ◌++◌, if◌then◌else◌, Text,
  Result, ok, err, ◌>>=◌,
}
use solx_core.Json.{
  Value, Items, Fields, null, bool, number, string, array, object, nil, cons, end, insert,
}
use solx_core.Surface.Error.{invalid, Fallible}
use solx_core.Scripts.Platform.{Platform}
use solx_core.Scripts.Syntax.{
  CompareOp, eq, ne, lt, le, gt, ge, contains, TemplatePart, text, ref, Expr, literal, var,
  template, object_of, array_of, not_, and_, or_, compare, Exprs, no_items, item, Pairs, no_pairs,
  pair,
}
use solx_core.Scripts.Values.{
  Ctx, value_to_arg_string, resolve_var, is_truthy, values_eq, value_contains,
}

module _ (P : Platform) where
  open P use {Number, Float, as_f64, f64_lt, f64_le, to_json}

  unfoldable pub render_template : List TemplatePart → Ctx P → Text
  render_template [] ctx = []
  render_template (text t ∷ parts) ctx = t ++ render_template parts ctx
  render_template (ref name ∷ parts) ctx =
      value_to_arg_string P (resolve_var P name ctx) ++ render_template parts ctx

  abbrev pub float_of : Option Float → Fallible Float
  float_of none = err invalid
  float_of (some f) = ok f

  unfoldable pub as_number : Value Number → Fallible Float
  as_number (number n) = float_of (as_f64 n)
  as_number v = err invalid

  abbrev pub compare_floats :
      (Float → Float → Bool) → Value Number → Value Number → Fallible (Value Number)
  compare_floats test lhs rhs = do l ← as_number lhs; r ← as_number rhs; ok (bool (test l r))

  unfoldable pub eval_compare : CompareOp → Value Number → Value Number → Fallible (Value Number)
  eval_compare eq lhs rhs = ok (bool (values_eq P lhs rhs))
  eval_compare ne lhs rhs = ok (bool (not (values_eq P lhs rhs)))
  eval_compare lt lhs rhs = compare_floats f64_lt lhs rhs
  eval_compare le lhs rhs = compare_floats f64_le lhs rhs
  eval_compare gt lhs rhs = compare_floats (λ l r. f64_lt r l) lhs rhs
  eval_compare ge lhs rhs = compare_floats (λ l r. f64_le r l) lhs rhs
  eval_compare contains lhs rhs = ok (bool (value_contains P lhs rhs))

  -- A key that is not a string is inserted as its JSON text.
  abbrev pub key_text : Value Number → Text
  key_text (string s) = s
  key_text v = to_json v

  unfoldable mutual
    pub eval_expr : Expr Number → Ctx P → Fallible (Value Number)
    eval_expr (literal v) ctx = ok v
    eval_expr (var name) ctx = ok (resolve_var P name ctx)
    eval_expr (template parts) ctx = ok (string (render_template parts ctx))
    eval_expr (array_of es) ctx = do vs ← eval_items es ctx; ok (array vs)
    eval_expr (object_of ps) ctx = do fs ← eval_pairs ps ctx end; ok (object fs)
    eval_expr (not_ a) ctx = do v ← eval_expr a ctx; ok (bool (not (is_truthy P v)))
    eval_expr (and_ a b) ctx = do
      lhs ← eval_expr a ctx
      if is_truthy P lhs then eval_expr b ctx else ok lhs
    eval_expr (or_ a b) ctx = do
      lhs ← eval_expr a ctx
      if is_truthy P lhs then ok lhs else eval_expr b ctx
    eval_expr (compare o a b) ctx = do
      lhs ← eval_expr a ctx
      rhs ← eval_expr b ctx
      eval_compare o lhs rhs

    pub eval_items : Exprs Number → Ctx P → Fallible (Items Number)
    eval_items no_items ctx = ok nil
    eval_items (item e es) ctx = do v ← eval_expr e ctx; vs ← eval_items es ctx; ok (cons v vs)

    -- The loop over the fields, with the map that is built.
    pub eval_pairs : Pairs Number → Ctx P → Fields Number → Fallible (Fields Number)
    eval_pairs no_pairs ctx fs = ok fs
    eval_pairs (pair k e ps) ctx fs = do
      key ← eval_expr k ctx
      v ← eval_expr e ctx
      eval_pairs ps ctx (insert (key_text key) v fs)
