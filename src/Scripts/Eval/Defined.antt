-- ===== src/Scripts/Eval/Defined.antt =====
-- Expressions that cannot fail: those that compare nothing in order.
use solx_core.Prelude.{Bool, true, false, not, if◌then◌else◌, ok, ◌≡◌, refl, sym}
use solx_core.Json.{Value, Items, Fields, bool, array, object, end, cons, insert}
use solx_core.Surface.Error.{Fallible}
use solx_core.Scripts.Platform.{Platform}
use solx_core.Scripts.Syntax.{
  CompareOp, eq, ne, lt, le, gt, ge, contains, Expr, literal, var, template, object_of, array_of,
  not_, and_, or_, compare, Exprs, no_items, item, Pairs, no_pairs, pair,
}
use solx_core.Scripts.Values.{Ctx, is_truthy}
use solx_core.Scripts.Eval.{eval_expr, eval_items, eval_pairs, eval_compare, key_text}

module _ (P : Platform) where
  open P use {Number}

  -- Expressions without `<`, `<=`, `>` and `>=`.
  abbrev pub IsUnordered : CompareOp → Type 0
  IsUnordered eq = Unit
  IsUnordered ne = Unit
  IsUnordered contains = Unit
  IsUnordered _ = ⊥

  abbrev mutual
    pub NoOrder : Expr Number → Type 0
    NoOrder (array_of es) = NoOrderItems es
    NoOrder (object_of ps) = NoOrderPairs ps
    NoOrder (not_ a) = NoOrder a
    NoOrder (and_ a b) = NoOrder a × NoOrder b
    NoOrder (or_ a b) = NoOrder a × NoOrder b
    NoOrder (compare o a b) = IsUnordered o × NoOrder a × NoOrder b
    NoOrder (literal v) = Unit
    NoOrder (var name) = Unit
    NoOrder (template parts) = Unit

    pub NoOrderItems : Exprs Number → Type 0
    NoOrderItems no_items = Unit
    NoOrderItems (item e es) = NoOrder e × NoOrderItems es

    pub NoOrderPairs : Pairs Number → Type 0
    NoOrderPairs no_pairs = Unit
    NoOrderPairs (pair k e ps) = NoOrder k × NoOrder e × NoOrderPairs ps

  if_ok :
      (b : Bool) (v w : Value Number)
      → ◌≡◌ {A = Fallible (Value Number)} (ok (if b then v else w)) (if b then ok v else ok w)
  if_ok true v w = refl
  if_ok false v w = refl

  compare_total :
      (o : CompareOp) (l r : Value Number)
      → IsUnordered o
      → (v : Value Number) × (eval_compare P o l r ≡ ok v)
  unfolding eval_compare
  compare_total eq l r h = (_, refl)
  compare_total ne l r h = (_, refl)
  compare_total contains l r h = (_, refl)
  compare_total lt l r h = absurd h
  compare_total le l r h = absurd h
  compare_total gt l r h = absurd h
  compare_total ge l r h = absurd h

  mutual
    unfolding eval_expr

    no_error :
        (e : Expr Number) (c : Ctx P) → NoOrder e → (v : Value Number) × (eval_expr P e c ≡ ok v)
    no_error (literal v) c h = (_, refl)
    no_error (var name) c h = (_, refl)
    no_error (template parts) c h = (_, refl)
    no_error (array_of es) c h = let (vs, same) = no_error_items es c h in (array vs, rw same refl)
    no_error (object_of ps) c h =
        let (fs, same) = no_error_pairs ps c end h in (object fs, rw same refl)
    no_error (not_ a) c h =
        let (v, same) = no_error a c h in (bool (not (is_truthy P v)), rw same refl)
    no_error (and_ a b) c (ha, hb) =
        let (v, same) = no_error a c ha in
        let (w, then_) = no_error b c hb in
        (if is_truthy P v then w else v, rw (same, then_) (sym (if_ok (is_truthy P v) w v)))
    no_error (or_ a b) c (ha, hb) =
        let (v, same) = no_error a c ha in
        let (w, then_) = no_error b c hb in
        (if is_truthy P v then v else w, rw (same, then_) (sym (if_ok (is_truthy P v) v w)))
    no_error (compare o a b) c (ho, ha, hb) =
        let (v, same) = no_error a c ha in
        let (w, then_) = no_error b c hb in
        let (r, result) = compare_total o v w ho in (r, rw (same, then_) result)

    no_error_items :
        (es : Exprs Number) (c : Ctx P)
        → NoOrderItems es
        → (vs : Items Number) × (eval_items P es c ≡ ok vs)
    no_error_items no_items c h = (_, refl)
    no_error_items (item e es) c (he, h) =
        let (v, same) = no_error e c he in
        let (vs, rest) = no_error_items es c h in (cons v vs, rw (same, rest) refl)

    no_error_pairs :
        (ps : Pairs Number) (c : Ctx P) (fs : Fields Number)
        → NoOrderPairs ps
        → (out : Fields Number) × (eval_pairs P ps c fs ≡ ok out)
    no_error_pairs no_pairs c fs h = (_, refl)
    no_error_pairs (pair k e ps) c fs (hk, he, h) =
        let (key, key_is) = no_error k c hk in
        let (v, v_is) = no_error e c he in
        let (out, rest) = no_error_pairs ps c (insert (key_text P key) v fs) h in
        (out, rw (key_is, v_is) rest)

  -- Evaluation fails in ordering comparisons alone: an expression without `<`, `<=`, `>` and `>=` has
  -- a value in every context, undefined variables and missing fields included.
  pub eval_expr-ne-err :
      (e : Expr Number) (c : Ctx P) → NoOrder e → (v : Value Number) × (eval_expr P e c ≡ ok v)
  eval_expr-ne-err e c h = no_error e c h
