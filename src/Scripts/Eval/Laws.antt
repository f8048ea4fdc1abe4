-- ===== src/Scripts/Eval/Laws.antt =====
-- The operators on truth values.
use solx_core.Prelude.{not, if◌then◌else◌, ok, err, ◌>>=◌, ◌≡◌, refl, Bool-cases, inl, inr}
use solx_core.Json.{Value, bool}
use solx_core.Surface.Error.{Fallible}
use solx_core.Scripts.Platform.{Platform}
use solx_core.Scripts.Syntax.{Expr, not_, and_, or_}
use solx_core.Scripts.Values.{Ctx, is_truthy}
use solx_core.Scripts.Eval.{eval_expr}

module _ (P : Platform) where
  open P use {Number}

  -- The operators on the outcomes of their operands.
  abbrev negation : Fallible (Value Number) → Fallible (Value Number)
  negation x = do v ← x; ok (bool (not (is_truthy P v)))

  abbrev conjunction : Fallible (Value Number) → Fallible (Value Number) → Fallible (Value Number)
  conjunction x y = do v ← x; if is_truthy P v then y else ok v

  abbrev disjunction : Fallible (Value Number) → Fallible (Value Number) → Fallible (Value Number)
  disjunction x y = do v ← x; if is_truthy P v then ok v else y

  negation-conjunction :
      (x y : Fallible (Value Number))
      → negation (conjunction x y) ≡ disjunction (negation x) (negation y)
  unfolding is_truthy
  negation-conjunction (err e) y = refl
  negation-conjunction (ok v) y = elim (Bool-cases (is_truthy P v)) [
    | inl e ↦ rw e refl
    | inr e ↦ rw (e, e) refl
  ]

  negation-disjunction :
      (x y : Fallible (Value Number))
      → negation (disjunction x y) ≡ conjunction (negation x) (negation y)
  unfolding is_truthy
  negation-disjunction (err e) y = refl
  negation-disjunction (ok v) y = elim (Bool-cases (is_truthy P v)) [
    | inl e ↦ rw (e, e) refl
    | inr e ↦ rw e refl
  ]

  conjunction_assoc :
      (x y z : Fallible (Value Number))
      → conjunction (conjunction x y) z ≡ conjunction x (conjunction y z)
  conjunction_assoc (err e) y z = refl
  conjunction_assoc (ok v) y z = elim (Bool-cases (is_truthy P v)) [
    | inl e ↦ rw e refl
    | inr e ↦ rw (e, e) refl
  ]

  disjunction_assoc :
      (x y z : Fallible (Value Number))
      → disjunction (disjunction x y) z ≡ disjunction x (disjunction y z)
  disjunction_assoc (err e) y z = refl
  disjunction_assoc (ok v) y z = elim (Bool-cases (is_truthy P v)) [
    | inl e ↦ rw (e, e) refl
    | inr e ↦ rw e refl
  ]

  -- `&&` and `||` are associative and `!` exchanges them, with errors and short circuits: the two
  -- expressions have the same value, or fail with the same error.
  pub eval_expr-not_ :
      (a b c : Expr Number) (ctx : Ctx P)
      → (eval_expr P (not_ (and_ a b)) ctx ≡ eval_expr P (or_ (not_ a) (not_ b)) ctx)
        × (eval_expr P (not_ (or_ a b)) ctx ≡ eval_expr P (and_ (not_ a) (not_ b)) ctx)
        × (eval_expr P (and_ (and_ a b) c) ctx ≡ eval_expr P (and_ a (and_ b c)) ctx)
        × (eval_expr P (or_ (or_ a b) c) ctx ≡ eval_expr P (or_ a (or_ b c)) ctx)
  unfolding eval_expr
  eval_expr-not_ a b c ctx =
      let x = eval_expr P a ctx in
      let y = eval_expr P b ctx in
      let z = eval_expr P c ctx in
      (
        negation-conjunction x y,
        negation-disjunction x y,
        conjunction_assoc x y z,
        disjunction_assoc x y z,
      )
