-- ===== src/Scripts/Interp.antt =====
-- solx-scripts/src/interp.rs and lib.rs: the interpreter of statements. The commands of the runner and
-- the timer are parameters, which change a world; an error comes with the variables and the world
-- that it leaves.
pub mod Program
pub mod Loops
pub mod Keeps
pub mod Frame
use solx_core.Prelude.{
  ℕ, zero, suc, ◌-◌, ℤ, pos, negsuc, Bool, true, false, ◌&&◌, ◌||◌, Option, none, some, List, [],
  ◌∷◌, if◌then◌else◌, is_empty, ltb, ◌==◌, Text, codes, Result, ok, err, ◌>>=◌,
}
use solx_core.Json.{Value, Items, null, number, array, object, nil, cons, end, field}
use solx_core.Surface.Error.{SolxError, invalid, Fallible}
use solx_core.Surface.Path.{trim}
use solx_core.Scripts.Platform.{Platform}
use solx_core.Scripts.Syntax.{Expr}
use solx_core.Scripts.Values.{Ctx, is_truthy}
use solx_core.Scripts.Eval.{eval_expr}
use solx_core.Scripts.Quotes.{split_respecting_quotes_by}
use solx_core.Scripts.Stage.{
  StageArg, text_arg, literal_arg, tokenize_stage_args, is_name_char, substitute_vars_in_token,
}
use solx_core.Scripts.Lexer.{parse_expr}
use solx_core.Scripts.Interp.Program.{
  ForSource, from_pipeline, range, Statement, pipeline, value, if_, for_, wait, Block, done, next,
  Branches, no_branch, branch, set_var, remove_var,
}
use solx_core.Scripts.Interp.Loops.{succ, pred, at_most_zero, span}

-- The command runner and the timer.
pub record Runner (P : Platform) : Type 1 where
  pub World : Type 0
  pub run : List Text → Option (Value P.Number) → World → Fallible (Value P.Number) × World
  pub sleep : P.Float → World → World

module _ (P : Platform) (R : Runner P) where
  open P use {
    Number, Float, from_i64, from_f64, f64_lt, f64_min, f64_zero, max_wait_secs, parse_f64, to_json,
  }

  pub record Machine : Type 0 where
    pub ctx : Ctx P
    pub world : R.World

  abbrev pub Outcome : Type 0
  Outcome = Result (Value Number × Machine) (SolxError × Machine)

  -- A computation that changes nothing.
  abbrev pub pure_at : Machine → Fallible (Value Number) → Outcome
  pure_at m (err e) = err (e, m)
  pure_at m (ok v) = ok (v, m)

  -- The separator test of `execute_pipeline`: a bar outside brackets.
  abbrev pub is_bar : ℤ → ℕ → Bool × ℤ
  is_bar depth c =
      let inner =
        if c == b'{' || c == b'['
        then succ depth
        else if c == b'}' || c == b']'
        then pred depth
        else depth in
      (c == b'|' && at_most_zero inner, inner)

  abbrev pub arg_text : StageArg → Ctx P → Fallible Text
  arg_text (text_arg t) ctx = ok (substitute_vars_in_token P t ctx)
  arg_text (literal_arg src) ctx = do e ← parse_expr P src; v ← eval_expr P e ctx; ok (to_json v)

  unfoldable pub stage_tokens : List StageArg → Ctx P → Fallible (List Text)
  stage_tokens [] ctx = ok []
  stage_tokens (arg ∷ args) ctx = do t ← arg_text arg ctx; ts ← stage_tokens args ctx; ok (t ∷ ts)

  -- What a stage leaves behind: the outcome with the world, and for no command what was piped.
  abbrev pub ran : Ctx P → Fallible (Value Number) × R.World → Outcome
  ran c (r, w) = pure_at (record { ctx = c; world = w }) r

  abbrev pub piped_of : Outcome → Result (Option (Value Number) × Machine) (SolxError × Machine)
  piped_of (err e) = err e
  piped_of (ok (v, m)) = ok (some v, m)

  abbrev pub run_tokens :
      Option (Value Number)
      → Machine
      → Fallible (List Text)
      → Result (Option (Value Number) × Machine) (SolxError × Machine)
  run_tokens piped m (err e) = err (e, m)
  run_tokens piped m (ok []) = ok (piped, m)
  run_tokens piped m (ok (t ∷ ts)) = piped_of (ran m.ctx (R.run (t ∷ ts) piped m.world))

  unfoldable pub run_stages : List Text → Option (Value Number) → Machine → Outcome
  run_stages [] none m = ok (null, m)
  run_stages [] (some v) m = ok (v, m)
  run_stages (stage ∷ stages) piped m =
      if is_empty (trim stage) then run_stages stages piped m else (do
        (piped', m') ← run_tokens piped m (stage_tokens (tokenize_stage_args (trim stage)) m.ctx)
        run_stages stages piped' m')

  unfoldable pub execute_pipeline : Text → Machine → Outcome
  execute_pipeline src m = run_stages (split_respecting_quotes_by is_bar (pos 0) src) none m

  -- The variable of an assignment, where there is one, is given the value.
  abbrev pub store : Option Text → Value Number × Machine → Value Number × Machine
  store none (v, m) = (v, m)
  store (some name) (v, m) = (v, record { ctx = set_var P name v m.ctx; world = m.world })

  abbrev pub with_var : Option Text → Outcome → Outcome
  with_var name (err e) = err e
  with_var name (ok r) = ok (store name r)

  unfoldable pub all_name_chars : Text → Bool
  all_name_chars [] = true
  all_name_chars (c ∷ s) = is_name_char P c && all_name_chars s

  abbrev strip_dollar : Text → Option Text
  strip_dollar [] = none
  strip_dollar (c ∷ s) =
      if c == b'$' && (if is_empty s then false else all_name_chars s) then some s else none

  unfoldable pub bare_var_ref : Text → Option Text
  bare_var_ref src = strip_dollar (trim src)

  abbrev pub eval_source : Text → Ctx P → Fallible (Value Number)
  eval_source src ctx = do e ← parse_expr P src; eval_expr P e ctx

  abbrev pub coerce_to_items : Value Number → Items Number
  coerce_to_items (array vs) = vs
  coerce_to_items null = nil
  coerce_to_items v = cons v nil

  -- So many integers from a first one on.
  unfoldable pub int_items : ℕ → ℤ → Items Number
  int_items zero i = nil
  int_items (suc n) i = cons (number (from_i64 i)) (int_items n (succ i))

  abbrev pub Sourced : Type 0
  Sourced = Result (Items Number × Machine) (SolxError × Machine)

  abbrev pub items_of : Outcome → Sourced
  items_of (err e) = err e
  items_of (ok (v, m)) = ok (coerce_to_items v, m)

  unfoldable pub source_items : ForSource → Machine → Sourced
  source_items (range start stop) m = ok (int_items (span start stop) start, m)
  source_items (from_pipeline src) m = elim (bare_var_ref src) [
    | some name ↦ items_of (pure_at m (eval_source (b'$' ∷ name) m.ctx))
    | none ↦ items_of (execute_pipeline src m)
  ]

  -- The loop over the items, with the value of the last run.
  unfoldable pub each : Text → (Machine → Outcome) → Items Number → Value Number → Machine → Outcome
  each item body nil last m = ok (last, m)
  each item body (cons v vs) last m = do
    (last', m') ← body (record { ctx = set_var P item v m.ctx; world = m.world })
    each item body vs last' m'

  abbrev pub restore : Text → Option (Value Number) → Ctx P → Ctx P
  restore item none ctx = remove_var P item ctx
  restore item (some v) ctx = set_var P item v ctx

  unfoldable pub exec_for : Text → ForSource → (Machine → Outcome) → Machine → Outcome
  exec_for item source body m = do
    (items, m₁) ← source_items source m
    (last, m₂) ←
        each item body items null (record { ctx = remove_var P item m₁.ctx; world = m₁.world })
    ok (last, record { ctx = restore item (m₁.ctx item) m₂.ctx; world = m₂.world })

  abbrev pub float_value : Float → Value Number
  float_value f = elim (from_f64 f) [ none ↦ null | some n ↦ number n ]

  abbrev slept : Machine → Float → Outcome
  slept m secs = ok (
    object (field (codes "waited_secs") (float_value secs) end),
    record { ctx = m.ctx; world = R.sleep secs m.world },
  )

  abbrev wait_secs : Machine → Option Float → Outcome
  wait_secs m none = err (invalid, m)
  wait_secs m (some secs) =
      if f64_lt secs f64_zero then err (invalid, m) else slept m (f64_min secs max_wait_secs)

  unfoldable pub exec_wait : Text → Machine → Outcome
  exec_wait amount m = wait_secs m (parse_f64 (trim (substitute_vars_in_token P amount m.ctx)))

  unfoldable mutual
    pub exec_block : Block Number → Value Number → Machine → Outcome
    exec_block done last m = ok (last, m)
    exec_block (next stmt stmts) last m = do
      (last', m') ← exec_statement stmt m
      exec_block stmts last' m'

    pub exec_statement : Statement Number → Machine → Outcome
    exec_statement (pipeline name src) m = with_var name (execute_pipeline src m)
    exec_statement (value name e) m = with_var name (pure_at m (eval_expr P e m.ctx))
    exec_statement (if_ branches) m = exec_branches branches m
    exec_statement (for_ item source body) m =
        exec_for item source (λ m'. exec_block body null m') m
    exec_statement (wait amount) m = exec_wait amount m

    -- The branches of an `if`, with the block of `else` at their end.
    pub exec_branches : Branches Number → Machine → Outcome
    exec_branches (no_branch otherwise) m = exec_block otherwise null m
    exec_branches (branch e body rest) m = do
      (v, m') ← pure_at m (eval_expr P e m.ctx)
      if is_truthy P v then exec_block body null m' else exec_branches rest m'
