-- ===== src/Scripts/Interp/Frame.antt =====
-- The variables that a script leaves as they are: those it does not assign. A loop leaves its own
-- variable, whatever its body does with it.
use solx_core.Prelude.{
  Bool, true, false, not, ◌&&◌, ◌||◌, Option, Text, text_eq, ok, ◌≡◌, refl, subst,
}
use solx_core.Json.{Value, null}
use solx_core.Scripts.Platform.{Platform}
use solx_core.Scripts.Values.{is_truthy}
use solx_core.Scripts.Eval.{eval_expr}
use solx_core.Scripts.Interp.{
  Runner, Machine, pure_at, execute_pipeline, exec_block, exec_statement, exec_branches,
}
use solx_core.Scripts.Interp.Program.{
  Statement, pipeline, value, if_, for_, wait, Block, done, next, Branches, no_branch, branch,
}
use solx_core.Scripts.Interp.Keeps.{
  names, Keeps, Keeps-bind, Keeps-if, names-Keeps, pure-Keeps, pipeline-Keeps, for-Keeps,
  wait-Keeps,
}

-- Whether a variable is assigned.
abbrev mutual
  pub assigns : {N : Type 0} → Text → Block N → Bool
  assigns x done = false
  assigns x (next stmt stmts) = assigns_one x stmt || assigns x stmts

  pub assigns_one : {N : Type 0} → Text → Statement N → Bool
  assigns_one x (pipeline name src) = names name x
  assigns_one x (value name e) = names name x
  assigns_one x (if_ branches) = assigns_any x branches
  assigns_one x (for_ item source body) = not (text_eq x item) && assigns x body
  assigns_one x (wait amount) = false

  pub assigns_any : {N : Type 0} → Text → Branches N → Bool
  assigns_any x (no_branch otherwise) = assigns x otherwise
  assigns_any x (branch e body rest) = assigns x body || assigns_any x rest

module _ (P : Platform) (R : Runner P) where
  open P use {Number}

  or_false : (a b : Bool) → (a || b) ≡ false → (a ≡ false) × (b ≡ false)
  or_false false b h = (refl, h)
  or_false true b h = cc

  mutual
    unfolding exec_block

    block-Keeps :
        (x : Text) (c : Option (Value Number)) (stmts : Block Number) (last : Value Number)
        (m : Machine P R)
        → assigns x stmts ≡ false
        → m.ctx x ≡ c
        → Keeps P R x c (exec_block P R stmts last m)
    block-Keeps x c done last m free h = h
    block-Keeps x c (next stmt stmts) last m free h =
        let (f, g) = or_false (assigns_one x stmt) (assigns x stmts) free in
        Keeps-bind P R x c (exec_statement P R stmt m) _ (statement-Keeps x c stmt m f h)
          λ last' m' h'. block-Keeps x c stmts last' m' g h'

    statement-Keeps :
        (x : Text) (c : Option (Value Number)) (stmt : Statement Number) (m : Machine P R)
        → assigns_one x stmt ≡ false
        → m.ctx x ≡ c
        → Keeps P R x c (exec_statement P R stmt m)
    statement-Keeps x c (pipeline name src) m free h =
        names-Keeps P R x c name (execute_pipeline P R src m) free (pipeline-Keeps P R x c src m h)
    statement-Keeps x c (value name e) m free h =
        names-Keeps P R x c name (pure_at P R m (eval_expr P e m.ctx)) free
          (pure-Keeps P R x c m (eval_expr P e m.ctx) h)
    statement-Keeps x c (if_ branches) m free h = branches-Keeps x c branches m free h
    statement-Keeps x c (for_ item source body) m free h =
        for-Keeps P R x c item source (λ m'. exec_block P R body null m') m
          (λ other m' h'. block-Keeps x c body null m' (rw other at free) h') h
    statement-Keeps x c (wait amount) m free h = wait-Keeps P R x c amount m h

    branches-Keeps :
        (x : Text) (c : Option (Value Number)) (branches : Branches Number) (m : Machine P R)
        → assigns_any x branches ≡ false
        → m.ctx x ≡ c
        → Keeps P R x c (exec_branches P R branches m)
    branches-Keeps x c (no_branch otherwise) m free h = block-Keeps x c otherwise null m free h
    branches-Keeps x c (branch e body rest) m free h =
        let (f, g) = or_false (assigns x body) (assigns_any x rest) free in
        Keeps-bind P R x c (pure_at P R m (eval_expr P e m.ctx)) _
          (pure-Keeps P R x c m (eval_expr P e m.ctx) h)
          λ v m' h'.
            Keeps-if P R x c (is_truthy P v) _ _ (block-Keeps x c body null m' f h')
              (branches-Keeps x c rest m' g h')

  -- A block that succeeds leaves every variable that it does not assign as it was, whatever its
  -- commands do. Assigned are the variables of its assignments, at any depth; but in a loop not the
  -- loop's own variable, which has its old value back, or none, also where the body assigns it.
  pub exec_block-ctx :
      (stmts : Block Number) (last v : Value Number) (m m' : Machine P R) (x : Text)
      → assigns x stmts ≡ false
      → exec_block P R stmts last m ≡ ok (v, m')
      → m'.ctx x ≡ m.ctx x
  exec_block-ctx stmts last v m m' x free ran_ =
      subst (Keeps P R x (m.ctx x)) ran_ (block-Keeps x (m.ctx x) stmts last m free refl)
