-- ===== src/Scripts/Parser.antt =====
-- solx-scripts/src/expr.rs: the recursive descent parser. The position in the token list is the list
-- of the tokens that are left. Each call spends a unit of fuel, since a call leaves no structural part
-- of its tokens; `out_of_fuel` has no counterpart in the source.
pub mod Leaves
pub mod Total
pub mod Printer
pub mod RoundTrip
use solx_core.Prelude.{
  ℕ, zero, suc, ◌+◌, ◌*◌, Bool, true, false, ◌||◌, List, [], ◌∷◌, if◌then◌else◌, is_empty, length,
  Text, Result, ok, err, ◌>>=◌,
}
use solx_core.Json.{null, bool, number, string}
use solx_core.Scripts.Syntax.{
  TemplatePart, text, Expr, literal, var, template, object_of, array_of, not_, and_, or_, compare,
  Exprs, no_items, item, Pairs, no_pairs, pair, Token, lparen, rparen, and_token, or_token,
  not_token, op, var_token, str, template_token, num, lbrace, rbrace, lbracket, rbracket, comma,
  colon, bool_token, null_token,
}

pub data Stop : Type 0 where
  invalid_expr out_of_fuel : Stop

abbrev pub Parsed : Type 0 → Type 0 → Type 0
Parsed N A = Result (A × List (Token N)) Stop

module _ {N : Type 0} where
  abbrev pub is_rbracket : Token N → Bool
  is_rbracket rbracket = true
  is_rbracket _ = false

  abbrev pub is_rbrace : Token N → Bool
  is_rbrace rbrace = true
  is_rbrace _ = false

  -- `peek` against one token.
  abbrev pub at : (Token N → Bool) → List (Token N) → Bool
  at p [] = false
  at p (t ∷ ts) = p t

  abbrev pub rest_of : List (Token N) → List (Token N)
  rest_of [] = []
  rest_of (t ∷ ts) = ts

  abbrev pub expect_rparen : Expr N → List (Token N) → Parsed N (Expr N)
  expect_rparen e (rparen ∷ ts) = ok (e, ts)
  expect_rparen e ts = err invalid_expr

  abbrev pub expect_colon : List (Token N) → Parsed N (Unit {0})
  expect_colon (colon ∷ ts) = ok (tt, ts)
  expect_colon ts = err invalid_expr

  -- `end_of_item`: a comma, or the closing token, which is left.
  abbrev pub end_of_item : (Token N → Bool) → List (Token N) → Parsed N (Unit {0})
  end_of_item close (comma ∷ ts) = ok (tt, ts)
  end_of_item close ts = if at close ts then ok (tt, ts) else err invalid_expr

  unfoldable pub template_expr : List TemplatePart → Expr N
  template_expr (text t ∷ []) = literal (string t)
  template_expr parts = template parts

  abbrev pub object_key : List (Token N) → Parsed N (Expr N)
  object_key (str k ∷ ts) = ok (literal (string k), ts)
  object_key (template_token parts ∷ ts) = ok (template_expr parts, ts)
  object_key ts = err invalid_expr

  unfoldable mutual
    pub parse_or : ℕ → List (Token N) → Parsed N (Expr N)
    parse_or zero ts = err out_of_fuel
    parse_or (suc f) ts = do (lhs, ts₁) ← parse_and f ts; or_loop f lhs ts₁

    pub or_loop : ℕ → Expr N → List (Token N) → Parsed N (Expr N)
    or_loop zero lhs ts = err out_of_fuel
    or_loop (suc f) lhs (or_token ∷ ts) = do
      (rhs, ts₁) ← parse_and f ts
      or_loop f (or_ lhs rhs) ts₁
    or_loop (suc f) lhs ts = ok (lhs, ts)

    pub parse_and : ℕ → List (Token N) → Parsed N (Expr N)
    parse_and zero ts = err out_of_fuel
    parse_and (suc f) ts = do (lhs, ts₁) ← parse_unary f ts; and_loop f lhs ts₁

    pub and_loop : ℕ → Expr N → List (Token N) → Parsed N (Expr N)
    and_loop zero lhs ts = err out_of_fuel
    and_loop (suc f) lhs (and_token ∷ ts) = do
      (rhs, ts₁) ← parse_unary f ts
      and_loop f (and_ lhs rhs) ts₁
    and_loop (suc f) lhs ts = ok (lhs, ts)

    pub parse_unary : ℕ → List (Token N) → Parsed N (Expr N)
    parse_unary zero ts = err out_of_fuel
    parse_unary (suc f) (not_token ∷ ts) = do (inner, ts₁) ← parse_unary f ts; ok (not_ inner, ts₁)
    parse_unary (suc f) ts = parse_comparison f ts

    pub parse_comparison : ℕ → List (Token N) → Parsed N (Expr N)
    parse_comparison zero ts = err out_of_fuel
    parse_comparison (suc f) ts = do (lhs, ts₁) ← parse_atom f ts; compare_rest f lhs ts₁

    pub compare_rest : ℕ → Expr N → List (Token N) → Parsed N (Expr N)
    compare_rest zero lhs ts = err out_of_fuel
    compare_rest (suc f) lhs (op o ∷ ts) = do
      (rhs, ts₁) ← parse_atom f ts
      ok (compare o lhs rhs, ts₁)
    compare_rest (suc f) lhs ts = ok (lhs, ts)

    pub parse_atom : ℕ → List (Token N) → Parsed N (Expr N)
    parse_atom zero ts = err out_of_fuel
    parse_atom (suc f) (lparen ∷ ts) = do (inner, ts₁) ← parse_or f ts; expect_rparen inner ts₁
    parse_atom (suc f) (var_token name ∷ ts) = ok (var name, ts)
    parse_atom (suc f) (str s ∷ ts) = ok (literal (string s), ts)
    parse_atom (suc f) (template_token parts ∷ ts) = ok (template_expr parts, ts)
    parse_atom (suc f) (num n ∷ ts) = ok (literal (number n), ts)
    parse_atom (suc f) (bool_token b ∷ ts) = ok (literal (bool b), ts)
    parse_atom (suc f) (null_token ∷ ts) = ok (literal null, ts)
    parse_atom (suc f) (lbracket ∷ ts) = do (es, ts₁) ← parse_items f ts; ok (array_of es, ts₁)
    parse_atom (suc f) (lbrace ∷ ts) = do (ps, ts₁) ← parse_pairs f ts; ok (object_of ps, ts₁)
    parse_atom (suc f) ts = err invalid_expr

    -- The loop over an array's items.
    pub parse_items : ℕ → List (Token N) → Parsed N (Exprs N)
    parse_items zero ts = err out_of_fuel
    parse_items (suc f) ts =
        let more = do
          (e, ts₁) ← parse_or f ts
          (_, ts₂) ← end_of_item is_rbracket ts₁
          (es, ts₃) ← parse_items f ts₂
          ok (item e es, ts₃)
        in if at is_rbracket ts then ok (no_items, rest_of ts) else more

    -- The loop over an object's fields.
    pub parse_pairs : ℕ → List (Token N) → Parsed N (Pairs N)
    parse_pairs zero ts = err out_of_fuel
    parse_pairs (suc f) ts =
        let more = do
          (key, ts₁) ← object_key ts
          (_, ts₂) ← expect_colon ts₁
          (e, ts₃) ← parse_or f ts₂
          (_, ts₄) ← end_of_item is_rbrace ts₃
          (ps, ts₅) ← parse_pairs f ts₄
          ok (pair key e ps, ts₅)
        in if at is_rbrace ts then ok (no_pairs, rest_of ts) else more

  abbrev pub whole : Expr N × List (Token N) → Result (Expr N) Stop
  whole (e, []) = ok e
  whole (e, t ∷ ts) = err invalid_expr

  -- `parse_expr` behind the lexer, with eight units of fuel for each token.
  unfoldable pub parse_tokens : List (Token N) → Result (Expr N) Stop
  parse_tokens ts =
      if is_empty ts
      then err invalid_expr
      else (do parsed ← parse_or (8 * length ts + 8) ts; whole parsed)
