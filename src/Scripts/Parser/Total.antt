-- ===== src/Scripts/Parser/Total.antt =====
-- The fuel of the parser suffices: eight units for each token, as every call either consumes a token or
-- goes one level down in the grammar.
use solx_core.Prelude.{
  ℕ, zero, suc, ◌+◌, ◌*◌, ◌<◌, Bool, true, false, List, [], ◌∷◌, if◌then◌else◌, length, ok, err,
  ◌>>=◌, ◌≡◌, ◌≢◌, arith,
}
use solx_core.Scripts.Syntax.{
  Expr, Token, lparen, rparen, and_token, or_token, not_token, op, var_token, str, template_token,
  num, lbrace, lbracket, comma, colon, bool_token, null_token,
}
use solx_core.Scripts.Parser.{
  invalid_expr, out_of_fuel, Parsed, is_rbracket, is_rbrace, at, rest_of, expect_rparen,
  expect_colon, end_of_item, object_key, parse_or, or_loop, parse_and, and_loop, parse_unary,
  parse_comparison, compare_rest, parse_atom, parse_items, parse_pairs, whole, parse_tokens,
}
use solx_core.Scripts.Parser.Leaves.{Leaves, took, refused, Leaves-bind, Leaves-if, Leaves-weaken}

module _ {N : Type 0} where
  expect_rparen-Leaves :
      (e : Expr N) (ts : List (Token N)) → Leaves (length ts) (expect_rparen e ts)
  expect_rparen-Leaves e (rparen ∷ ts) = took (omega arith)
  expect_rparen-Leaves e _ = refused

  expect_colon-Leaves : (ts : List (Token N)) → Leaves (length ts) (expect_colon ts)
  expect_colon-Leaves (colon ∷ ts) = took (omega arith)
  expect_colon-Leaves _ = refused

  closing-Leaves :
      (b : Bool) (ts : List (Token N))
      → Leaves {A = Unit {0}} (suc (length ts)) (if b then ok (tt, ts) else err invalid_expr)
  closing-Leaves true ts = took (omega arith)
  closing-Leaves false ts = refused

  end_of_item-Leaves :
      (close : Token N → Bool) (ts : List (Token N))
      → Leaves (suc (length ts)) (end_of_item close ts)
  end_of_item-Leaves close (comma ∷ ts) = took (omega arith)
  end_of_item-Leaves close [] = refused
  end_of_item-Leaves close (t ∷ ts) = closing-Leaves (close t) (t ∷ ts)

  object_key-Leaves : (ts : List (Token N)) → Leaves (length ts) (object_key ts)
  object_key-Leaves (str k ∷ ts) = took (omega arith)
  object_key-Leaves (template_token parts ∷ ts) = took (omega arith)
  object_key-Leaves _ = refused

  at_shorter :
      (p : Token N → Bool) (ts : List (Token N)) → at p ts ≡ true → length (rest_of ts) < length ts
  at_shorter p [] h = cc
  at_shorter p (t ∷ ts) h = omega arith

  mutual
    unfolding parse_or

    parse_or-Leaves :
        (f : ℕ) (ts : List (Token N)) → 8 * length ts + 4 < f → Leaves (length ts) (parse_or f ts)
    parse_or-Leaves zero ts h = absurd (omega arith)
    parse_or-Leaves (suc f) ts h =
        Leaves-bind _ (parse_and-Leaves f ts (omega arith))
          λ lhs ts₁ l. Leaves-weaken (omega arith) (or_loop-Leaves f lhs ts₁ (omega arith))

    or_loop-Leaves :
        (f : ℕ) (lhs : Expr N) (ts : List (Token N))
        → 8 * length ts < f
        → Leaves (suc (length ts)) (or_loop f lhs ts)
    or_loop-Leaves zero lhs ts h = absurd (omega arith)
    or_loop-Leaves (suc f) lhs (or_token ∷ ts) h =
        Leaves-bind _ (parse_and-Leaves f ts (omega arith))
          λ rhs ts₁ l. Leaves-weaken (omega arith) (or_loop-Leaves f _ ts₁ (omega arith))
    or_loop-Leaves (suc f) lhs _ h = took (omega arith)

    parse_and-Leaves :
        (f : ℕ) (ts : List (Token N)) → 8 * length ts + 3 < f → Leaves (length ts) (parse_and f ts)
    parse_and-Leaves zero ts h = absurd (omega arith)
    parse_and-Leaves (suc f) ts h =
        Leaves-bind _ (parse_unary-Leaves f ts (omega arith))
          λ lhs ts₁ l. Leaves-weaken (omega arith) (and_loop-Leaves f lhs ts₁ (omega arith))

    and_loop-Leaves :
        (f : ℕ) (lhs : Expr N) (ts : List (Token N))
        → 8 * length ts < f
        → Leaves (suc (length ts)) (and_loop f lhs ts)
    and_loop-Leaves zero lhs ts h = absurd (omega arith)
    and_loop-Leaves (suc f) lhs (and_token ∷ ts) h =
        Leaves-bind _ (parse_unary-Leaves f ts (omega arith))
          λ rhs ts₁ l. Leaves-weaken (omega arith) (and_loop-Leaves f _ ts₁ (omega arith))
    and_loop-Leaves (suc f) lhs _ h = took (omega arith)

    parse_unary-Leaves :
        (f : ℕ) (ts : List (Token N))
        → 8 * length ts + 2 < f
        → Leaves (length ts) (parse_unary f ts)
    parse_unary-Leaves zero ts h = absurd (omega arith)
    parse_unary-Leaves (suc f) (not_token ∷ ts) h =
        Leaves-bind _ (parse_unary-Leaves f ts (omega arith)) λ inner ts₁ l. took (omega arith)
    parse_unary-Leaves (suc f) ts h = parse_comparison-Leaves f ts (omega arith)

    parse_comparison-Leaves :
        (f : ℕ) (ts : List (Token N))
        → 8 * length ts + 1 < f
        → Leaves (length ts) (parse_comparison f ts)
    parse_comparison-Leaves zero ts h = absurd (omega arith)
    parse_comparison-Leaves (suc f) ts h =
        Leaves-bind _ (parse_atom-Leaves f ts (omega arith))
          λ lhs ts₁ l. Leaves-weaken (omega arith) (compare_rest-Leaves f lhs ts₁ (omega arith))

    compare_rest-Leaves :
        (f : ℕ) (lhs : Expr N) (ts : List (Token N))
        → 8 * length ts < f
        → Leaves (suc (length ts)) (compare_rest f lhs ts)
    compare_rest-Leaves zero lhs ts h = absurd (omega arith)
    compare_rest-Leaves (suc f) lhs (op o ∷ ts) h =
        Leaves-bind _ (parse_atom-Leaves f ts (omega arith)) λ rhs ts₁ l. took (omega arith)
    compare_rest-Leaves (suc f) lhs _ h = took (omega arith)

    parse_atom-Leaves :
        (f : ℕ) (ts : List (Token N)) → 8 * length ts < f → Leaves (length ts) (parse_atom f ts)
    parse_atom-Leaves zero ts h = absurd (omega arith)
    parse_atom-Leaves (suc f) (lparen ∷ ts) h =
        Leaves-bind _ (parse_or-Leaves f ts (omega arith))
          λ inner ts₁ l. Leaves-weaken (omega arith) (expect_rparen-Leaves inner ts₁)
    parse_atom-Leaves (suc f) (var_token _ ∷ ts) h = took (omega arith)
    parse_atom-Leaves (suc f) (str _ ∷ ts) h = took (omega arith)
    parse_atom-Leaves (suc f) (template_token _ ∷ ts) h = took (omega arith)
    parse_atom-Leaves (suc f) (num _ ∷ ts) h = took (omega arith)
    parse_atom-Leaves (suc f) (bool_token _ ∷ ts) h = took (omega arith)
    parse_atom-Leaves (suc f) (null_token ∷ ts) h = took (omega arith)
    parse_atom-Leaves (suc f) (lbracket ∷ ts) h =
        Leaves-bind _ (parse_items-Leaves f ts (omega arith)) λ es ts₁ l. took (omega arith)
    parse_atom-Leaves (suc f) (lbrace ∷ ts) h =
        Leaves-bind _ (parse_pairs-Leaves f ts (omega arith)) λ ps ts₁ l. took (omega arith)
    parse_atom-Leaves (suc f) _ h = refused

    parse_items-Leaves :
        (f : ℕ) (ts : List (Token N))
        → 8 * length ts + 5 < f
        → Leaves (length ts) (parse_items f ts)
    parse_items-Leaves zero ts h = absurd (omega arith)
    parse_items-Leaves (suc f) ts h =
        Leaves-if (at is_rbracket ts) (λ e. took (at_shorter is_rbracket ts e))
          (Leaves-bind _ (parse_or-Leaves f ts (omega arith)) λ e ts₁ l₁.
            Leaves-bind _ (end_of_item-Leaves is_rbracket ts₁) λ _ ts₂ l₂.
              Leaves-bind _ (parse_items-Leaves f ts₂ (omega arith))
                λ es ts₃ l₃. took (omega arith))

    parse_pairs-Leaves :
        (f : ℕ) (ts : List (Token N))
        → 8 * length ts + 5 < f
        → Leaves (length ts) (parse_pairs f ts)
    parse_pairs-Leaves zero ts h = absurd (omega arith)
    parse_pairs-Leaves (suc f) ts h =
        Leaves-if (at is_rbrace ts) (λ e. took (at_shorter is_rbrace ts e))
          (Leaves-bind _ (object_key-Leaves ts) λ key ts₁ l₁.
            Leaves-bind _ (expect_colon-Leaves ts₁) λ _ ts₂ l₂.
              Leaves-bind _ (parse_or-Leaves f ts₂ (omega arith)) λ e ts₃ l₃.
                Leaves-bind _ (end_of_item-Leaves is_rbrace ts₃) λ _ ts₄ l₄.
                  Leaves-bind _ (parse_pairs-Leaves f ts₄ (omega arith))
                    λ ps ts₅ l₅. took (omega arith))

  whole-ne-out_of_fuel :
      {n : ℕ} {r : Parsed N (Expr N)} → Leaves n r → (r >>= whole) ≢ err out_of_fuel
  whole-ne-out_of_fuel (took {ts = []} l) = cc
  whole-ne-out_of_fuel (took {ts = t ∷ ts} l) = cc
  whole-ne-out_of_fuel refused = cc

  -- The parser ends: on every list of tokens it returns an expression or refuses, and never runs out of
  -- its fuel.
  pub parse_tokens-ne-out_of_fuel : (ts : List (Token N)) → parse_tokens ts ≢ err out_of_fuel
  unfolding parse_tokens
  parse_tokens-ne-out_of_fuel [] = cc
  parse_tokens-ne-out_of_fuel (t ∷ ts) =
      whole-ne-out_of_fuel (parse_or-Leaves (8 * length (t ∷ ts) + 8) (t ∷ ts) (omega arith))
