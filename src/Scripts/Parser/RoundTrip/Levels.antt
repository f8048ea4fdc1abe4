-- ===== src/Scripts/Parser/RoundTrip/Levels.antt =====
-- What it is to read an expression at each level of the grammar, and the steps between the levels.
use solx_core.Prelude.{
  ℕ, zero, suc, ◌+◌, ◌*◌, ◌≤◌, Bool, true, false, List, [], ◌∷◌, ◌++◌, length, length-append,
  append_assoc, ok, ◌≡◌, refl, arith,
}
use solx_core.Scripts.Syntax.{Expr, Token, rparen, and_token, not_token, op}
use solx_core.Scripts.Parser.{
  Parsed, at, parse_or, or_loop, parse_and, and_loop, parse_unary, parse_comparison, compare_rest,
  parse_atom,
}
use solx_core.Scripts.Parser.Printer.{paren}

module _ {N : Type 0} where
  -- The tokens at which a comparison goes on, and those at which a conjunction does.
  abbrev pub is_op : Token N → Bool
  is_op (op o) = true
  is_op _ = false

  abbrev pub is_op_or_and : Token N → Bool
  is_op_or_and (op o) = true
  is_op_or_and and_token = true
  is_op_or_and _ = false

  abbrev pub ReadsAtom : List (Token N) → Expr N → Type 0
  ReadsAtom ts e =
      (rest : List (Token N)) (f : ℕ)
      → 8 * length ts + 1 ≤ f
      → parse_atom f (ts ++ rest) ≡ ok (e, rest)

  abbrev pub ReadsComparison : List (Token N) → Expr N → Type 0
  ReadsComparison ts e =
      (rest : List (Token N)) (f : ℕ)
      → at is_op rest ≡ false
      → 8 * length ts + 3 ≤ f
      → parse_comparison f (ts ++ rest) ≡ ok (e, rest)

  abbrev pub ReadsUnary : List (Token N) → Expr N → Type 0
  ReadsUnary ts e =
      (rest : List (Token N)) (f : ℕ)
      → at is_op rest ≡ false
      → 8 * length ts + 4 ≤ f
      → parse_unary f (ts ++ rest) ≡ ok (e, rest)

  -- A conjunction or disjunction that starts with `e`: the loop goes on from there.
  abbrev pub ReadsAnd : List (Token N) → Expr N → Type 0
  ReadsAnd ts e =
      (rest : List (Token N)) (n : ℕ) (r : Parsed N (Expr N))
      → at is_op rest ≡ false
      → ((f : ℕ) → n ≤ f → and_loop f e rest ≡ r)
      → (f : ℕ) → 8 * length ts + 5 + n ≤ f
      → parse_and f (ts ++ rest) ≡ r

  abbrev pub ReadsOr : List (Token N) → Expr N → Type 0
  ReadsOr ts e =
      (rest : List (Token N)) (n : ℕ) (r : Parsed N (Expr N))
      → at is_op_or_and rest ≡ false
      → ((f : ℕ) → n ≤ f → or_loop f e rest ≡ r)
      → (f : ℕ) → 8 * length ts + 7 + n ≤ f
      → parse_or f (ts ++ rest) ≡ r

  no_op : (rest : List (Token N)) → at is_op_or_and rest ≡ false → at is_op rest ≡ false
  no_op [] h = refl
  no_op (op o ∷ ts) h = cc
  no_op (t ∷ ts) h = refl

  compare_rest_stops :
      (e : Expr N) (rest : List (Token N)) (f : ℕ)
      → at is_op rest ≡ false
      → 1 ≤ f
      → compare_rest f e rest ≡ ok (e, rest)
  unfolding parse_or
  compare_rest_stops e rest zero h le = absurd (omega arith)
  compare_rest_stops e [] (suc f) h le = refl
  compare_rest_stops e (op o ∷ ts) (suc f) h le = cc
  compare_rest_stops e (t ∷ ts) (suc f) h le = refl

  and_loop_stops :
      (e : Expr N) (rest : List (Token N)) (f : ℕ)
      → at is_op_or_and rest ≡ false
      → 1 ≤ f
      → and_loop f e rest ≡ ok (e, rest)
  unfolding parse_or
  and_loop_stops e rest zero h le = absurd (omega arith)
  and_loop_stops e [] (suc f) h le = refl
  and_loop_stops e (and_token ∷ ts) (suc f) h le = cc
  and_loop_stops e (t ∷ ts) (suc f) h le = refl

  pub ReadsComparison-ReadsAtom :
      (ts : List (Token N)) (e : Expr N) → ReadsAtom ts e → ReadsComparison ts e
  unfolding parse_or
  ReadsComparison-ReadsAtom ts e h rest zero stop le = absurd (omega arith)
  ReadsComparison-ReadsAtom ts e h rest (suc f) stop le =
      rw (h rest f (omega arith)) (compare_rest_stops e rest f stop (omega arith))

  pub ReadsUnary-ReadsComparison :
      (ts : List (Token N)) (e : Expr N) → ReadsComparison ts e → ReadsUnary ts e
  unfolding parse_or
  ReadsUnary-ReadsComparison ts e h rest zero stop le = absurd (omega arith)
  ReadsUnary-ReadsComparison [] e h rest (suc f) stop le =
      let refused = h [] 5 refl (omega arith) in cc refused
  ReadsUnary-ReadsComparison (not_token ∷ ts) e h rest (suc f) stop le =
      let refused = h [] (suc (suc (8 * length (not_token ∷ ts) + 1))) refl (omega arith) in
      cc refused
  ReadsUnary-ReadsComparison (t ∷ ts) e h rest (suc f) stop le = h rest f stop (omega arith)

  pub ReadsAnd-ReadsUnary : (ts : List (Token N)) (e : Expr N) → ReadsUnary ts e → ReadsAnd ts e
  unfolding parse_or
  ReadsAnd-ReadsUnary ts e h rest n r stop loop zero le = absurd (omega arith)
  ReadsAnd-ReadsUnary ts e h rest n r stop loop (suc f) le =
      rw (h rest f stop (omega arith)) (loop f (omega arith))

  -- A conjunction that is complete, as an operand of `||`.
  pub ReadsAnd_whole :
      (ts : List (Token N)) (e : Expr N)
      → ReadsAnd ts e
      → (rest : List (Token N)) (f : ℕ) → at is_op_or_and rest ≡ false
      → 8 * length ts + 6 ≤ f
      → parse_and f (ts ++ rest) ≡ ok (e, rest)
  ReadsAnd_whole ts e h rest f stop le =
      h rest 1 (ok (e, rest)) (no_op rest stop) (λ f' le'. and_loop_stops e rest f' stop le') f
        (omega arith)

  pub ReadsOr-ReadsAnd : (ts : List (Token N)) (e : Expr N) → ReadsAnd ts e → ReadsOr ts e
  unfolding parse_or
  ReadsOr-ReadsAnd ts e h rest n r stop loop zero le = absurd (omega arith)
  ReadsOr-ReadsAnd ts e h rest n r stop loop (suc f) le =
      rw (ReadsAnd_whole ts e h rest f stop (omega arith)) (loop f (omega arith))

  pub ReadsAtom-paren : (ts : List (Token N)) (e : Expr N) → ReadsOr ts e → ReadsAtom (paren ts) e
  unfolding parse_or
  ReadsAtom-paren ts e h rest zero le = absurd (omega arith)
  ReadsAtom-paren ts e h rest (suc f) le =
      let inner : parse_or f (ts ++ rparen ∷ rest) ≡ ok (e, rparen ∷ rest) =
        h (rparen ∷ rest) 1 (ok (e, rparen ∷ rest)) refl (λ f' le'. stops f' le') f
          (omega (arith, length-append ts (rparen ∷ []))) in
      rw (append_assoc ts (rparen ∷ []) rest, inner) refl
    where
      stops : (f' : ℕ) → 1 ≤ f' → or_loop f' e (rparen ∷ rest) ≡ ok (e, rparen ∷ rest)
      stops zero le' = absurd (omega arith)
      stops (suc f') le' = refl
