-- ===== src/Scripts/Parser/RoundTrip/Operators.antt =====
-- Reading the operators, from readings of their operands.
use solx_core.Prelude.{
  ℕ, zero, suc, ◌+◌, ◌*◌, ◌≤◌, false, List, [], ◌∷◌, ◌++◌, length, length-append, append_assoc, ok,
  ◌≡◌, refl, arith,
}
use solx_core.Scripts.Syntax.{
  CompareOp, Expr, not_, and_, or_, compare, Token, rbracket, and_token, or_token, not_token, op,
}
use solx_core.Scripts.Parser.{at, is_rbracket, parse_or, or_loop, and_loop}
use solx_core.Scripts.Parser.RoundTrip.Levels.{
  ReadsAtom, ReadsComparison, ReadsUnary, ReadsAnd, ReadsOr, ReadsAnd_whole,
}

module _ {N : Type 0} where
  pub length_joined :
      (ts us : List (Token N)) (t : Token N) → length (ts ++ t ∷ us) ≡ length ts + suc (length us)
  length_joined ts us t = length-append ts (t ∷ us)

  pub ReadsOr-or :
      (ts us : List (Token N)) (a b : Expr N)
      → ReadsOr ts a
      → ReadsAnd us b
      → ReadsOr (ts ++ or_token ∷ us) (or_ a b)
  unfolding parse_or
  ReadsOr-or ts us a b ha hb rest n r stop loop f le = rw (append_assoc ts (or_token ∷ us) rest) (
      ha (or_token ∷ (us ++ rest)) (8 * length us + 7 + n) r refl joined f
        (omega (arith, length_joined ts us or_token)))
    where
      joined : (f' : ℕ) → 8 * length us + 7 + n ≤ f' → or_loop f' a (or_token ∷ (us ++ rest)) ≡ r
      joined zero le' = absurd (omega arith)
      joined (suc f') le' =
          rw (ReadsAnd_whole us b hb rest f' stop (omega arith)) (loop f' (omega arith))

  pub ReadsAnd-and :
      (ts us : List (Token N)) (a b : Expr N)
      → ReadsAnd ts a
      → ReadsUnary us b
      → ReadsAnd (ts ++ and_token ∷ us) (and_ a b)
  unfolding parse_or
  ReadsAnd-and ts us a b ha hb rest n r stop loop f le =
      rw (append_assoc ts (and_token ∷ us) rest) (
        ha (and_token ∷ (us ++ rest)) (8 * length us + 5 + n) r refl joined f
          (omega (arith, length_joined ts us and_token)))
    where
      joined : (f' : ℕ) → 8 * length us + 5 + n ≤ f' → and_loop f' a (and_token ∷ (us ++ rest)) ≡ r
      joined zero le' = absurd (omega arith)
      joined (suc f') le' = rw (hb rest f' stop (omega arith)) (loop f' (omega arith))

  pub ReadsUnary-not :
      (ts : List (Token N)) (a : Expr N) → ReadsUnary ts a → ReadsUnary (not_token ∷ ts) (not_ a)
  unfolding parse_or
  ReadsUnary-not ts a h rest zero stop le = absurd (omega arith)
  ReadsUnary-not ts a h rest (suc f) stop le = rw (h rest f stop (omega arith)) refl

  pub ReadsComparison-compare :
      (o : CompareOp) (ts us : List (Token N)) (a b : Expr N)
      → ReadsAtom ts a
      → ReadsAtom us b
      → ReadsComparison (ts ++ op o ∷ us) (compare o a b)
  unfolding parse_or
  ReadsComparison-compare o ts us a b ha hb rest zero stop le = absurd (omega arith)
  ReadsComparison-compare o ts us a b ha hb rest (suc zero) stop le = absurd (omega arith)
  ReadsComparison-compare o ts us a b ha hb rest (suc (suc f)) stop le =
      let longer = length_joined ts us (op o) in
      rw
        (
          append_assoc ts (op o ∷ us) rest,
          ha (op o ∷ (us ++ rest)) (suc f) (omega (arith, longer)),
          hb rest f (omega (arith, longer)),
        )
        refl

  pub or_loop_end : (e : Expr N) (f : ℕ) → 1 ≤ f → or_loop f e [] ≡ ok (e, [])
  unfolding parse_or
  or_loop_end e zero le = absurd (omega arith)
  or_loop_end e (suc f) le = refl

  -- What is read as an expression starts with no closing bracket.
  pub ReadsOr-at_rbracket :
      (ts rest : List (Token N)) (e : Expr N) → ReadsOr ts e → at is_rbracket (ts ++ rest) ≡ false
  unfolding parse_or
  ReadsOr-at_rbracket [] rest e h =
      let refused = h [] 1 (ok (e, [])) refl (or_loop_end e) 8 (omega arith) in cc refused
  ReadsOr-at_rbracket (rbracket ∷ ts) rest e h =
      let refused =
        h [] 1 (ok (e, [])) refl (or_loop_end e)
          (suc (suc (suc (suc (suc (8 * length (rbracket ∷ ts) + 8)))))) (omega arith) in
      cc refused
  ReadsOr-at_rbracket (t ∷ ts) rest e h = refl
