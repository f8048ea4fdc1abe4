-- ===== src/Scripts/Parser/RoundTrip/Printed.antt =====
-- Printed operators and atoms are read at every level, from readings of their parts.
use solx_core.Prelude.{ℕ, List, ◌∷◌, ◌++◌, ◌≡◌}
use solx_core.Scripts.Syntax.{
  CompareOp, Expr, not_, and_, or_, compare, Token, or_token, and_token, not_token, op,
}
use solx_core.Scripts.Parser.Printer.{paren, emit}
use solx_core.Scripts.Parser.RoundTrip.Levels.{
  ReadsAtom, ReadsComparison, ReadsUnary, ReadsAnd, ReadsOr, ReadsComparison-ReadsAtom,
  ReadsUnary-ReadsComparison, ReadsAnd-ReadsUnary, ReadsOr-ReadsAnd, ReadsAtom-paren,
}
use solx_core.Scripts.Parser.RoundTrip.Operators.{
  ReadsOr-or, ReadsAnd-and, ReadsUnary-not, ReadsComparison-compare,
}

module _ {N : Type 0} where
  -- Printed for each level, the expression is read at that level.
  pub record IsRead (e : Expr N) : Type 0 where
    pub disjunction : ReadsOr (emit 0 e) e
    pub conjunction : ReadsAnd (emit 1 e) e
    pub operand : ReadsUnary (emit 2 e) e
    pub comparison : ReadsComparison (emit 3 e) e
    pub atom : ReadsAtom (emit 4 e) e

  -- Tokens that are read as an atom are read at every level.
  module _ (ts : List (Token N)) (e : Expr N) where
    unary_of : ReadsAtom ts e → ReadsUnary ts e
    unary_of h = ReadsUnary-ReadsComparison ts e (ReadsComparison-ReadsAtom ts e h)

    and_of : ReadsUnary ts e → ReadsAnd ts e
    and_of h = ReadsAnd-ReadsUnary ts e h

    or_of : ReadsUnary ts e → ReadsOr ts e
    or_of h = ReadsOr-ReadsAnd ts e (and_of h)

  all_levels :
      (ts : List (Token N)) (e : Expr N)
      → ReadsAtom ts e
      → ReadsOr ts e × ReadsAnd ts e × ReadsUnary ts e × ReadsComparison ts e
  all_levels ts e h =
      let u = unary_of ts e h in (or_of ts e u, and_of ts e u, u, ReadsComparison-ReadsAtom ts e h)

  pub or-IsRead : (a b : Expr N) → IsRead a → IsRead b → IsRead (or_ a b)
  unfolding emit
  or-IsRead a b ha hb =
      let bare = ReadsOr-or (emit 0 a) (emit 1 b) a b ha.disjunction hb.conjunction in
      let closed = ReadsAtom-paren (emit 0 a ++ or_token ∷ emit 1 b) (or_ a b) bare in
      let (o, c, u, m) = all_levels (paren (emit 0 a ++ or_token ∷ emit 1 b)) (or_ a b) closed in
      record { disjunction = bare; conjunction = c; operand = u; comparison = m; atom = closed }

  pub and-IsRead : (a b : Expr N) → IsRead a → IsRead b → IsRead (and_ a b)
  unfolding emit
  and-IsRead a b ha hb =
      let bare = ReadsAnd-and (emit 1 a) (emit 2 b) a b ha.conjunction hb.operand in
      let loose = ReadsOr-ReadsAnd (emit 1 a ++ and_token ∷ emit 2 b) (and_ a b) bare in
      let closed = ReadsAtom-paren (emit 1 a ++ and_token ∷ emit 2 b) (and_ a b) loose in
      let (o, c, u, m) = all_levels (paren (emit 1 a ++ and_token ∷ emit 2 b)) (and_ a b) closed in
      record { disjunction = loose; conjunction = bare; operand = u; comparison = m; atom = closed }

  pub not-IsRead : (a : Expr N) → IsRead a → IsRead (not_ a)
  unfolding emit
  not-IsRead a ha =
      let bare = ReadsUnary-not (emit 2 a) a ha.operand in
      let loose = or_of (not_token ∷ emit 2 a) (not_ a) bare in
      let closed = ReadsAtom-paren (not_token ∷ emit 2 a) (not_ a) loose in
      record {
        disjunction = loose;
        conjunction = and_of (not_token ∷ emit 2 a) (not_ a) bare;
        operand = bare;
        comparison = ReadsComparison-ReadsAtom (paren (not_token ∷ emit 2 a)) (not_ a) closed;
        atom = closed;
      }

  pub compare-IsRead : (o : CompareOp) (a b : Expr N) → IsRead a → IsRead b → IsRead (compare o a b)
  unfolding emit
  compare-IsRead o a b ha hb =
      let bare = ReadsComparison-compare o (emit 4 a) (emit 4 b) a b ha.atom hb.atom in
      let u = ReadsUnary-ReadsComparison (emit 4 a ++ op o ∷ emit 4 b) (compare o a b) bare in
      let loose = or_of (emit 4 a ++ op o ∷ emit 4 b) (compare o a b) u in
      record {
        disjunction = loose;
        conjunction = and_of (emit 4 a ++ op o ∷ emit 4 b) (compare o a b) u;
        operand = u;
        comparison = bare;
        atom = ReadsAtom-paren (emit 4 a ++ op o ∷ emit 4 b) (compare o a b) loose;
      }

  -- An expression that is printed as an atom at every level.
  pub atom-IsRead :
      (ts : List (Token N)) (e : Expr N) → ((p : ℕ) → emit p e ≡ ts) → ReadsAtom ts e → IsRead e
  atom-IsRead ts e same h =
      let (o, c, u, m) = all_levels ts e h in
      record {
        disjunction = rw (same 0) o;
        conjunction = rw (same 1) c;
        operand = rw (same 2) u;
        comparison = rw (same 3) m;
        atom = rw (same 4) h;
      }
