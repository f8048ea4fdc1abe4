-- ===== src/Scripts/Parser/Printer.antt =====
-- Expressions printed as tokens, with parentheses only where the precedences ask for them. The levels
-- are those of the parser: 0 for `||`, 1 for `&&`, 2 for `!`, 3 for comparisons, 4 for atoms.
use solx_core.Prelude.{ℕ, List, [], ◌∷◌, ◌++◌, if◌then◌else◌, ltb, ◌≡◌}
use solx_core.Json.{Value, bool, number, string, array, object}
use solx_core.Scripts.Syntax.{
  Expr, literal, var, template, object_of, array_of, not_, and_, or_, compare, Exprs, no_items,
  item, Pairs, no_pairs, pair, Token, lparen, rparen, and_token, or_token, not_token, op, var_token,
  str, template_token, num, lbrace, rbrace, lbracket, rbracket, comma, colon, bool_token,
  null_token,
}
use solx_core.Scripts.Parser.{template_expr}

module _ {N : Type 0} where
  abbrev pub literal_token : Value N → Token N
  literal_token (string s) = str s
  literal_token (number n) = num n
  literal_token (bool b) = bool_token b
  literal_token _ = null_token

  abbrev pub paren : List (Token N) → List (Token N)
  paren ts = lparen ∷ (ts ++ rparen ∷ [])

  -- Parentheses around what binds weaker than the place where it stands.
  abbrev pub place : ℕ → ℕ → List (Token N) → List (Token N)
  place own level ts = if ltb own level then paren ts else ts

  unfoldable mutual
    pub emit : ℕ → Expr N → List (Token N)
    emit p (literal v) = literal_token v ∷ []
    emit p (var name) = var_token name ∷ []
    emit p (template parts) = template_token parts ∷ []
    emit p (array_of es) = lbracket ∷ emit_items es
    emit p (object_of ps) = lbrace ∷ emit_pairs ps
    emit p (or_ a b) = place 0 p (emit 0 a ++ or_token ∷ emit 1 b)
    emit p (and_ a b) = place 1 p (emit 1 a ++ and_token ∷ emit 2 b)
    emit p (not_ a) = place 2 p (not_token ∷ emit 2 a)
    emit p (compare o a b) = place 3 p (emit 4 a ++ op o ∷ emit 4 b)

    pub emit_items : Exprs N → List (Token N)
    emit_items no_items = rbracket ∷ []
    emit_items (item e no_items) = emit 0 e ++ rbracket ∷ []
    emit_items (item e (item d es)) = emit 0 e ++ comma ∷ emit_items (item d es)

    pub emit_pairs : Pairs N → List (Token N)
    emit_pairs no_pairs = rbrace ∷ []
    emit_pairs (pair k e no_pairs) = emit 4 k ++ colon ∷ (emit 0 e ++ rbrace ∷ [])
    emit_pairs (pair k e (pair l d ps)) =
        emit 4 k ++ colon ∷ (emit 0 e ++ comma ∷ emit_pairs (pair l d ps))

  -- The literals that are tokens, and the templates that are not plain texts.
  abbrev pub IsScalar : Value N → Type 0
  IsScalar (array vs) = ⊥
  IsScalar (object fs) = ⊥
  IsScalar _ = Unit

  abbrev pub IsKey : Expr N → Type 0
  IsKey (literal (string s)) = Unit
  IsKey (template parts) = template_expr {N = N} parts ≡ template parts
  IsKey _ = ⊥

  abbrev mutual
    pub IsSource : Expr N → Type 0
    IsSource (literal v) = IsScalar v
    IsSource (var name) = Unit
    IsSource (template parts) = template_expr {N = N} parts ≡ template parts
    IsSource (array_of es) = AreSource es
    IsSource (object_of ps) = ArePairs ps
    IsSource (not_ a) = IsSource a
    IsSource (and_ a b) = IsSource a × IsSource b
    IsSource (or_ a b) = IsSource a × IsSource b
    IsSource (compare o a b) = IsSource a × IsSource b

    pub AreSource : Exprs N → Type 0
    AreSource no_items = Unit
    AreSource (item e es) = IsSource e × AreSource es

    pub ArePairs : Pairs N → Type 0
    ArePairs no_pairs = Unit
    ArePairs (pair k e ps) = IsKey k × IsSource e × ArePairs ps
