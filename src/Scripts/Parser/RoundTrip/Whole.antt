-- ===== src/Scripts/Parser/RoundTrip/Whole.antt =====
-- Every expression of the source language is read back from its tokens, by induction on it.
use solx_core.Prelude.{
  zero, suc, ◌+◌, ◌*◌, false, List, [], ◌∷◌, length, append-nil, Text, is_empty, ok, ◌≡◌, refl, sym,
  ap, ◌∙◌, arith,
}
use solx_core.Json.{Value, null, bool, number, string, array, object}
use solx_core.Scripts.Syntax.{
  TemplatePart, Expr, literal, var, var_token, template, object_of, array_of, not_, and_, or_,
  compare, Exprs, no_items, item, Pairs, no_pairs, pair, Token, template_token,
}
use solx_core.Scripts.Parser.{template_expr, parse_or, parse_tokens}
use solx_core.Scripts.Parser.Printer.{
  literal_token, emit, emit_items, emit_pairs, IsScalar, IsSource, AreSource, ArePairs,
}
use solx_core.Scripts.Parser.RoundTrip.Levels.{ReadsAtom, ReadsOr}
use solx_core.Scripts.Parser.RoundTrip.Printed.{
  IsRead, or-IsRead, and-IsRead, not-IsRead, compare-IsRead, atom-IsRead,
}
use solx_core.Scripts.Parser.RoundTrip.Items.{
  ReadsItems, ReadsPairs, no_items_read, no_pairs_read, last_item-ReadsItems, next_item-ReadsItems,
  last_pair-ReadsPairs, next_pair-ReadsPairs,
}
use solx_core.Scripts.Parser.RoundTrip.Operators.{or_loop_end}

module _ {N : Type 0} where
  scalar_read : (v : Value N) → IsScalar v → ReadsAtom (literal_token v ∷ []) (literal v)
  unfolding parse_or
  scalar_read v h rest zero le = absurd (omega arith)
  scalar_read (string s) h rest (suc f) le = refl
  scalar_read (number n) h rest (suc f) le = refl
  scalar_read (bool b) h rest (suc f) le = refl
  scalar_read null h rest (suc f) le = refl
  scalar_read (array vs) h rest (suc f) le = absurd h
  scalar_read (object fs) h rest (suc f) le = absurd h

  var_read : (name : Text) → ReadsAtom {N = N} (var_token name ∷ []) (var name)
  unfolding parse_or
  var_read name rest zero le = absurd (omega arith)
  var_read name rest (suc f) le = refl

  template_read :
      (parts : List TemplatePart)
      → template_expr {N = N} parts ≡ template parts
      → ReadsAtom {N = N} (template_token parts ∷ []) (template parts)
  unfolding parse_or
  template_read parts h rest zero le = absurd (omega arith)
  template_read parts h rest (suc f) le = ap (λ e. ok (e, rest)) h

  array_read :
      (es : Exprs N)
      → ReadsItems (emit_items es) es
      → ReadsAtom (emit 4 (array_of es)) (array_of es)
  unfolding parse_or emit
  array_read es h rest zero le = absurd (omega arith)
  array_read es h rest (suc f) le = rw (h rest f (omega arith)) refl

  object_read :
      (ps : Pairs N)
      → ReadsPairs (emit_pairs ps) ps
      → ReadsAtom (emit 4 (object_of ps)) (object_of ps)
  unfolding parse_or emit
  object_read ps h rest zero le = absurd (omega arith)
  object_read ps h rest (suc f) le = rw (h rest f (omega arith)) refl

  mutual
    unfolding emit

    source-IsRead : (e : Expr N) → IsSource e → IsRead e
    source-IsRead (literal v) h =
        atom-IsRead (literal_token v ∷ []) (literal v) (λ p. refl) (scalar_read v h)
    source-IsRead (var name) h =
        atom-IsRead (var_token name ∷ []) (var name) (λ p. refl) (var_read name)
    source-IsRead (template parts) h =
        atom-IsRead (template_token parts ∷ []) (template parts) (λ p. refl) (template_read parts h)
    source-IsRead (array_of es) h =
        atom-IsRead (emit 4 (array_of es)) (array_of es) (λ p. refl)
          (array_read es (items_read es h))
    source-IsRead (object_of ps) h =
        atom-IsRead (emit 4 (object_of ps)) (object_of ps) (λ p. refl)
          (object_read ps (pairs_read ps h))
    source-IsRead (not_ a) h = not-IsRead a (source-IsRead a h)
    source-IsRead (and_ a b) (ha, hb) = and-IsRead a b (source-IsRead a ha) (source-IsRead b hb)
    source-IsRead (or_ a b) (ha, hb) = or-IsRead a b (source-IsRead a ha) (source-IsRead b hb)
    source-IsRead (compare o a b) (ha, hb) =
        compare-IsRead o a b (source-IsRead a ha) (source-IsRead b hb)

    items_read : (es : Exprs N) → AreSource es → ReadsItems (emit_items es) es
    items_read no_items h = λ rest f le. no_items_read rest f (omega arith)
    items_read (item e no_items) (he, hs) =
        last_item-ReadsItems (emit 0 e) e (IsRead.disjunction (source-IsRead e he))
    items_read (item e (item d es)) (he, hs) =
        next_item-ReadsItems (emit 0 e) (emit_items (item d es)) e (item d es)
          (IsRead.disjunction (source-IsRead e he)) (items_read (item d es) hs)

    pairs_read : (ps : Pairs N) → ArePairs ps → ReadsPairs (emit_pairs ps) ps
    pairs_read no_pairs h = λ rest f le. no_pairs_read rest f (omega arith)
    pairs_read (pair k e no_pairs) (hk, he, hs) =
        last_pair-ReadsPairs k (emit 0 e) e hk (IsRead.disjunction (source-IsRead e he))
    pairs_read (pair k e (pair l d ps)) (hk, he, hs) =
        next_pair-ReadsPairs k (emit 0 e) (emit_pairs (pair l d ps)) e (pair l d ps) hk
          (IsRead.disjunction (source-IsRead e he)) (pairs_read (pair l d ps) hs)

  ReadsOr-is_empty : (ts : List (Token N)) (e : Expr N) → ReadsOr ts e → is_empty ts ≡ false
  unfolding parse_or
  ReadsOr-is_empty [] e h =
      let refused = h [] 1 (ok (e, [])) refl (or_loop_end e) 8 (omega arith) in cc refused
  ReadsOr-is_empty (t ∷ ts) e h = refl

  -- An expression of the source language, printed with parentheses only where the precedences of
  -- `||`, `&&`, `!` and the comparisons ask for them, is parsed to the expression itself. Not of the
  -- source language are literal arrays and objects, templates that are one plain text, and keys that
  -- are neither a text nor a template.
  pub parse_tokens-emit : (e : Expr N) → IsSource e → parse_tokens (emit 0 e) ≡ ok e
  unfolding parse_tokens
  parse_tokens-emit e h =
      let read = IsRead.disjunction (source-IsRead e h) in
      let parsed =
        read [] 1 (ok (e, [])) refl (or_loop_end e) (8 * length (emit 0 e) + 8) (omega arith) in
      let bare = ap (λ ts. parse_or (8 * length (emit 0 e) + 8) ts) (sym (append-nil (emit 0 e))) in
      rw (ReadsOr-is_empty (emit 0 e) e read, bare ∙ parsed) refl
