-- ===== src/Scripts/Parser/RoundTrip/Items.antt =====
-- Reading the items of an array and the fields of an object, up to the bracket that closes them.
use solx_core.Prelude.{
  ℕ, zero, suc, ◌+◌, ◌*◌, ◌≤◌, false, List, [], ◌∷◌, ◌++◌, length, append_assoc, ok, ◌≡◌, refl, ap,
  ◌∙◌, arith,
}
use solx_core.Json.{null, bool, number, string, array, object}
use solx_core.Scripts.Syntax.{
  Expr, literal, var, template, object_of, array_of, not_, and_, or_, compare, Exprs, no_items,
  item, Pairs, no_pairs, pair, Token, rbracket, rbrace, comma, colon,
}
use solx_core.Scripts.Parser.{
  at, is_rbrace, object_key, parse_or, or_loop, parse_items, parse_pairs,
}
use solx_core.Scripts.Parser.Printer.{emit, IsKey}
use solx_core.Scripts.Parser.RoundTrip.Levels.{ReadsOr}
use solx_core.Scripts.Parser.RoundTrip.Operators.{length_joined, ReadsOr-at_rbracket}

module _ {N : Type 0} where
  abbrev pub ReadsItems : List (Token N) → Exprs N → Type 0
  ReadsItems ts es =
      (rest : List (Token N)) (f : ℕ)
      → 8 * length ts + 1 ≤ f
      → parse_items f (ts ++ rest) ≡ ok (es, rest)

  abbrev pub ReadsPairs : List (Token N) → Pairs N → Type 0
  ReadsPairs ts ps =
      (rest : List (Token N)) (f : ℕ)
      → 8 * length ts + 1 ≤ f
      → parse_pairs f (ts ++ rest) ≡ ok (ps, rest)

  pub no_items_read :
      (rest : List (Token N)) (f : ℕ)
      → 1 ≤ f
      → parse_items f (rbracket ∷ rest) ≡ ok (no_items, rest)
  unfolding parse_or
  no_items_read rest zero le = absurd (omega arith)
  no_items_read rest (suc f) le = refl

  pub no_pairs_read :
      (rest : List (Token N)) (f : ℕ) → 1 ≤ f → parse_pairs f (rbrace ∷ rest) ≡ ok (no_pairs, rest)
  unfolding parse_or
  no_pairs_read rest zero le = absurd (omega arith)
  no_pairs_read rest (suc f) le = refl

  or_loop_at :
      (t : Token N) (e : Expr N) (rest : List (Token N))
      → ((f : ℕ) → or_loop (suc f) e (t ∷ rest) ≡ ok (e, t ∷ rest))
      → (f : ℕ) → 1 ≤ f
      → or_loop f e (t ∷ rest) ≡ ok (e, t ∷ rest)
  or_loop_at t e rest h zero le = absurd (omega arith)
  or_loop_at t e rest h (suc f) le = h f

  pub last_item-ReadsItems :
      (ts : List (Token N)) (e : Expr N)
      → ReadsOr ts e
      → ReadsItems (ts ++ rbracket ∷ []) (item e no_items)
  unfolding parse_or
  last_item-ReadsItems ts e h rest zero le = absurd (omega arith)
  last_item-ReadsItems ts e h rest (suc f) le =
      let longer = length_joined ts [] rbracket in
      let read =
        h (rbracket ∷ rest) 1 (ok (e, rbracket ∷ rest)) refl
          (or_loop_at rbracket e rest (λ g. refl)) f (omega (arith, longer)) in
      rw
        (
          append_assoc ts (rbracket ∷ []) rest,
          ReadsOr-at_rbracket ts (rbracket ∷ rest) e h,
          read,
          no_items_read rest f (omega (arith, longer)),
        )
        refl

  pub next_item-ReadsItems :
      (ts us : List (Token N)) (e : Expr N) (es : Exprs N)
      → ReadsOr ts e
      → ReadsItems us es
      → ReadsItems (ts ++ comma ∷ us) (item e es)
  unfolding parse_or
  next_item-ReadsItems ts us e es h hs rest zero le = absurd (omega arith)
  next_item-ReadsItems ts us e es h hs rest (suc f) le =
      let longer = length_joined ts us comma in
      let read =
        h (comma ∷ (us ++ rest)) 1 (ok (e, comma ∷ (us ++ rest))) refl
          (or_loop_at comma e (us ++ rest) (λ g. refl)) f (omega (arith, longer)) in
      rw
        (
          append_assoc ts (comma ∷ us) rest,
          ReadsOr-at_rbracket ts (comma ∷ (us ++ rest)) e h,
          read,
          hs rest f (omega (arith, longer)),
        )
        refl

  -- A key is printed as one token, which is read back.
  key_read : (k : Expr N) (ts : List (Token N)) → IsKey k → object_key (emit 4 k ++ ts) ≡ ok (k, ts)
  unfolding emit
  key_read (literal (string s)) ts h = refl
  key_read (literal null) ts h = absurd h
  key_read (literal (bool b)) ts h = absurd h
  key_read (literal (number n)) ts h = absurd h
  key_read (literal (array vs)) ts h = absurd h
  key_read (literal (object fs)) ts h = absurd h
  key_read (template parts) ts h = ap (λ e. ok (e, ts)) h
  key_read (var name) ts h = absurd h
  key_read (object_of ps) ts h = absurd h
  key_read (array_of es) ts h = absurd h
  key_read (not_ a) ts h = absurd h
  key_read (and_ a b) ts h = absurd h
  key_read (or_ a b) ts h = absurd h
  key_read (compare o a b) ts h = absurd h

  key_open : (k : Expr N) (ts : List (Token N)) → IsKey k → at is_rbrace (emit 4 k ++ ts) ≡ false
  unfolding emit
  key_open (literal (string s)) ts h = refl
  key_open (template parts) ts h = refl
  key_open (literal null) ts h = absurd h
  key_open (literal (bool b)) ts h = absurd h
  key_open (literal (number n)) ts h = absurd h
  key_open (literal (array vs)) ts h = absurd h
  key_open (literal (object fs)) ts h = absurd h
  key_open (var name) ts h = absurd h
  key_open (object_of ps) ts h = absurd h
  key_open (array_of es) ts h = absurd h
  key_open (not_ a) ts h = absurd h
  key_open (and_ a b) ts h = absurd h
  key_open (or_ a b) ts h = absurd h
  key_open (compare o a b) ts h = absurd h

  length_keyed :
      (k : Expr N) (ts us : List (Token N)) (t : Token N)
      → length (emit 4 k ++ colon ∷ (ts ++ t ∷ us))
        ≡ length (emit 4 k) + suc (length ts + suc (length us))
  length_keyed k ts us t =
      length_joined (emit 4 k) (ts ++ t ∷ us) colon
      ∙ ap (λ n. length (emit 4 k) + suc n) (length_joined ts us t)

  keyed_assoc :
      (k : Expr N) (ts us rest : List (Token N)) (t : Token N)
      → (emit 4 k ++ colon ∷ (ts ++ t ∷ us)) ++ rest ≡ emit 4 k ++ colon ∷ (ts ++ t ∷ (us ++ rest))
  keyed_assoc k ts us rest t =
      append_assoc (emit 4 k) (colon ∷ (ts ++ t ∷ us)) rest
      ∙ ap (λ vs. emit 4 k ++ colon ∷ vs) (append_assoc ts (t ∷ us) rest)

  pub last_pair-ReadsPairs :
      (k : Expr N) (ts : List (Token N)) (e : Expr N)
      → IsKey k
      → ReadsOr ts e
      → ReadsPairs (emit 4 k ++ colon ∷ (ts ++ rbrace ∷ [])) (pair k e no_pairs)
  unfolding parse_or
  last_pair-ReadsPairs k ts e hk h rest zero le = absurd (omega arith)
  last_pair-ReadsPairs k ts e hk h rest (suc f) le =
      let longer = length_keyed k ts [] rbrace in
      let read =
        h (rbrace ∷ rest) 1 (ok (e, rbrace ∷ rest)) refl (or_loop_at rbrace e rest (λ g. refl)) f
          (omega (arith, longer)) in
      rw
        (
          keyed_assoc k ts [] rest rbrace,
          key_open k (colon ∷ (ts ++ rbrace ∷ rest)) hk,
          key_read k (colon ∷ (ts ++ rbrace ∷ rest)) hk,
          read,
          no_pairs_read rest f (omega (arith, longer)),
        )
        refl

  pub next_pair-ReadsPairs :
      (k : Expr N) (ts us : List (Token N)) (e : Expr N) (ps : Pairs N)
      → IsKey k
      → ReadsOr ts e
      → ReadsPairs us ps
      → ReadsPairs (emit 4 k ++ colon ∷ (ts ++ comma ∷ us)) (pair k e ps)
  unfolding parse_or
  next_pair-ReadsPairs k ts us e ps hk h hs rest zero le = absurd (omega arith)
  next_pair-ReadsPairs k ts us e ps hk h hs rest (suc f) le =
      let longer = length_keyed k ts us comma in
      let read =
        h (comma ∷ (us ++ rest)) 1 (ok (e, comma ∷ (us ++ rest))) refl
          (or_loop_at comma e (us ++ rest) (λ g. refl)) f (omega (arith, longer)) in
      rw
        (
          keyed_assoc k ts us rest comma,
          key_open k (colon ∷ (ts ++ comma ∷ (us ++ rest))) hk,
          key_read k (colon ∷ (ts ++ comma ∷ (us ++ rest))) hk,
          read,
          hs rest f (omega (arith, longer)),
        )
        refl
