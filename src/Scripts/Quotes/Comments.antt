-- ===== src/Scripts/Quotes/Comments.antt =====
-- Stripping comments a second time changes nothing.
use solx_core.Prelude.{
  ℕ, zero, suc, Bool, true, false, ◌&&◌, ◌||◌, [], ◌∷◌, ◌++◌, ◌==◌, if◌then◌else◌, Text, ◌≡◌, inl,
  inr, refl, sym, ap, ◌∙◌, Bool-cases, arith,
}
use solx_core.Scripts.Quotes.{
  Quoting, plain, single, double, triple, peek_is, two_quotes, Move, keep, unquoted, quote_move,
  Scan, scanning, comment, kept, strip_step, strip_from, strip_comments,
}

-- What is copied keeps its first characters.
peek-copy :
    (d : ℕ) (n : ℕ) (q : Quoting) (s : Text)
    → peek_is d (strip_from (scanning (suc n) q) s) ≡ peek_is d s
unfolding strip_from strip_step
peek-copy d n q [] = refl
peek-copy d n q (c ∷ s) = refl

-- A comment leaves no quote behind.
peek-comment : (s : Text) → peek_is b'\'' (strip_from comment s) ≡ false
unfolding strip_from strip_step
peek-comment [] = refl
peek-comment (c ∷ s) = elim (Bool-cases (c == b'\n')) [
  | inl e ↦ rw e (ground (arith, e))
  | inr e ↦ rw e (peek-comment s)
]

-- A character that is kept comes first.
kept_first :
    (d c n : ℕ) (q q' : Quoting) (s : Text)
    → quote_move q c s ≡ keep n q'
    → peek_is d (strip_from (scanning 0 q) (c ∷ s)) ≡ (c == d)
unfolding strip_from strip_step
kept_first d c n q q' s e = rw e refl

-- In quotes every character is kept.
abbrev IsQuoted : Quoting → Type 0
IsQuoted plain = ⊥
IsQuoted q = Unit

abbrev IsKept : Move → Type 0
IsKept (keep n q) = Unit
IsKept unquoted = ⊥

kept_of : (m : Move) → IsKept m → (n : ℕ) × (q : Quoting) × (m ≡ keep n q)
kept_of (keep n q) h = (n, q, refl)
kept_of unquoted h = absurd h

if_IsKept : (b : Bool) (m m' : Move) → IsKept m → IsKept m' → IsKept (if b then m else m')
if_IsKept true m m' h h' = h
if_IsKept false m m' h h' = h'

quoted_IsKept : (q : Quoting) (c : ℕ) (s : Text) → IsQuoted q → IsKept (quote_move q c s)
unfolding quote_move
quoted_IsKept plain c s h = absurd h
quoted_IsKept triple c s h = search if_IsKept
quoted_IsKept single c s h = search if_IsKept
quoted_IsKept double c s h = search if_IsKept

peek-quoted :
    (d : ℕ) (q : Quoting) (s : Text)
    → IsQuoted q
    → peek_is d (strip_from (scanning 0 q) s) ≡ peek_is d s
unfolding strip_from
peek-quoted d q [] h = refl
peek-quoted d q (c ∷ s) h =
    let (n, q', e) = kept_of (quote_move q c s) (quoted_IsKept q c s h) in kept_first d c n q q' s e

two_quotes-cons : (c : ℕ) (s : Text) → two_quotes (c ∷ s) ≡ (c == b'\'' && peek_is b'\'' s)
unfolding two_quotes
two_quotes-cons c [] = ground arith
two_quotes-cons c (d ∷ s) = refl

-- Behind a character in triple quotes, two quotes are there if they were.
two_quotes-triple : (s : Text) → two_quotes (strip_from (scanning 0 triple) s) ≡ two_quotes s
unfolding strip_from strip_step quote_move
two_quotes-triple [] = refl
two_quotes-triple (c ∷ s) = elim (Bool-cases (c == b'\'' && two_quotes s)) [
  | inl e ↦ rw e (
      two_quotes-cons c (strip_from (scanning 2 plain) s)
      ∙ ap (λ b. c == b'\'' && b) (peek-copy b'\'' 1 plain s)
      ∙ sym (two_quotes-cons c s))
  | inr e ↦ rw e (
      two_quotes-cons c (strip_from (scanning 0 triple) s)
      ∙ ap (λ b. c == b'\'' && b) (peek-quoted b'\'' triple s tt)
      ∙ sym (two_quotes-cons c s))
]

-- Outside quotes no quote appears where there was none.
peek-plain :
    (s : Text) → peek_is b'\'' s ≡ false → peek_is b'\'' (strip_from (scanning 0 plain) s) ≡ false
unfolding strip_from strip_step quote_move
peek-plain [] h = refl
peek-plain (c ∷ s) h = rw h (elim (Bool-cases (c == b'"')) [
  | inl e ↦ rw e h
  | inr e ↦ rw e (elim (Bool-cases (c == b'#')) [ inl f ↦ rw f (peek-comment s) | inr f ↦ rw f h ])
])

two_quotes-single :
    (s : Text) → two_quotes s ≡ false → two_quotes (strip_from (scanning 0 single) s) ≡ false
unfolding strip_from strip_step quote_move
two_quotes-single [] h = h
two_quotes-single (c ∷ s) h =
    let both : (c == b'\'' && peek_is b'\'' s) ≡ false = sym (two_quotes-cons c s) ∙ h in
    elim (Bool-cases (c == b'\\' && peek_is b'\'' s)) [
      | inl e ↦ rw (e, two_quotes-cons c (strip_from (scanning 1 single) s)) (ground (arith, e))
      | inr e ↦ elim (Bool-cases (c == b'\'')) [
        | inl f ↦
            let open_ : peek_is b'\'' s ≡ false = rw f at both in
            rw (e, f, two_quotes-cons c (strip_from (scanning 0 plain) s), f) (peek-plain s open_)
        | inr f ↦ rw (e, f, two_quotes-cons c (strip_from (scanning 0 single) s), f) refl
      ]
    ]

two_quotes-copy : (q : Quoting) (s : Text) → two_quotes (strip_from (scanning 2 q) s) ≡ two_quotes s
unfolding strip_from strip_step two_quotes
two_quotes-copy q [] = refl
two_quotes-copy q (c ∷ []) = refl
two_quotes-copy q (c ∷ d ∷ s) = refl

-- A kept character is kept in the same way in front of what is stripped.
abbrev Stable : Quoting → ℕ → Text → Move → Type 0
Stable q c s (keep n q') = quote_move q c (strip_from (scanning n q') s) ≡ keep n q'
Stable q c s unquoted = ((c == b'\'') ≡ false) × ((c == b'"') ≡ false) × (q ≡ plain)

stable : (q : Quoting) (c : ℕ) (s : Text) → Stable q c s (quote_move q c s)
unfolding quote_move
stable triple c s = elim (Bool-cases (c == b'\'' && two_quotes s)) [
  | inl e ↦ rw (e, two_quotes-copy plain s, e) refl
  | inr e ↦ rw (e, two_quotes-triple s, e) refl
]
stable plain c s = elim (Bool-cases (c == b'\'')) [
  | inl e ↦ elim (Bool-cases (two_quotes s)) [
    | inl f ↦ rw (e, f, e, two_quotes-copy triple s, f) refl
    | inr f ↦ rw (e, f, e, two_quotes-single s f) refl
  ]
  | inr e ↦ elim (Bool-cases (c == b'"')) [
    | inl f ↦ rw (e, f, e, f) refl
    | inr f ↦ rw (e, f) (e, f, refl)
  ]
]
stable single c s = elim (Bool-cases (c == b'\\' && peek_is b'\'' s)) [
  | inl e ↦ rw (e, peek-copy b'\'' 0 single s, e) refl
  | inr e ↦ elim (Bool-cases (c == b'\'')) [
    | inl f ↦ let other : (c == b'\\') ≡ false = ground (arith, f) in rw (e, f, other, f) refl
    | inr f ↦ rw (e, f, peek-quoted b'\'' single s tt, e, f) refl
  ]
]
stable double c s = elim (Bool-cases (c == b'\\' && (peek_is b'"' s || peek_is b'\\' s))) [
  | inl e ↦ rw (e, peek-copy b'"' 0 double s, peek-copy b'\\' 0 double s, e) refl
  | inr e ↦ elim (Bool-cases (c == b'"')) [
    | inl f ↦ let other : (c == b'\\') ≡ false = ground (arith, f) in rw (e, f, other, f) refl
    | inr f ↦ rw (e, f, peek-quoted b'"' double s tt, peek-quoted b'\\' double s tt, e, f) refl
  ]
]

quote_move-plain :
    (c : ℕ) (s : Text)
    → (c == b'\'') ≡ false
    → (c == b'"') ≡ false
    → quote_move plain c s ≡ unquoted
unfolding quote_move
quote_move-plain c s e f = rw (e, f) refl

-- A second scan, from where the first began or, behind a comment, outside quotes.
abbrev restart : Scan → Scan
restart comment = scanning 0 plain
restart scan = scan

abbrev IsStripped : Scan → Text → Type 0
IsStripped scan s = strip_from (restart scan) (strip_from scan s) ≡ strip_from scan s

step_again :
    (q : Quoting) (c : ℕ) (s : Text)
    → ((scan : Scan) → IsStripped scan s)
    → (m : Move) → Stable q c s m
    → strip_from (scanning 0 q) ((kept c m).0 ++ strip_from (kept c m).1 s)
      ≡ (kept c m).0 ++ strip_from (kept c m).1 s
unfolding strip_from strip_step
step_again q c s later (keep n q') same = rw same (ap (λ t. c ∷ t) (later (scanning n q')))
step_again q c s later unquoted (e, f, is_plain) = elim (Bool-cases (c == b'#')) [
  | inl g ↦ rw (g, is_plain) (later comment)
  | inr g ↦
      rw (g, is_plain, quote_move-plain c (strip_from (scanning 0 plain) s) e f, g)
        (ap (λ t. c ∷ t) (later (scanning 0 plain)))
]

again : (scan : Scan) (s : Text) → IsStripped scan s
unfolding strip_from strip_step
again (scanning n q) [] = refl
again comment [] = refl
again (scanning (suc n) q) (c ∷ s) = ap (λ t. c ∷ t) (again (scanning n q) s)
again (scanning zero q) (c ∷ s) =
    step_again q c s (λ scan. again scan s) (quote_move q c s) (stable q c s)
again comment (c ∷ s) = elim (Bool-cases (c == b'\n')) [
  | inl e ↦
      let quote : (c == b'\'') ≡ false = ground (arith, e) in
      let string : (c == b'"') ≡ false = ground (arith, e) in
      let hash : (c == b'#') ≡ false = ground (arith, e) in
      rw (e, quote_move-plain c (strip_from (scanning 0 plain) s) quote string, hash)
        (ap (λ t. c ∷ t) (again (scanning 0 plain) s))
  | inr e ↦ rw e (again comment s)
]

-- Stripping the comments of a script that has been stripped changes nothing.
pub strip_comments-strip_comments :
    (source : Text) → strip_comments (strip_comments source) ≡ strip_comments source
unfolding strip_comments
strip_comments-strip_comments source = again (scanning 0 plain) source
