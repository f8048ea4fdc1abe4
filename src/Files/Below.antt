-- ===== src/Files/Below.antt =====
-- A path that is resolved stays below the root of the store.
use solx_core.Prelude.{
  true, false, ◌||◌, List, [], ◌∷◌, is_empty, All, Text, codes, text_eq, ok, >>=-eq-ok,
  ok-injective, ◌≡◌, ◌≢◌, refl, subst, inl, inr, Bool-cases, arith,
}
use solx_core.Surface.Error.{Fallible}
use solx_core.Surface.Path.{trim}
use solx_core.Files.{
  CharLib, split_rel, is_refused, not_empty, is_kept, sanitize_segment, push_segment,
  normalize_segments, normalize_rel,
}

module _ (lib : CharLib) where
  -- A name that a directory may hold, with no separator in it.
  pub record IsBelow (seg : Text) : Type 0 where
    pub kept : All (λ c. is_kept lib c ≡ true) seg
    pub named : is_empty seg ≡ false
    pub not_here : text_eq seg (codes ".") ≡ false
    pub not_above : text_eq seg (codes "..") ≡ false

  sanitized_kept : (s : Text) → All (λ c. is_kept lib c ≡ true) (sanitize_segment lib s)
  unfolding sanitize_segment
  sanitized_kept [] = tt
  sanitized_kept (c ∷ s) = (ground arith, sanitized_kept s)

  -- A text of dots comes of itself alone.
  sanitized_dots :
      (dots s : Text)
      → All (λ c. c ≡ b'.') dots
      → text_eq s dots ≡ false
      → text_eq (sanitize_segment lib s) dots ≡ false
  unfolding sanitize_segment text_eq
  sanitized_dots [] [] d h = h
  sanitized_dots [] (c ∷ s) d h = refl
  sanitized_dots (p ∷ dots) [] d h = refl
  sanitized_dots (p ∷ dots) (c ∷ s) (e, d) h = ground (arith, sanitized_dots dots s d)

  sanitized-IsBelow :
      (seg : Text)
      → (is_empty seg || text_eq seg (codes ".")) ≡ false
      → text_eq seg (codes "..") ≡ false
      → IsBelow (sanitize_segment lib seg)
  unfolding sanitize_segment
  sanitized-IsBelow [] e f = cc
  sanitized-IsBelow (c ∷ s) e f = record {
    kept = sanitized_kept (c ∷ s);
    named = refl;
    not_here = sanitized_dots (codes ".") (c ∷ s) (refl, tt) e;
    not_above = sanitized_dots (codes "..") (c ∷ s) (refl, (refl, tt)) f;
  }

  push-IsBelow :
      (seg : Text) (rest : Fallible (List Text)) (segs : List Text)
      → ((ss : List Text) → rest ≡ ok ss → All IsBelow ss)
      → push_segment lib seg rest ≡ ok segs
      → All IsBelow segs
  push-IsBelow seg rest segs ih h = elim (Bool-cases (is_empty seg || text_eq seg (codes "."))) [
    | inl e ↦ ih segs (rw e at h)
    | inr e ↦ elim (Bool-cases (text_eq seg (codes ".."))) [
      | inl f ↦ cc (rw (e, f) at h)
      | inr f ↦ elim (Bool-cases (is_refused seg)) [
        | inl g ↦ cc (rw (e, f, g) at h)
        | inr g ↦
            let (ss, below, same) = >>=-eq-ok rest _ (rw (e, f, g) at h) in
            subst (All IsBelow) (ok-injective same) (sanitized-IsBelow seg e f, ih ss below)
      ]
    ]
  ]

  segments-IsBelow :
      (parts segs : List Text) → normalize_segments lib parts ≡ ok segs → All IsBelow segs
  unfolding normalize_segments
  segments-IsBelow [] segs h = subst (All IsBelow) (ok-injective h) tt
  segments-IsBelow (seg ∷ parts) segs h =
      push-IsBelow (trim seg) (normalize_segments lib parts) segs (segments-IsBelow parts) h

  filled : (o : List Text) (segs : List Text) → not_empty o ≡ ok segs → (o ≡ segs) × (segs ≢ [])
  filled [] segs h = cc
  filled (s ∷ o) segs h = (ok-injective h, λ e. cc)

  -- Of every relative path that is accepted: there is a segment, and each segment is a name of kept
  -- characters alone, so without a separator, and neither "." nor "..".
  pub normalize_rel-IsBelow :
      (rel : Text) (segs : List Text)
      → normalize_rel lib rel ≡ ok segs
      → All IsBelow segs × (segs ≢ [])
  unfolding normalize_rel
  normalize_rel-IsBelow rel segs h =
      let (parts, done, full) = >>=-eq-ok (normalize_segments lib (split_rel rel)) _ h in
      let (same, some_left) = filled parts segs full in
      (subst (All IsBelow) same (segments-IsBelow (split_rel rel) parts done), some_left)
