-- ===== src/Surface/Path/Canonical.antt =====
-- What `normalize_path` returns, and when it returns it.
use solx_core.Prelude.{
  ℕ, suc, ◌≤◌, max, true, ◌||◌, List, [], ◌∷◌, ◌≡◌, ◌↔◌, refl, sym, subst, ap, inl, inr, arith,
  Bool-cases, ◌==◌, All, is_empty, length, length-append, Text, codes, text_eq, text_eq_iff, ok,
  >>=-eq-ok,
}
use solx_core.Surface.Path.{
  is_whitespace, is_forbidden, is_control, validate_segment, trim, trim_end, cons_trimmed,
  cons_head, split, push_segments, or_root, normalize_trimmed, join_segments, normalize_path,
}
use solx_core.Surface.Path.Segments.{
  IsSegment, render, nonempty, push_segments-nonempty, push_segments-render, push_segments_sound,
}

-- The parts that the path is made of.
abbrev pub parts : Text → List Text
parts raw = nonempty (split b'/' (trim raw))

abbrev IsJoined : Text → List Text → Type 0
IsJoined p segs = All IsSegment segs × (p ≡ or_root (render segs))

joined :
    (path : Text) {p : Text} → join_segments path ≡ ok p → IsJoined p (nonempty (split b'/' path))
joined path h =
    let (out, e, h') = >>=-eq-ok (push_segments [] (split b'/' path)) (λ out. ok (or_root out)) h in
    let (valid, q) = push_segments_sound [] (split b'/' path) e in (valid, cc)

joins :
    (path : Text) {p : Text} → IsJoined p (nonempty (split b'/' path)) → join_segments path ≡ ok p
joins path (valid, q) =
    rw
      (
        push_segments-nonempty [] (split b'/' path),
        push_segments-render [] (nonempty (split b'/' path)) valid,
      )
      (ap ok (sym q))

-- The early return for the empty path and the root agrees with the loop.
early_return : (path : Text) → normalize_trimmed path ≡ join_segments path
unfolding push_segments split text_eq validate_segment is_forbidden is_control
early_return path = elim (Bool-cases (is_empty path || text_eq path (codes "/"))) [
  | inl e ↦ early path e
  | inr e ↦ rw e
]
  where
    early :
        (s : Text)
        → (is_empty s || text_eq s (codes "/")) ≡ true
        → normalize_trimmed s ≡ join_segments s
    early [] e = refl
    early (c ∷ s) e =
        subst (λ t. normalize_trimmed t ≡ join_segments t)
          (sym ((text_eq_iff (c ∷ s) (codes "/")).0 e)) refl

-- `normalize_path` succeeds exactly when every nonempty part of the trimmed text is a segment,
-- and returns these parts, each behind a slash, or the root when there is none.
pub normalize_path_iff :
    (raw p : Text)
    → (normalize_path raw ≡ ok p) ↔ (All IsSegment (parts raw) × (p ≡ or_root (render (parts raw))))
unfolding normalize_path
normalize_path_iff raw p =
    (λ h. joined (trim raw) (rw early_return at h), λ h. rw early_return (joins (trim raw) h))

length-cons_trimmed :
    (c : ℕ) (s t : Text)
    → (length t ≤ length s) × (length s ≤ length t → t ≡ s)
    → (length (cons_trimmed c t) ≤ suc (length s))
      × (suc (length s) ≤ length (cons_trimmed c t) → cons_trimmed c t ≡ c ∷ s)
length-cons_trimmed c s [] (h, k) = elim (Bool-cases (is_whitespace c)) [
  | inl e ↦ rw e (omega arith, λ l. absurd (omega arith))
  | inr e ↦ rw e (omega arith, λ l. ap (◌∷◌ c) (k (omega arith)))
]
length-cons_trimmed c s (d ∷ t) (h, k) = (omega arith, λ l. ap (◌∷◌ c) (k (omega arith)))

-- Trimming never lengthens a text, and leaves its length alone only if it leaves the text alone.
pub length-trim_end :
    (s : Text)
    → (length (trim_end s) ≤ length s) × (length s ≤ length (trim_end s) → trim_end s ≡ s)
unfolding trim_end
length-trim_end [] = (omega arith, λ _. refl)
length-trim_end (c ∷ s) = length-cons_trimmed c s (trim_end s) (length-trim_end s)

length-cons_head :
    (c n : ℕ) (ps : List Text)
    → length (render ps) ≤ suc n
    → length (render (cons_head c ps)) ≤ suc (suc n)
length-cons_head c n [] h = omega arith
length-cons_head c n (p ∷ ps) h = omega arith

length-split : (s : Text) → length (render (split b'/' s)) ≤ suc (length s)
unfolding split
length-split [] = omega arith
length-split (c ∷ s) = elim (Bool-cases (c == b'/')) [
  | inl e ↦ rw e (omega (arith, length-split s))
  | inr e ↦ rw e (length-cons_head c (length s) (split b'/' s) (length-split s))
]

length-nonempty : (ps : List Text) → length (render (nonempty ps)) ≤ length (render ps)
length-nonempty [] = omega arith
length-nonempty ([] ∷ ps) = omega (arith, length-nonempty ps)
length-nonempty ((c ∷ p) ∷ ps) = omega (
  arith,
  length-nonempty ps,
  length-append {0} p (render (nonempty ps)),
  length-append {0} p (render ps),
)

-- A path that starts at a slash does not grow by being split and joined.
pub length_parts :
    (s : Text) → length (or_root (render (nonempty (split b'/' (b'/' ∷ s))))) ≤ suc (length s)
unfolding split
length_parts s = omega (
  arith,
  length-or_root (render (nonempty (split b'/' s))),
  length-nonempty (split b'/' s),
  length-split s,
)
  where
    length-or_root : (t : Text) → length (or_root t) ≤ max 1 (length t)
    length-or_root [] = omega arith
    length-or_root (c ∷ t) = omega arith
