-- ===== src/Surface/Path/Idempotent.antt =====
-- Normalising a path twice.
use solx_core.Prelude.{
  List, [], ◌∷◌, ◌++◌, ◌≡◌, ◌↔◌, refl, sym, ap, subst, ◌∙◌, arith, All, length, Text, ok,
}
use solx_core.Surface.Path.{trim, trim_end, split, or_root, normalize_path}
use solx_core.Surface.Path.Trim.{trim_slash, trim_end_slash}
use solx_core.Surface.Path.Segments.{
  IsSegment, IsSegment-NoSlash, render, nonempty, nonempty_of_segments, split-append-render,
}
use solx_core.Surface.Path.Canonical.{parts, normalize_path_iff, length-trim_end, length_parts}

-- The parts of a rendered list that the trimming leaves alone are the list.
parts-render :
    (segs : List Text)
    → All IsSegment segs
    → trim_end (or_root (render segs)) ≡ or_root (render segs)
    → parts (or_root (render segs)) ≡ segs
unfolding split
parts-render [] h e = rw (trim_slash [], e)
parts-render (s ∷ segs) (p, h) e =
    rw (trim_slash (s ++ render segs), e, split-append-render s segs (IsSegment-NoSlash s p) h)
      (nonempty_of_segments (s ∷ segs) (p, h))

pub normalize-render :
    (segs : List Text)
    → All IsSegment segs
    → trim_end (or_root (render segs)) ≡ or_root (render segs)
    → normalize_path (or_root (render segs)) ≡ ok (or_root (render segs))
normalize-render segs h e =
    (normalize_path_iff (or_root (render segs)) (or_root (render segs))).1
      (rw (parts-render segs h e) (h, refl))

pub or_root_slash : (segs : List Text) → (s : Text) × (or_root (render segs) ≡ b'/' ∷ s)
or_root_slash [] = ([], refl)
or_root_slash (s ∷ segs) = (s ++ render segs, refl)

-- If a rendered list normalises to itself, the trimming leaves it alone: the parts of the
-- trimmed text are no longer than it.
trim_end_of_fixed :
    (s : Text) → b'/' ∷ s ≡ or_root (render (parts (b'/' ∷ s))) → trim_end (b'/' ∷ s) ≡ b'/' ∷ s
trim_end_of_fixed s e =
    trim_end_slash s
    ∙ ap (◌∷◌ b'/') (
        (length-trim_end s).1
          (omega (arith, ap length (e ∙ ap joined shorter), length_parts (trim_end s))))
  where
    joined : Text → Text
    joined t = or_root (render (nonempty (split b'/' t)))

    shorter : trim (b'/' ∷ s) ≡ b'/' ∷ trim_end s
    shorter = trim_slash s ∙ trim_end_slash s

-- Normalising a normalised path again gives it back exactly when it does not end in white space.
pub normalize_path-normalize_path :
    (raw p : Text) → normalize_path raw ≡ ok p → (normalize_path p ≡ ok p) ↔ (trim_end p ≡ p)
normalize_path-normalize_path raw p h =
    let (valid, e) = (normalize_path_iff raw p).0 h in
    let (s, starts) = or_root_slash (parts raw) in
    (
      λ again.
          subst (λ t. trim_end t ≡ t) (sym (e ∙ starts))
            (trim_end_of_fixed s (
              sym (e ∙ starts)
              ∙ ((normalize_path_iff p p).0 again).1
              ∙ ap (λ t. or_root (render (parts t))) (e ∙ starts))),
      λ fixed.
          subst (λ t. normalize_path t ≡ ok t) (sym e)
            (normalize-render (parts raw) valid (subst (λ t. trim_end t ≡ t) e fixed)),
    )
