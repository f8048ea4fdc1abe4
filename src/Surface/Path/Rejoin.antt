-- ===== src/Surface/Path/Rejoin.antt =====
-- Splitting a reference: it never panics, and what it returns joins to the reference again.
use solx_core.Prelude.{
  some-injective, ℕ, suc, List, [], ◌∷◌, ◌++◌, append-nil, none, some, ◌≡◌, ◌≢◌, refl, sym, ap,
  subst, ◌∙◌, inl, inr, Bool-cases, All, Text, codes, text_eq, ok, err, ◌>>=◌, >>=-eq-ok,
  Option-cases,
}
use solx_core.Surface.Error.{Fallible}
use solx_core.Surface.Path.{
  trim, trim_end, rfind, or_root, normalize_path, validate_name, full_ref, split_normalized,
  split_ref,
}
use solx_core.Surface.Path.Segments.{IsSegment, render, render-append}
use solx_core.Surface.Path.Canonical.{parts, normalize_path_iff}
use solx_core.Surface.Path.Idempotent.{normalize-render, or_root_slash}
use solx_core.Surface.Path.RoundTrip.{IsJoined, split-IsJoined, join_name-IsJoined}

rfind_slash : (s : Text) → (i : ℕ) × (rfind b'/' (b'/' ∷ s) ≡ some i)
unfolding rfind
rfind_slash s = elim (Option-cases (rfind b'/' s)) [
  | inl e ↦ (0, rw e)
  | inr (i, e) ↦ (suc i, rw e)
]

split_slash-ne-none : (s : Text) → split_normalized (ok (b'/' ∷ s)) ≢ none
split_slash-ne-none s h =
    let (i, e) = rfind_slash s in
    elim (Bool-cases (text_eq (b'/' ∷ s) (codes "/"))) [
      | inl t ↦ cc (rw t at h)
      | inr t ↦ cc (rw (t, e) at h)
    ]

-- `split_ref` never reaches the panic of its `expect`: a normalised path holds a slash.
pub split_ref-ne-none : (full : Text) → split_ref full ≢ none
unfolding split_ref
split_ref-ne-none full h = at (normalize_path full) refl h
  where
    at : (r : Fallible Text) → normalize_path full ≡ r → split_normalized r ≢ none
    at (err e) _ k = cc
    at (ok p) e k =
        let (s, starts) = or_root_slash (parts full) in
        split_slash-ne-none s (
          subst (λ t. split_normalized (ok t) ≡ none) (((normalize_path_iff full p).0 e).1 ∙ starts)
            k)

-- A list with an item ends in one.
snoc : (x : Text) (xs : List Text) → (a : List Text) × (y : Text) × (x ∷ xs ≡ a ++ y ∷ [])
snoc x [] = ([], x, refl)
snoc x (z ∷ xs) = let (a, y, e) = snoc z xs in (x ∷ a, y, ap (◌∷◌ x) e)

All-split : (a : List Text) (y : Text) → All IsSegment (a ++ y ∷ []) → All IsSegment a × IsSegment y
All-split [] y h = (tt, h.0)
All-split (x ∷ a) y (p, h) = let (ha, hy) = All-split a y h in ((p, ha), hy)

render-IsJoined :
    (a : List Text) (y : Text)
    → All IsSegment a
    → IsJoined (or_root (render a)) y (render (a ++ y ∷ []))
render-IsJoined a y h = record {
  segs = a;
  valid = h;
  path_eq = refl;
  ref_eq = render-append a (y ∷ []) ∙ ap (λ t. render a ++ b'/' ∷ t) (append-nil y);
}

abbrev checked : Text → Text → Fallible (Text × Text)
checked path name = validate_name name >>= λ _. ok (path, name)

pair_eq :
    (p n p' n' : Text)
    → ◌≡◌ {A = Fallible (Text × Text)} (ok (p, n)) (ok (p', n'))
    → (p ≡ p') × (n ≡ n')
pair_eq p n p' n' h = (cc, cc)

abbrev checked_ok : List Text → Text → Fallible (Text × Text)
checked_ok a y = ok (or_root (render a), y)

module _ (path name : Text) (settled : trim_end path ≡ path) (trimmed : trim name ≡ name) where
  rejoin_last :
      (a : List Text) (y q : Text)
      → All IsSegment a
      → IsSegment y
      → q ≡ render a ++ b'/' ∷ y
      → checked (or_root (render a)) y ≡ ok (path, name)
      → full_ref path name ≡ ok q
  unfolding full_ref
  rejoin_last a y q h p e k =
      let (u, v, same) = >>=-eq-ok (validate_name y) (λ _. checked_ok a y) k in
      let (path_is, name_is) = pair_eq (or_root (render a)) y path name same in
      let settled' = subst (λ t. trim_end t ≡ t) (sym path_is) settled in
      rw (← path_is, normalize-render a h settled', trimmed, ← name_is, v)
        (ap ok (join_name-IsJoined a y h ∙ sym e))

  rejoin_ok :
      (segs : List Text) (q : Text)
      → All IsSegment segs
      → q ≡ or_root (render segs)
      → split_normalized (ok q) ≡ some (ok (path, name))
      → full_ref path name ≡ ok q
  unfolding text_eq snoc render-IsJoined
  rejoin_ok [] q h e k =
      let k' : split_normalized (ok (codes "/")) ≡ some (ok (path, name)) = rw e at k in cc
  rejoin_ok (x ∷ xs) q h e k =
      let (a, y, same) = snoc x xs in
      let (ha, p) = All-split a y (subst (All IsSegment) same h) in
      let q_is : q ≡ render (a ++ y ∷ []) = e ∙ ap render same in
      let j = render-IsJoined a y ha in
      let joined : split_normalized (ok q) ≡ some (checked (or_root (render a)) y) =
        ap (λ t. split_normalized (ok t)) q_is ∙ split-IsJoined p j in
      rejoin_last a y q ha p (q_is ∙ j.ref_eq) (some-injective (sym joined ∙ k))

-- The path and the name that a reference is split into join to the normalised reference, if the
-- path does not end in white space and the name is trimmed.
pub full_ref-split_ref :
    (full path name : Text)
    → split_ref full ≡ some (ok (path, name))
    → trim_end path ≡ path
    → trim name ≡ name
    → full_ref path name ≡ normalize_path full
unfolding split_ref
full_ref-split_ref full path name h settled trimmed = at (normalize_path full) refl h
  where
    at :
        (r : Fallible Text)
        → normalize_path full ≡ r
        → split_normalized r ≡ some (ok (path, name))
        → full_ref path name ≡ r
    at (err e) _ k = cc
    at (ok q) e k =
        let (valid, q_is) = (normalize_path_iff full q).0 e in
        rejoin_ok path name settled trimmed (parts full) q valid q_is k
