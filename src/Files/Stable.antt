-- ===== src/Files/Stable.antt =====
-- The path that `put` answers leads to the same segments as the one that it was given.
use solx_core.Prelude.{
  ℕ, Bool, true, false, List, [], ◌∷◌, ◌++◌, any, All, ◌==◌, ==_iff, Text, ok, ◌>>=◌, >>=-eq-ok,
  ok-injective, ◌≡◌, ◌≢◌, refl, ap, subst, ◌∙◌, inl, inr, Bool-cases, arith,
}
use solx_core.Surface.Path.{is_whitespace, is_control, trim_start, trim_end, trim}
use solx_core.Files.{
  CharLib, is_separator, split_rel, is_refused, join, not_empty, is_kept, sanitize_segment,
  normalize_segments, normalize_rel, resolve,
}
use solx_core.Files.Below.{IsBelow, normalize_rel-IsBelow}

module _ (lib : CharLib) where
  open lib use {is_alphanumeric, not_whitespace, not_control, not_slash, not_backslash, not_colon}

  -- What holds of the three marks and of every letter and digit holds of the kept characters.
  kept_elim :
      (test : ℕ → Bool) (b : Bool) (c : ℕ)
      → (is_alphanumeric c ≡ true → test c ≡ b)
      → test b'.' ≡ b
      → test b'-' ≡ b
      → test b'_' ≡ b
      → is_kept lib c ≡ true
      → test c ≡ b
  kept_elim test b c alpha dot dash low k = elim (Bool-cases (is_alphanumeric c)) [
    | inl e ↦ alpha e
    | inr e ↦ elim (Bool-cases (c == b'.')) [
      | inl f ↦ rw ((==_iff c b'.').0 f) dot
      | inr f ↦ elim (Bool-cases (c == b'-')) [
        | inl g ↦ rw ((==_iff c b'-').0 g) dash
        | inr g ↦
            let last : (c == b'_') ≡ true = ground (arith, k) in rw ((==_iff c b'_').0 last) low
      ]
    ]
  ]

  differs : (c d : ℕ) → is_alphanumeric d ≡ false → is_alphanumeric c ≡ true → (c == d) ≡ false
  differs c d h k = elim (Bool-cases (c == d)) [
    | inl e ↦ let same = (==_iff c d).0 e in cc
    | inr e ↦ e
  ]

  kept_whole : (c : ℕ) → is_kept lib c ≡ true → is_separator c ≡ false
  kept_whole c =
      kept_elim is_separator false c
        (λ a. rw (differs c b'/' not_slash a, differs c b'\\' not_backslash a) refl) refl refl refl

  kept_black : (c : ℕ) → is_kept lib c ≡ true → is_whitespace c ≡ false
  unfolding is_whitespace
  kept_black c = kept_elim is_whitespace false c (not_whitespace c) refl refl refl

  kept_printed : (c : ℕ) → is_kept lib c ≡ true → is_control c ≡ false
  unfolding is_control
  kept_printed c = kept_elim is_control false c (not_control c) refl refl refl

  kept_uncolon : (c : ℕ) → is_kept lib c ≡ true → (c == b':') ≡ false
  kept_uncolon c =
      kept_elim (λ d. d == b':') false c (λ a. differs c b':' not_colon a) refl refl refl

  abbrev IsKept : Text → Type 0
  IsKept = All (λ c. is_kept lib c ≡ true)

  split-segment : (s t : Text) → IsKept s → split_rel (s ++ b'/' ∷ t) ≡ s ∷ split_rel t
  unfolding split_rel
  split-segment [] t k = refl
  split-segment (c ∷ s) t (h, k) = rw (kept_whole c h, split-segment s t k) refl

  split-last : (s : Text) → IsKept s → split_rel s ≡ s ∷ []
  unfolding split_rel
  split-last [] k = refl
  split-last (c ∷ s) (h, k) = rw (kept_whole c h, split-last s k) refl

  trim_start-kept : (s : Text) → IsKept s → trim_start s ≡ s
  unfolding trim_start
  trim_start-kept [] k = refl
  trim_start-kept (c ∷ s) (h, k) = rw (kept_black c h) refl

  trim_end-kept : (s : Text) → IsKept s → trim_end s ≡ s
  unfolding trim_end
  trim_end-kept [] k = refl
  trim_end-kept (c ∷ []) (h, k) = rw (kept_black c h) refl
  trim_end-kept (c ∷ d ∷ s) (h, k) = rw (trim_end-kept (d ∷ s) k) refl

  trim-kept : (s : Text) → IsKept s → trim s ≡ s
  unfolding trim
  trim-kept s k = rw (trim_start-kept s k, trim_end-kept s k) refl

  sanitize-kept : (s : Text) → IsKept s → sanitize_segment lib s ≡ s
  unfolding sanitize_segment
  sanitize-kept [] k = refl
  sanitize-kept (c ∷ s) (h, k) = rw (h, sanitize-kept s k) refl

  any_kept :
      (test : ℕ → Bool) (s : Text)
      → ((c : ℕ) → is_kept lib c ≡ true → test c ≡ false)
      → IsKept s
      → any test s ≡ false
  any_kept test [] h k = refl
  any_kept test (c ∷ s) h (e, k) = rw (h c e, any_kept test s h k) refl

  accepted-kept : (s : Text) → IsKept s → is_refused s ≡ false
  accepted-kept s k =
      rw (any_kept (λ c. c == b':') s kept_uncolon k, any_kept (λ c. is_control c) s kept_printed k)
        refl

  segments-kept :
      (segs : List Text) → All (IsBelow lib) segs → normalize_segments lib segs ≡ ok segs
  unfolding normalize_segments
  segments-kept [] b = refl
  segments-kept (seg ∷ segs) (s, b) =
      rw
        (
          trim-kept seg s.kept,
          s.named,
          s.not_here,
          s.not_above,
          accepted-kept seg s.kept,
          segments-kept segs b,
        )
        (rw (sanitize-kept seg s.kept) refl)

  split-join :
      (segs : List Text) → All (IsBelow lib) segs → segs ≢ [] → split_rel (join segs) ≡ segs
  unfolding join
  split-join [] b n = absurd (n refl)
  split-join (seg ∷ []) (s, b) n = split-last seg s.kept
  split-join (seg ∷ next ∷ segs) (s, b) n =
      split-segment seg (join (next ∷ segs)) s.kept
      ∙ ap (◌∷◌ seg) (split-join (next ∷ segs) b (λ e. cc))

  full : (segs : List Text) → segs ≢ [] → not_empty segs ≡ ok segs
  full [] n = absurd (n refl)
  full (seg ∷ segs) n = refl

  twice :
      (segs : List Text)
      → All (IsBelow lib) segs
      → segs ≢ []
      → normalize_rel lib (join segs) ≡ ok segs
  unfolding normalize_rel
  twice segs b n = rw (split-join segs b n, segments-kept segs b) (full segs n)

  -- The path that is answered for a relative path that is accepted is accepted too, and resolves to
  -- the same segments and the same path.
  pub resolve-resolve :
      (rel : Text) (segs : List Text) (path : Text)
      → resolve lib rel ≡ ok (segs, path)
      → resolve lib path ≡ ok (segs, path)
  unfolding resolve
  resolve-resolve rel segs path h =
      let (parts, done, last) = >>=-eq-ok (normalize_rel lib rel) _ h in
      let same : (parts, join parts) ≡ (segs, path) = ok-injective last in
      let (below, filled) = normalize_rel-IsBelow lib rel parts done in
      let again : normalize_rel lib (join parts) ≡ ok parts = twice parts below filled in
      subst (λ p. (normalize_rel lib p.1 >>= λ ss. ok (ss, join ss)) ≡ ok p) same (rw again refl)
