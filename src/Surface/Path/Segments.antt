-- ===== src/Surface/Path/Segments.antt =====
-- What a segment is, and how `split`, `rfind` and the loop of `normalize_path` treat a rendered
-- list of segments.
use solx_core.Prelude.{
  ℕ, ◌<◌, Bool, true, false, ◌||◌, List, [], ◌∷◌, ◌++◌, append_assoc, append-nil, none, some, ◌≡◌,
  ◌≢◌, ◌↔◌, refl, sym, ap, ◌∙◌, ◌⊎◌, inl, inr, arith, Bool-cases, ◌==◌, any, All, length, Text,
  codes, text_eq, text_eq_iff, ok, ◌>>=◌, >>=-eq-ok,
}
use solx_core.Surface.Path.{is_forbidden, is_control, validate_segment, split, rfind, push_segments}

-- A character that a segment may hold: no separator, and outside the category Cc.
pub record IsPlain (c : ℕ) : Type 0 where
  pub slash : c ≢ b'/'
  pub backslash : c ≢ b'\\'
  pub colon : c ≢ b':'
  pub above_c0 : 31 < c
  pub outside_c1 : (c < 127) ⊎ (159 < c)

pub record IsSegment (seg : Text) : Type 0 where
  pub nonempty : seg ≢ []
  pub not_dot : seg ≢ codes "."
  pub not_dots : seg ≢ codes ".."
  pub plain : All IsPlain seg

IsPlain-of_test : (c : ℕ) → (is_forbidden c || is_control c) ≡ false → IsPlain c
unfolding is_forbidden is_control
IsPlain-of_test c h = ground arith

test_of_plain : (c : ℕ) → IsPlain c → (is_forbidden c || is_control c) ≡ false
unfolding is_forbidden is_control
test_of_plain c h = ground arith

abbrev bad : ℕ → Bool
bad c = is_forbidden c || is_control c

All-IsPlain : (s : Text) → any bad s ≡ false → All IsPlain s
All-IsPlain [] h = tt
All-IsPlain (c ∷ s) h = elim (Bool-cases (bad c)) [
  | inl e ↦ let f : true ≡ false = rw e at h in cc
  | inr e ↦ (IsPlain-of_test c e, All-IsPlain s (rw e at h))
]

none_bad : (s : Text) → All IsPlain s → any bad s ≡ false
none_bad [] h = refl
none_bad (c ∷ s) (p, h) = rw (test_of_plain c p) (none_bad s h)

is_segment : (seg : Text) → validate_segment seg ≡ ok tt → IsSegment seg
unfolding validate_segment
is_segment [] h = cc
is_segment (c ∷ s) h =
    let tests : (text_eq (c ∷ s) (codes ".") ≡ false)
        × (text_eq (c ∷ s) (codes "..") ≡ false)
        × (any bad (c ∷ s) ≡ false) =
      ground arith in
    record {
      nonempty = cc;
      not_dot = λ e. cc (tests.0, (text_eq_iff (c ∷ s) (codes ".")).1 e);
      not_dots = λ e. cc (tests.1, (text_eq_iff (c ∷ s) (codes "..")).1 e);
      plain = All-IsPlain (c ∷ s) tests.2;
    }

text_ne : (a b : Text) → a ≢ b → text_eq a b ≡ false
text_ne a b ne = elim (Bool-cases (text_eq a b)) [
  | inl e ↦ absurd (ne ((text_eq_iff a b).0 e))
  | inr e ↦ e
]

accepts_segment : (seg : Text) → IsSegment seg → validate_segment seg ≡ ok tt
unfolding validate_segment
accepts_segment [] h = absurd (h.nonempty refl)
accepts_segment (c ∷ s) h = rw (
  text_ne (c ∷ s) (codes ".") h.not_dot,
  text_ne (c ∷ s) (codes "..") h.not_dots,
  none_bad (c ∷ s) h.plain,
)

-- `validate_segment` accepts exactly the segments: not empty, not "." or "..", and with no
-- separator, colon or control character.
pub validate_segment_iff : (seg : Text) → (validate_segment seg ≡ ok tt) ↔ IsSegment seg
validate_segment_iff seg = (is_segment seg, accepts_segment seg)

abbrev pub NoSlash : Text → Type 0
NoSlash = All (λ c. c ≢ b'/')

pub noslash_of_plain : (s : Text) → All IsPlain s → NoSlash s
noslash_of_plain [] h = tt
noslash_of_plain (c ∷ s) (p, h) = (p.slash, noslash_of_plain s h)

pub IsSegment-NoSlash : (s : Text) → IsSegment s → NoSlash s
IsSegment-NoSlash s h = noslash_of_plain s h.plain

-- Each segment behind a slash, as the loop of `normalize_path` builds it.
abbrev pub render : List Text → Text
render [] = []
render (seg ∷ segs) = b'/' ∷ (seg ++ render segs)

pub render-append : (a b : List Text) → render (a ++ b) ≡ render a ++ render b
render-append [] b = refl
render-append (x ∷ a) b =
    ap (λ t. b'/' ∷ t)
      (ap (λ t. x ++ t) (render-append a b) ∙ sym (append_assoc x (render a) (render b)))

ne_test : (c d : ℕ) → c ≢ d → (c == d) ≡ false
ne_test c d h = ground arith

pub split-append-render :
    (seg : Text) (segs : List Text)
    → NoSlash seg
    → All IsSegment segs
    → split b'/' (seg ++ render segs) ≡ seg ∷ segs
unfolding split
split-append-render [] [] h k = refl
split-append-render [] (s ∷ segs) h (p, k) =
    rw (split-append-render s segs (IsSegment-NoSlash s p) k)
split-append-render (c ∷ seg) segs (p, h) k =
    rw (ne_test c b'/' p, split-append-render seg segs h k)

pub rfind-none : (s : Text) → NoSlash s → rfind b'/' s ≡ none
unfolding rfind
rfind-none [] h = refl
rfind-none (c ∷ s) (p, h) = rw (rfind-none s h, ne_test c b'/' p)

-- The last slash is the one that no slash follows.
pub rfind-append : (a b : Text) → NoSlash b → rfind b'/' (a ++ b'/' ∷ b) ≡ some (length a)
unfolding rfind
rfind-append [] b h = rw (rfind-none b h)
rfind-append (c ∷ a) b h = rw (rfind-append a b h)

-- The loop appends valid segments, each behind a slash,
pub push_segments-render :
    (out : Text) (segs : List Text)
    → All IsSegment segs
    → push_segments out segs ≡ ok (out ++ render segs)
unfolding push_segments
push_segments-render out [] h = rw append-nil
push_segments-render out ([] ∷ segs) (p, h) = absurd (p.nonempty refl)
push_segments-render out ((c ∷ seg) ∷ segs) (p, h) =
    rw (accepts_segment (c ∷ seg) p, push_segments-render (out ++ b'/' ∷ c ∷ seg) segs h)
      (ap ok (append_assoc out (b'/' ∷ c ∷ seg) (render segs)))

-- What the loop keeps: empty parts come from repeated, leading and trailing slashes.
abbrev pub nonempty : List Text → List Text
nonempty [] = []
nonempty ([] ∷ segs) = nonempty segs
nonempty ((c ∷ seg) ∷ segs) = (c ∷ seg) ∷ nonempty segs

pub nonempty_of_segments : (segs : List Text) → All IsSegment segs → nonempty segs ≡ segs
nonempty_of_segments [] h = refl
nonempty_of_segments ([] ∷ segs) (p, h) = absurd (p.nonempty refl)
nonempty_of_segments ((c ∷ seg) ∷ segs) (p, h) = ap (◌∷◌ (c ∷ seg)) (nonempty_of_segments segs h)

-- it skips the empty parts,
pub push_segments-nonempty :
    (out : Text) (segs : List Text) → push_segments out segs ≡ push_segments out (nonempty segs)
unfolding push_segments
push_segments-nonempty out [] = refl
push_segments-nonempty out ([] ∷ segs) = push_segments-nonempty out segs
push_segments-nonempty out ((c ∷ seg) ∷ segs) =
    ap (λ r. validate_segment (c ∷ seg) >>= (λ _. r))
      (push_segments-nonempty (out ++ b'/' ∷ c ∷ seg) segs)

-- and it returns nothing else.
pub push_segments_sound :
    (out : Text) (segs : List Text) {r : Text}
    → push_segments out segs ≡ ok r
    → All IsSegment (nonempty segs) × (r ≡ out ++ render (nonempty segs))
unfolding push_segments
push_segments_sound out [] h = (tt, rw append-nil cc)
push_segments_sound out ([] ∷ segs) h = push_segments_sound out segs h
push_segments_sound out ((c ∷ seg) ∷ segs) h =
    let (u, e, h') =
      >>=-eq-ok (validate_segment (c ∷ seg)) (λ _. push_segments (out ++ b'/' ∷ c ∷ seg) segs) h in
    let (p, q) = push_segments_sound (out ++ b'/' ∷ c ∷ seg) segs h' in
    ((is_segment (c ∷ seg) e, p), q ∙ append_assoc out (b'/' ∷ c ∷ seg) (render (nonempty segs)))
