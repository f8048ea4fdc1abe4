-- ===== src/Surface/Path/Trim.antt =====
-- The laws of `str::trim` that paths and names rest on.
use solx_core.Prelude.{ℕ, false, [], ◌∷◌, ◌++◌, ◌≡◌, ◌≢◌, refl, ap, ◌∙◌, inl, inr, Bool-cases, Text}
use solx_core.Surface.Path.{is_whitespace, trim_start, trim_end, cons_trimmed, trim}

trim_end-cons_trimmed :
    (c : ℕ) (s : Text) → trim_end s ≡ s → trim_end (cons_trimmed c s) ≡ cons_trimmed c s
unfolding trim_end
trim_end-cons_trimmed c [] h = elim (Bool-cases (is_whitespace c)) [
  | inl e ↦ rw e
  | inr e ↦ rw (e, e)
]
trim_end-cons_trimmed c (d ∷ s) h = rw h

pub trim_end-trim_end : (s : Text) → trim_end (trim_end s) ≡ trim_end s
unfolding trim_end
trim_end-trim_end [] = refl
trim_end-trim_end (c ∷ s) = trim_end-cons_trimmed c (trim_end s) (trim_end-trim_end s)

-- A text that does not end in white space protects what stands in front of it.
pub trim_end-append : (a b : Text) → trim_end b ≡ b → b ≢ [] → trim_end (a ++ b) ≡ a ++ b
unfolding trim_end
trim_end-append [] b h ne = h
trim_end-append (c ∷ []) [] h ne = absurd (ne refl)
trim_end-append (c ∷ []) (d ∷ b) h ne = rw h
trim_end-append (c ∷ x ∷ a) b h ne = rw (trim_end-append (x ∷ a) b h ne)

abbrev StartsDark : Text → Type 0
StartsDark [] = Unit
StartsDark (c ∷ _) = is_whitespace c ≡ false

trim_start-StartsDark : (s : Text) → StartsDark (trim_start s)
unfolding trim_start
trim_start-StartsDark [] = tt
trim_start-StartsDark (c ∷ s) = elim (Bool-cases (is_whitespace c)) [
  | inl e ↦ rw e (trim_start-StartsDark s)
  | inr e ↦ rw e e
]

trim_start_dark : (s : Text) → StartsDark s → trim_start s ≡ s
unfolding trim_start
trim_start_dark [] h = refl
trim_start_dark (c ∷ s) h = rw h

cons_trimmed-StartsDark :
    (c : ℕ) (s : Text) → is_whitespace c ≡ false → StartsDark (cons_trimmed c s)
cons_trimmed-StartsDark c [] h = rw h h
cons_trimmed-StartsDark c (d ∷ s) h = h

trim_end-StartsDark : (s : Text) → StartsDark s → StartsDark (trim_end s)
unfolding trim_end
trim_end-StartsDark [] h = tt
trim_end-StartsDark (c ∷ s) h = cons_trimmed-StartsDark c (trim_end s) h

-- Trimming twice is trimming once.
pub trim-trim : (s : Text) → trim (trim s) ≡ trim s
unfolding trim
trim-trim s =
    ap trim_end (
      trim_start_dark (trim_end (trim_start s))
        (trim_end-StartsDark (trim_start s) (trim_start-StartsDark s)))
    ∙ trim_end-trim_end (trim_start s)

pub trim_end-trim : (s : Text) → trim_end (trim s) ≡ trim s
unfolding trim
trim_end-trim s = trim_end-trim_end (trim_start s)

-- What starts at a slash is trimmed at its end only.
pub trim_slash : (s : Text) → trim (b'/' ∷ s) ≡ trim_end (b'/' ∷ s)
unfolding trim trim_start is_whitespace
trim_slash s = refl

pub trim_end_slash : (s : Text) → trim_end (b'/' ∷ s) ≡ b'/' ∷ trim_end s
unfolding trim_end is_whitespace
trim_end_slash s = at (trim_end s)
  where
    at : (t : Text) → cons_trimmed b'/' t ≡ b'/' ∷ t
    at [] = refl
    at (d ∷ t) = refl
