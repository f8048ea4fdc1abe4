-- ===== src/Scripts/Stage/Assign.antt =====
-- What is taken for an assignment.
use solx_core.Prelude.{
  ℕ, true, false, some, [], ◌∷◌, ◌++◌, is_empty, ◌==◌, Text, ◌≡◌, refl, Bool-cases, ==_iff, inl,
  inr,
}
use solx_core.Surface.Path.{trim}
use solx_core.Scripts.Platform.{Platform}
use solx_core.Scripts.Values.{split_at_char}
use solx_core.Scripts.Stage.{has_char, all_word_chars, parse_assignment}

split_at_char-append :
    (sep : ℕ) (a b : Text) → has_char sep a ≡ false → split_at_char sep (a ++ sep ∷ b) ≡ some (a, b)
unfolding split_at_char has_char
split_at_char-append sep [] b h = rw ((==_iff sep sep).1 refl) refl
split_at_char-append sep (c ∷ a) b h = elim (Bool-cases (c == sep)) [
  | inl e ↦ cc (rw e at h)
  | inr e ↦ rw (e, split_at_char-append sep a b (rw e at h)) refl
]

module _ (P : Platform) where
  -- A statement that is `$`, a name and an equals sign with a rest is an assignment of the trimmed rest,
  -- whatever the rest is, also where it starts with a second equals sign. The name is a text of word
  -- characters that is not empty, has no equals sign in it and no white space around it.
  pub parse_assignment-name :
      (name rest : Text)
      → is_empty name ≡ false
      → all_word_chars P name ≡ true
      → has_char b'=' name ≡ false
      → trim name ≡ name
      → parse_assignment P (b'$' ∷ (name ++ b'=' ∷ rest)) ≡ (some name, trim rest)
  unfolding parse_assignment
  parse_assignment-name name rest nonempty word no_equals trimmed =
      rw (split_at_char-append b'=' name rest no_equals, trimmed, nonempty, word) refl
