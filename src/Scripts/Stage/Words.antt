-- ===== src/Scripts/Stage/Words.antt =====
-- Words that are set apart by spaces are the arguments of a stage.
use solx_core.Prelude.{
  ℕ, false, List, [], ◌∷◌, ◌++◌, append_assoc, append-nil, ◌==◌, Text, ◌≡◌, refl, ap, ◌∙◌,
}
use solx_core.Surface.Path.{is_whitespace}
use solx_core.Scripts.Quotes.{plain}
use solx_core.Scripts.Stage.{
  StageArg, text_arg, in_text, ended, text_step, stage_step, tokenize_from, tokenize_stage_args,
}

-- Characters that stand for themselves in an argument.
abbrev pub IsBare : ℕ → Type 0
IsBare c =
    ((c == b'\'') ≡ false)
    × ((c == b'"') ≡ false)
    × ((c == b'{') ≡ false)
    × ((c == b'[') ≡ false)
    × (is_whitespace c ≡ false)

abbrev pub AreBare : Text → Type 0
AreBare [] = Unit
AreBare (c ∷ s) = IsBare c × AreBare s

abbrev pub IsWord : Text → Type 0
IsWord [] = ⊥
IsWord (c ∷ s) = IsBare c × AreBare s

abbrev pub AreWords : List Text → Type 0
AreWords [] = Unit
AreWords (w ∷ ws) = IsWord w × AreWords ws

abbrev pub spaced : List Text → Text
spaced [] = []
spaced (w ∷ ws) = w ++ b' ' ∷ spaced ws

abbrev pub text_args : List Text → List StageArg
text_args [] = []
text_args (w ∷ ws) = text_arg w ∷ text_args ws

bare_step :
    (cur : Text) (c : ℕ) (s : Text)
    → IsBare c
    → text_step cur plain c s ≡ ([], in_text (cur ++ c ∷ []) plain 0)
unfolding text_step
bare_step [] c s (a, b, d, e, w) = rw (a, b, d, e, w) refl
bare_step (x ∷ cur) c s (a, b, d, e, w) = rw (a, b, w) refl

space_step : (cur s : Text) → text_step cur plain b' ' s ≡ (ended cur, in_text [] plain 0)
unfolding text_step is_whitespace
space_step [] s = refl
space_step (x ∷ cur) s = refl

word_read :
    (x : ℕ) (cur w s : Text)
    → AreBare w
    → tokenize_from (in_text (x ∷ cur) plain 0) (w ++ b' ' ∷ s)
      ≡ text_arg (x ∷ (cur ++ w)) ∷ tokenize_from (in_text [] plain 0) s
unfolding tokenize_from stage_step
word_read x cur [] s h = rw (space_step (x ∷ cur) s, append-nil cur) refl
word_read x cur (c ∷ w) s (hc, h) = rw (bare_step (x ∷ cur) c (w ++ b' ' ∷ s) hc) (
    word_read x (cur ++ c ∷ []) w s h
    ∙ ap (λ t. text_arg (x ∷ t) ∷ tokenize_from (in_text [] plain 0) s)
        (append_assoc cur (c ∷ []) w))

words_read :
    (ws : List Text) → AreWords ws → tokenize_from (in_text [] plain 0) (spaced ws) ≡ text_args ws
unfolding tokenize_from stage_step
words_read [] h = refl
words_read ([] ∷ ws) (hw, h) = absurd hw
words_read ((c ∷ w) ∷ ws) ((hc, hw), h) =
    rw (bare_step [] c (w ++ b' ' ∷ spaced ws) hc)
      (word_read c [] w (spaced ws) hw ∙ ap (λ args. text_arg (c ∷ w) ∷ args) (words_read ws h))

-- Words without quotes, opening brackets and white space, none of them empty and each with a space
-- behind it, are split into the words themselves, in order, as texts.
pub tokenize_stage_args-spaced :
    (ws : List Text) → AreWords ws → tokenize_stage_args (spaced ws) ≡ text_args ws
unfolding tokenize_stage_args
tokenize_stage_args-spaced ws h = words_read ws h
