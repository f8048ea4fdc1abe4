-- ===== src/Scripts/Program/Total.antt =====
-- A script is split into statements and parsed within the fuel: a header that is taken off leaves a
-- shorter text.
use solx_core.Prelude.{
  ℕ, zero, suc, ◌+◌, ◌≤◌, ◌<◌, Bool, true, false, Option, none, some, List, [], ◌∷◌, ◌++◌,
  if◌then◌else◌, length, length-append, ◌==◌, Text, Result, ok, err, ◌>>=◌, ◌≡◌, ◌≢◌, ◌⊎◌, refl,
  inl, inr, arith,
}
use solx_core.Surface.Path.{is_whitespace, trim, trim_start}
use solx_core.Scripts.Platform.{Platform}
use solx_core.Scripts.Parser.{Stop, out_of_fuel}
use solx_core.Scripts.Quotes.{split_respecting_quotes, split_respecting_quotes_by}
use solx_core.Scripts.Block.Keywords.{split_first_word}
use solx_core.Scripts.Block.Total.{parse_statements-ne-out_of_fuel}
use solx_core.Scripts.Program.{
  is_line_keyword, join, words_of, find_then, joined_at, split_at_then, is_conditional, header_of,
  cut_header, push_loop, push_statements, push_all, parse_program,
}
use solx_core.Scripts.Program.Weights.{
  weight, weight-split, weight-drop_empty, length-join, length-join_le, Behind, find_then-Behind,
  length-trim, length-trim_start, length-trim_end,
}

weight-words_of : (line : Text) → weight (words_of line) ≤ suc (length line)
weight-words_of line =
    let parts = split_respecting_quotes_by (λ st c. (is_whitespace c, st)) tt line in
    let a = weight-drop_empty parts in
    let b = weight-split (λ st c. (is_whitespace c, st)) tt line in omega (arith, a, b)

-- What stands behind `then` is empty, or at least two characters shorter than the line.
abbrev AfterThen : Text → Text → Type 0
AfterThen line after = (after ≡ []) ⊎ (length after + 2 ≤ length line)

after_then : (line : Text) → AfterThen line ((split_at_then line).1)
unfolding split_at_then
after_then line = by_split (find_then (words_of line)) (find_then-Behind (words_of line))
  where
    by_split :
        (o : Option (List Text × List Text))
        → Behind (words_of line) o
        → ((joined_at line o).1 ≡ []) ⊎ (length ((joined_at line o).1) + 2 ≤ length line)
    by_split none h = inl refl
    by_split (some (before, after)) h =
        let a = length-join_le b' ' after in
        let b = weight-words_of line in inr (omega (arith, a, b, h))

length-trim_newline : (s : Text) → length (trim (b'\n' ∷ s)) ≤ length s
unfolding trim trim_start is_whitespace
length-trim_newline s =
    let a = length-trim_start s in let b = length-trim_end (trim_start s) in omega (arith, a, b)

-- The lines behind the first are shorter than the text.
length-lines :
    (n : ℕ) (line : Text) (lines : List Text)
    → weight (line ∷ lines) ≤ suc (suc n)
    → (length (join b'\n' lines) ≤ n) × (length line + length (join b'\n' lines) ≤ suc n)
unfolding join
length-lines n line [] h = (omega arith, omega (arith, h))
length-lines n line (l ∷ lines) h =
    let e = length-join b'\n' l lines in (omega (arith, e, h), omega (arith, e, h))

behind_header :
    (n : ℕ) (line after rest : Text)
    → AfterThen line after
    → length rest ≤ n
    → length line + length rest ≤ suc n
    → length (trim (after ++ b'\n' ∷ rest)) ≤ n
behind_header n line after rest (inl none_) le sum =
    let bound = length-trim_newline rest in rw none_ (omega (arith, bound, le))
behind_header n line after rest (inr shorter) le sum =
    let a = length-trim (after ++ b'\n' ∷ rest) in
    let b = length-append after (b'\n' ∷ rest) in omega (arith, a, b, shorter, sum)

rest_shorter :
    (n : ℕ) (conditional : Bool) (lines : List Text)
    → weight lines ≤ suc (suc n)
    → length (trim ((header_of conditional lines).1)) ≤ n
rest_shorter n true [] h =
    behind_header n [] ((split_at_then []).1) [] (after_then []) (omega arith) (omega arith)
rest_shorter n false [] h = behind_header n [] [] [] (inl refl) (omega arith) (omega arith)
rest_shorter n true (line ∷ lines) h =
    let (le, sum) = length-lines n line lines h in
    behind_header n line ((split_at_then line).1) (join b'\n' lines) (after_then line) le sum
rest_shorter n false (line ∷ lines) h =
    let (le, sum) = length-lines n line lines h in
    behind_header n line [] (join b'\n' lines) (inl refl) le sum

cut_shorter : (n : ℕ) (rest : Text) → length rest ≤ suc n → length (trim ((cut_header rest).1)) ≤ n
unfolding split_respecting_quotes
cut_shorter n rest h =
    let bound = weight-split (λ st c. (c == b'\n', st)) tt rest in
    rest_shorter n (is_conditional rest) (split_respecting_quotes b'\n' rest)
      (omega (arith, bound, h))

-- The loop has fuel enough for every text that is shorter.
abbrev IsDone : {A : Type 0} → Result A Stop → Type 0
IsDone {A} r = (a : A) × (r ≡ ok a)

IsDone-if :
    {A : Type 0} (b : Bool) (x y : Result A Stop)
    → (b ≡ false → IsDone y)
    → IsDone x
    → IsDone (if b then x else y)
IsDone-if true x y hy hx = hx
IsDone-if false x y hy hx = hy refl

IsDone-bind :
    {A B : Type 0} (r : Result A Stop) (k : A → Result B Stop)
    → IsDone r
    → ((a : A) → IsDone (k a))
    → IsDone (r >>= k)
IsDone-bind r k (a, e) h = rw e (h a)

push_loop-IsDone : (f : ℕ) (rest : Text) → length rest < f → IsDone (push_loop f rest)
unfolding push_loop
push_loop-IsDone zero rest h = absurd (omega arith)
push_loop-IsDone (suc f) [] h = ([], refl)
push_loop-IsDone (suc zero) (c ∷ s) h = absurd (omega arith)
push_loop-IsDone (suc (suc f)) (c ∷ s) h =
    let shorter = cut_shorter f (c ∷ s) (omega arith) in
    IsDone-if (is_line_keyword ((split_first_word (c ∷ s)).0)) _ _ (λ no. ((c ∷ s) ∷ [], refl))
      (IsDone-bind (push_loop (suc f) (trim ((cut_header (c ∷ s)).1))) _
        (push_loop-IsDone (suc f) (trim ((cut_header (c ∷ s)).1)) (omega (arith, shorter)))
        (λ stmts. (_, refl)))

push_all-IsDone : (pieces : List Text) → IsDone (push_all pieces)
unfolding push_all push_statements
push_all-IsDone [] = ([], refl)
push_all-IsDone (piece ∷ pieces) =
    IsDone-bind (push_loop (suc (length (trim piece))) (trim piece)) _
      (push_loop-IsDone (suc (length (trim piece))) (trim piece) (omega arith))
      (λ stmts. IsDone-bind (push_all pieces) _ (push_all-IsDone pieces) (λ rest. (_, refl)))

module _ (P : Platform) where
  -- Parsing a script ends: on every text, however its headers, `if`s and `for`s are put together, it
  -- returns a block or refuses, and never runs out of its fuel.
  pub parse_program-ne-out_of_fuel : (source : Text) → parse_program P source ≢ err out_of_fuel
  unfolding parse_program
  parse_program-ne-out_of_fuel source stuck =
      let (stmts, e) = push_all-IsDone (split_respecting_quotes b';' source) in
      parse_statements-ne-out_of_fuel P stmts (rw e at stuck)
