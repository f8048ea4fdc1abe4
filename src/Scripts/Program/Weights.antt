-- ===== src/Scripts/Program/Weights.antt =====
-- Splitting makes texts no longer: the lengths of the parts and of the separators between them.
use solx_core.Prelude.{
  ℕ, zero, suc, ◌+◌, ◌≤◌, Bool, true, false, Option, none, some, List, [], ◌∷◌, ◌++◌, is_empty,
  length, length-append, Text, codes, text_eq, text_eq_iff, ◌≡◌, ◌⊎◌, inl, inr, refl, ap,
  Bool-cases, arith,
}
use solx_core.Surface.Path.{is_whitespace, trim, trim_start, trim_end, cons_trimmed}
use solx_core.Scripts.Quotes.{
  plain, quote_move, Move, keep, unquoted, Splitting, separated, moved, split_ahead, split_from,
  split_respecting_quotes_by,
}
use solx_core.Scripts.Program.{join, drop_empty, word_before, find_then}

-- The length of the texts, one more for each.
abbrev pub weight : List Text → ℕ
weight [] = 0
weight (w ∷ ws) = suc (length w + weight ws)

module _ {S : Type 0} (is_sep : S → ℕ → Bool × S) where
  abbrev StepWeighs : Splitting is_sep → List Text × Splitting is_sep → Type 0
  StepWeighs at r =
      ((r.0 ≡ []) × (length r.1.current ≡ suc (length at.current)))
      ⊎ ((r.0 ≡ at.current ∷ []) × (r.1.current ≡ []))

  length-snoc : (s : Text) (c : ℕ) → length (s ++ c ∷ []) ≡ suc (length s)
  length-snoc s c = let e = length-append s (c ∷ []) in omega (arith, e)

  step_weighs :
      (n : ℕ) (at : Splitting is_sep) (c : ℕ) (s : Text)
      → StepWeighs at (split_ahead is_sep n at c s)
  step_weighs (suc n) at c s = inl (refl, length-snoc at.current c)
  step_weighs zero at c s = by_move (quote_move at.quoting c s)
    where
      by_test : (r : Bool × S) → StepWeighs at (separated is_sep at c r)
      by_test (true, state') = inr (refl, refl)
      by_test (false, state') = inl (refl, length-snoc at.current c)

      by_move : (m : Move) → StepWeighs at (moved is_sep at c m)
      by_move (keep n q) = inl (refl, length-snoc at.current c)
      by_move unquoted = by_test (is_sep at.state c)

  weight_from :
      (at : Splitting is_sep) (s : Text)
      → weight (split_from is_sep at s) ≤ suc (length at.current + length s)
  unfolding split_from
  weight_from at [] = elim (Bool-cases (is_empty (trim at.current))) [
    | inl e ↦ rw e (omega arith)
    | inr e ↦ rw e (omega arith)
  ]
  weight_from at (c ∷ s) =
      let r = split_ahead is_sep at.ahead at c s in
      let later = weight_from r.1 s in
      elim (step_weighs at.ahead at c s) [
        | inl (none_, longer) ↦ rw none_ (omega (arith, later, longer))
        | inr (one, fresh) ↦
            let nothing : length r.1.current ≡ 0 = ap length fresh in
            rw one (omega (arith, later, nothing))
      ]

  pub weight-split :
      (state : S) (s : Text) → weight (split_respecting_quotes_by is_sep state s) ≤ suc (length s)
  unfolding split_respecting_quotes_by
  weight-split state s =
      let start : Splitting is_sep = record {
        current = [];
        ahead = 0;
        quoting = plain;
        state = state;
      } in
      let bound = weight_from start s in omega (arith, bound)

pub length-join :
    (sep : ℕ) (w : Text) (ws : List Text) → suc (length (join sep (w ∷ ws))) ≡ weight (w ∷ ws)
unfolding join
length-join sep w [] = omega arith
length-join sep w (v ∷ ws) =
    let e = length-append w (sep ∷ join sep (v ∷ ws)) in
    let later = length-join sep v ws in omega (arith, e, later)

pub length-join_le : (sep : ℕ) (ws : List Text) → length (join sep ws) ≤ weight ws
unfolding join
length-join_le sep [] = omega arith
length-join_le sep (w ∷ ws) = let e = length-join sep w ws in omega (arith, e)

pub weight-drop_empty : (ws : List Text) → weight (drop_empty ws) ≤ weight ws
unfolding drop_empty
weight-drop_empty [] = omega arith
weight-drop_empty (w ∷ ws) =
    let later = weight-drop_empty ws in
    elim (Bool-cases (is_empty w)) [
      | inl e ↦ rw e (omega (arith, later))
      | inr e ↦ rw e (omega (arith, later))
    ]

-- Behind the first `then` there are at least five characters less.
abbrev pub Behind : List Text → Option (List Text × List Text) → Type 0
Behind ws none = Unit
Behind ws (some (before, after)) = weight after + 5 ≤ weight ws

Behind-cons :
    (w : Text) (ws : List Text) (o : Option (List Text × List Text))
    → Behind ws o
    → Behind (w ∷ ws) (word_before w o)
Behind-cons w ws none h = tt
Behind-cons w ws (some (before, after)) h = omega (arith, h)

pub find_then-Behind : (ws : List Text) → Behind ws (find_then ws)
unfolding find_then
find_then-Behind [] = tt
find_then-Behind (w ∷ ws) = elim (Bool-cases (text_eq w (codes "then"))) [
  | inl e ↦
      let four : length w ≡ 4 = ap length ((text_eq_iff w (codes "then")).0 e) in
      rw e (omega (arith, four))
  | inr e ↦ rw e (Behind-cons w ws (find_then ws) (find_then-Behind ws))
]

pub length-trim_start : (s : Text) → length (trim_start s) ≤ length s
unfolding trim_start
length-trim_start [] = omega arith
length-trim_start (c ∷ s) =
    let later = length-trim_start s in
    elim (Bool-cases (is_whitespace c)) [
      | inl e ↦ rw e (omega (arith, later))
      | inr e ↦ rw e (omega arith)
    ]

length-cons_trimmed : (c : ℕ) (s : Text) → length (cons_trimmed c s) ≤ suc (length s)
length-cons_trimmed c [] = elim (Bool-cases (is_whitespace c)) [
  | inl e ↦ rw e (omega arith)
  | inr e ↦ rw e (omega arith)
]
length-cons_trimmed c (d ∷ s) = omega arith

pub length-trim_end : (s : Text) → length (trim_end s) ≤ length s
unfolding trim_end
length-trim_end [] = omega arith
length-trim_end (c ∷ s) =
    let later = length-trim_end s in
    let here = length-cons_trimmed c (trim_end s) in omega (arith, later, here)

pub length-trim : (s : Text) → length (trim s) ≤ length s
unfolding trim
length-trim s =
    let a = length-trim_start s in let b = length-trim_end (trim_start s) in omega (arith, a, b)
