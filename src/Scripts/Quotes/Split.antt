-- ===== src/Scripts/Quotes/Split.antt =====
-- Splitting outside quotes loses nothing but the separators and a blank end.
use solx_core.Prelude.{
  ℕ, zero, suc, Bool, true, List, [], ◌∷◌, ◌++◌, append_assoc, append-nil, subst, is_empty, ◌==◌,
  ==_iff, Text, ◌≡◌, ◌⊎◌, inl, inr, refl, sym, ap, ◌∙◌, Bool-cases,
}
use solx_core.Surface.Path.{trim}
use solx_core.Scripts.Quotes.{
  plain, quote_move, Move, keep, unquoted, Splitting, moved, split_ahead, split_from,
  split_respecting_quotes_by, split_respecting_quotes,
}

-- Each part with the separator behind it.
abbrev closed : ℕ → List Text → Text
closed sep [] = []
closed sep (part ∷ parts) = part ++ sep ∷ closed sep parts

-- The parts make up the text: each but the last is followed by a separator, the last by nothing or
-- by a separator and a blank text.
abbrev pub MakeUp : ℕ → List Text → Text → Type 0
MakeUp sep parts s =
    (closed sep parts ≡ s ++ sep ∷ [])
    ⊎ ((blank : Text) × (s ≡ closed sep parts ++ blank) × (is_empty (trim blank) ≡ true))

module _ (sep : ℕ) where
  abbrev test : Unit {0} → ℕ → Bool × Unit {0}
  test st c = (c == sep, st)

  MakeUp-cons :
      (part : Text) (parts : List Text) (s : Text)
      → MakeUp sep parts s
      → MakeUp sep (part ∷ parts) (part ++ sep ∷ s)
  MakeUp-cons part parts s (inl e) =
      inl (ap (λ t. part ++ sep ∷ t) e ∙ sym (append_assoc part (sep ∷ s) (sep ∷ [])))
  MakeUp-cons part parts s (inr (blank, e, h)) = inr (
    blank,
    ap (λ t. part ++ sep ∷ t) e ∙ sym (append_assoc part (sep ∷ closed sep parts) blank),
    h,
  )

  -- A step pushes the character, or closes the part at a separator.
  abbrev StepTo : Splitting test → ℕ → List Text × Splitting test → Type 0
  StepTo at c r =
      ((r.0 ≡ []) × (r.1.current ≡ at.current ++ c ∷ []))
      ⊎ ((r.0 ≡ at.current ∷ []) × (r.1.current ≡ []) × (c ≡ sep))

  step_to :
      (n : ℕ) (at : Splitting test) (c : ℕ) (s : Text) → StepTo at c (split_ahead test n at c s)
  step_to (suc n) at c s = inl (refl, refl)
  step_to zero at c s = by_move (quote_move at.quoting c s)
    where
      by_move : (m : Move) → StepTo at c (moved test at c m)
      by_move (keep n q) = inl (refl, refl)
      by_move unquoted = elim (Bool-cases (c == sep)) [
        | inl e ↦ rw e (inr (refl, refl, (==_iff c sep).0 e))
        | inr e ↦ rw e (inl (refl, refl))
      ]

  from : (at : Splitting test) (s : Text) → MakeUp sep (split_from test at s) (at.current ++ s)
  unfolding split_from
  from at [] = elim (Bool-cases (is_empty (trim at.current))) [
    | inl e ↦ rw (e, append-nil at.current) (inr (at.current, refl, e))
    | inr e ↦ rw (e, append-nil at.current) (inl refl)
  ]
  from at (c ∷ s) = elim (step_to at.ahead at c s) [
    | inl (none_, pushed) ↦
        let r = split_ahead test at.ahead at c s in
        subst (λ t. MakeUp sep (r.0 ++ split_from test r.1 s) t)
          (ap (λ t. t ++ s) pushed ∙ append_assoc at.current (c ∷ []) s) (rw none_ (from r.1 s))
    | inr (one, fresh, same) ↦
        let r = split_ahead test at.ahead at c s in
        subst (λ ps. MakeUp sep (ps ++ split_from test r.1 s) (at.current ++ c ∷ s)) (sym one)
          (subst (λ d. MakeUp sep (at.current ∷ split_from test r.1 s) (at.current ++ d ∷ s))
            (sym same)
            (MakeUp-cons at.current (split_from test r.1 s) s
              (subst (λ t. MakeUp sep (split_from test r.1 s) (t ++ s)) fresh (from r.1 s))))
  ]

-- Splitting a text outside its quotes loses nothing: the parts, each with a separator behind it, are
-- the text with a separator behind it; or they are the text up to a blank end, which is dropped.
pub split_respecting_quotes-MakeUp :
    (sep : ℕ) (s : Text) → MakeUp sep (split_respecting_quotes sep s) s
unfolding split_respecting_quotes split_respecting_quotes_by
split_respecting_quotes-MakeUp sep s =
    from sep (record { current = []; ahead = 0; quoting = plain; state = tt }) s
