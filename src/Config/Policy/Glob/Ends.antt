-- ===== src/Config/Policy/Glob/Ends.antt =====
-- The fuel of the loop suffices: each turn shortens the pass that runs, or starts one of those left.
use solx_core.Prelude.{
  ℕ, zero, suc, ◌+◌, ◌≤◌, ◌<◌, false, ◌||◌, none, some, [], ◌∷◌, length, ◌==◌, Text, ◌≢◌,
  Bool-cases, inl, inr, arith,
}
use solx_core.Config.Policy.Glob.{Star, Turn, go_back, turn, glob_loop, budget, glob_fuel}

-- The passes that are left: one for each character behind the last star, and the one that runs.
abbrev passes : Text → Star → ℕ
passes t none = length t
passes t (some (p, s)) = suc (length s)

-- The bounds that every turn keeps: on the pattern, the text and the last star.
abbrev Bounded : ℕ → Text → Text → Star → Type 0
Bounded n p t none = length p + length t ≤ n
Bounded n p t (some (q, s)) =
    (length p + length t ≤ n) × (length q + length s ≤ n) × (length t ≤ suc (length s))

-- What a loop needs: behind the text one turn, else the passes and the rest of the one that runs.
abbrev need : ℕ → Text → Text → Star → ℕ
need n p [] star = 0
need n p (c ∷ t) star = budget (suc n) (passes (c ∷ t) star) + length p + suc (length t)

-- A turn goes on within the bounds, and needs less.
abbrev Shrinks : ℕ → ℕ → Turn → Type 0
Shrinks n f none = Unit
Shrinks n f (some (p, t, star)) = Bounded n p t star × (need n p t star < f)

go_back-Shrinks :
    (n f : ℕ) (p : Text) (c : ℕ) (t : Text) (star : Star)
    → Bounded n p (c ∷ t) star
    → need n p (c ∷ t) star < suc f
    → Shrinks n f (go_back star)
unfolding budget
go_back-Shrinks n f p c t none b h = tt
go_back-Shrinks n f p c t (some (q, [])) (b₀, b₁, b₂) h = ((b₁, b₁, omega arith), omega (arith, h))
go_back-Shrinks n f p c t (some (q, x ∷ s)) (b₀, b₁, b₂) h =
    ((b₁, omega (arith, b₁), omega arith), omega (arith, h, b₁))

-- A character is passed.
step-Shrinks :
    (n f : ℕ) (p : Text) (c : ℕ) (t : Text) (star : Star)
    → suc (length p) + suc (length t) ≤ n
    → Bounded n p (c ∷ t) star
    → budget (suc n) (passes (c ∷ t) star) + suc (length p) + suc (length t) < suc f
    → Shrinks n f (some (p, t, star))
unfolding budget
step-Shrinks n f p c [] none fits b h = (omega (arith, fits), omega (arith, h))
step-Shrinks n f p c (d ∷ t) none fits b h = (omega (arith, fits), omega (arith, h))
step-Shrinks n f p c [] (some (q, s)) fits (b₀, b₁, b₂) h =
    ((omega (arith, fits), b₁, omega arith), omega (arith, h))
step-Shrinks n f p c (d ∷ t) (some (q, s)) fits (b₀, b₁, b₂) h =
    ((omega (arith, fits), b₁, omega (arith, b₂)), omega (arith, h))

budget_mono : (k a b : ℕ) → a ≤ b → budget k a ≤ budget k b
unfolding budget
budget_mono k zero b h = omega arith
budget_mono k (suc a) zero h = absurd (omega arith)
budget_mono k (suc a) (suc b) h = let less = budget_mono k a b (omega arith) in omega (arith, less)

-- A star is passed and remembered.
star-Shrinks :
    (n f : ℕ) (p : Text) (c : ℕ) (t : Text) (star : Star)
    → suc (length p) + suc (length t) ≤ n
    → Bounded n p (c ∷ t) star
    → budget (suc n) (passes (c ∷ t) star) + suc (length p) + suc (length t) < suc f
    → Shrinks n f (some (p, c ∷ t, some (p, t)))
star-Shrinks n f p c t none fits b h =
    ((omega (arith, fits), omega (arith, fits), omega arith), omega (arith, h))
star-Shrinks n f p c t (some (q, s)) fits (b₀, b₁, b₂) h =
    let less = budget_mono (suc n) (suc (length t)) (suc (length s)) b₂ in
    ((omega (arith, fits), omega (arith, fits), omega arith), omega (arith, h, less))

within : (n : ℕ) (p t : Text) (star : Star) → Bounded n p t star → length p + length t ≤ n
within n p t none b = b
within n p t (some (q, s)) (b₀, b₁, b₂) = b₀

narrower : (n d : ℕ) (p t : Text) (star : Star) → Bounded n (d ∷ p) t star → Bounded n p t star
narrower n d p t none b = omega (arith, b)
narrower n d p t (some (q, s)) (b₀, b₁, b₂) = (omega (arith, b₀), b₁, b₂)

turn-Shrinks :
    (n f : ℕ) (p : Text) (c : ℕ) (t : Text) (star : Star)
    → Bounded n p (c ∷ t) star
    → need n p (c ∷ t) star < suc f
    → Shrinks n f (turn p c t star)
turn-Shrinks n f [] c t star b h = go_back-Shrinks n f [] c t star b h
turn-Shrinks n f (d ∷ p) c t star b h =
    let fits = within n (d ∷ p) (c ∷ t) star b in
    elim (Bool-cases (d == b'?' || d == c)) [
      | inl e ↦ rw e (step-Shrinks n f p c t star fits (narrower n d p (c ∷ t) star b) h)
      | inr e ↦ elim (Bool-cases (d == b'*')) [
        | inl g ↦ rw (e, g) (star-Shrinks n f p c t star fits (narrower n d p (c ∷ t) star b) h)
        | inr g ↦ rw (e, g) (go_back-Shrinks n f (d ∷ p) c t star b h)
      ]
    ]

loop_ends :
    (n f : ℕ) (p t : Text) (star : Star)
    → Bounded n p t star
    → need n p t star < f
    → glob_loop f p t star ≢ none
unfolding glob_loop
loop_ends n zero p t star b h = absurd (omega arith)
loop_ends n (suc f) p [] star b h = cc
loop_ends n (suc f) p (c ∷ t) star b h =
    by_turn (λ p' t' star' b' h'. loop_ends n f p' t' star' b' h') (turn p c t star)
      (turn-Shrinks n f p c t star b h)
  where
    by_turn :
        ((p' t' : Text) (star' : Star)
          → Bounded n p' t' star'
          → need n p' t' star' < f
          → glob_loop f p' t' star' ≢ none)
        → (r : Turn) → Shrinks n f r
        → elim r [ none ↦ some false | some (p', t', star') ↦ glob_loop f p' t' star' ] ≢ none
    by_turn later none on = cc
    by_turn later (some (p', t', star')) (b', h') = later p' t' star' b' h'

need-glob_fuel :
    (pattern t : Text) → need (length pattern + length t) pattern t none < glob_fuel pattern t
need-glob_fuel pattern [] = omega arith
need-glob_fuel pattern (c ∷ t) = omega arith

pub glob_loop-ne-none : (pattern t : Text) → glob_loop (glob_fuel pattern t) pattern t none ≢ none
glob_loop-ne-none pattern t =
    loop_ends (length pattern + length t) (glob_fuel pattern t) pattern t none (omega arith)
      (need-glob_fuel pattern t)
