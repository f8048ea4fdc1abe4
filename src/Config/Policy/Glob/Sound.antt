-- ===== src/Config/Policy/Glob/Sound.antt =====
-- What the loop accepts matches the pattern.
use solx_core.Prelude.{
  ℕ, zero, suc, Bool, true, false, Option, none, some, [], ◌∷◌, ◌==◌, ==_iff, Text, ◌≡◌, ◌≢◌,
  some-injective, sym, ap, subst, Bool-cases, inl, inr,
}
use solx_core.Config.Policy.Glob.{
  only_stars, behind_one, Star, Turn, go_back, turn, glob_loop, answer, glob_fuel, glob_matches,
}
use solx_core.Config.Policy.Glob.Ends.{glob_loop-ne-none}

-- What it is to match: `?` stands for any character, `*` for any text, a character for itself.
pub data GlobMatches : Text → Text → Type 0 where
  both_end : GlobMatches [] []
  any_char : {c : ℕ} {p t : Text} → GlobMatches p t → GlobMatches (b'?' ∷ p) (c ∷ t)
  same_char : {c : ℕ} {p t : Text} → GlobMatches p t → GlobMatches (c ∷ p) (c ∷ t)
  star_ends : {p t : Text} → GlobMatches p t → GlobMatches (b'*' ∷ p) t
  star_takes : {c : ℕ} {p t : Text} → GlobMatches (b'*' ∷ p) t → GlobMatches (b'*' ∷ p) (c ∷ t)

stars_match : (p : Text) → only_stars p ≡ true → GlobMatches p []
unfolding only_stars
stars_match [] h = both_end
stars_match (d ∷ p) h = elim (Bool-cases (d == b'*')) [
  | inl e ↦
      subst (λ x. GlobMatches (x ∷ p) []) (sym ((==_iff d b'*').0 e))
        (star_ends (stars_match p (rw e at h)))
  | inr e ↦ cc (rw e at h)
]

-- A match of what is left, or of the last star and what is behind it, is a match of the whole.
abbrev Back : Type 0 → Star → Type 0
Back Q none = Unit
Back Q (some (p, t)) = GlobMatches (b'*' ∷ p) t → Q

abbrev Onward : Type 0 → Turn → Type 0
Onward Q none = Unit
Onward Q (some (p, t, star)) = (GlobMatches p t → Q) × Back Q star

back_further :
    (Q : Type 0) (p t : Text)
    → (GlobMatches (b'*' ∷ p) t → Q)
    → GlobMatches (b'*' ∷ p) (behind_one t)
    → Q
back_further Q p [] h m = h m
back_further Q p (c ∷ t) h m = h (star_takes m)

go_back-Onward : (Q : Type 0) (star : Star) → Back Q star → Onward Q (go_back star)
go_back-Onward Q none h = tt
go_back-Onward Q (some (p, t)) h = (λ m. h (star_ends m), back_further Q p t h)

turn-Onward :
    (Q : Type 0) (p : Text) (c : ℕ) (t : Text) (star : Star)
    → (GlobMatches p (c ∷ t) → Q)
    → Back Q star
    → Onward Q (turn p c t star)
turn-Onward Q [] c t star here back = go_back-Onward Q star back
turn-Onward Q (d ∷ p) c t star here back = elim (Bool-cases (d == b'?')) [
  | inl e ↦
      let one : GlobMatches p t → GlobMatches (d ∷ p) (c ∷ t) =
        λ m. subst (λ x. GlobMatches (x ∷ p) (c ∷ t)) (sym ((==_iff d b'?').0 e)) (any_char m) in
      rw e (λ m. here (one m), back)
  | inr e ↦ elim (Bool-cases (d == c)) [
    | inl f ↦
        let one : GlobMatches p t → GlobMatches (d ∷ p) (c ∷ t) =
          λ m. subst (λ x. GlobMatches (x ∷ p) (c ∷ t)) (sym ((==_iff d c).0 f)) (same_char m) in
        rw (e, f) (λ m. here (one m), back)
    | inr f ↦ elim (Bool-cases (d == b'*')) [
      | inl g ↦
          let star_is : GlobMatches (b'*' ∷ p) (c ∷ t) → GlobMatches (d ∷ p) (c ∷ t) =
            λ m. subst (λ x. GlobMatches (x ∷ p) (c ∷ t)) (sym ((==_iff d b'*').0 g)) m in
          rw (e, f, g) (λ m. here (star_is (star_ends m)), λ m. here (star_is (star_takes m)))
      | inr g ↦ rw (e, f, g) (go_back-Onward Q star back)
    ]
  ]
]

loop_sound :
    (Q : Type 0) (f : ℕ) (p t : Text) (star : Star)
    → (GlobMatches p t → Q)
    → Back Q star
    → glob_loop f p t star ≡ some true
    → Q
unfolding glob_loop
loop_sound Q zero p t star here back h = cc
loop_sound Q (suc f) p [] star here back h = here (stars_match p (some-injective h))
loop_sound Q (suc f) p (c ∷ t) star here back h =
    by_turn (λ p' t' star' on back'. loop_sound Q f p' t' star' on back') (turn p c t star)
      (turn-Onward Q p c t star here back) h
  where
    by_turn :
        ((p' t' : Text) (star' : Star)
          → (GlobMatches p' t' → Q)
          → Back Q star'
          → glob_loop f p' t' star' ≡ some true
          → Q)
        → (r : Turn) → Onward Q r
        → elim r [ none ↦ some false | some (p', t', star') ↦ glob_loop f p' t' star' ] ≡ some true
        → Q
    by_turn later none on e = cc
    by_turn later (some (p', t', star')) (on, back') e = later p' t' star' on back' e

answered : (o : Option Bool) → answer o ≡ true → o ≡ some true
answered none h = cc
answered (some b) h = ap some h

accepted-GlobMatches : (pattern t : Text) → glob_matches pattern t ≡ true → GlobMatches pattern t
unfolding glob_matches
accepted-GlobMatches pattern t h =
    loop_sound (GlobMatches pattern t) (glob_fuel pattern t) pattern t none (λ m. m) tt
      (answered (glob_loop (glob_fuel pattern t) pattern t none) h)

-- The loop of `glob_matches` ends on every pattern and text, so it never answers by the end of its
-- fuel; and what it accepts matches the pattern, where `*` stands for any text, `?` for any one
-- character, and every character for itself.
pub glob_matches-GlobMatches :
    (pattern t : Text)
    → (glob_loop (glob_fuel pattern t) pattern t none ≢ none)
      × (glob_matches pattern t ≡ true → GlobMatches pattern t)
glob_matches-GlobMatches pattern t = (glob_loop-ne-none pattern t, accepted-GlobMatches pattern t)
