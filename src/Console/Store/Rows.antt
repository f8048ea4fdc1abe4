-- ===== src/Console/Store/Rows.antt =====
-- What a claim, an update and a deletion do to the row of a console.
use solx_core.Prelude.{
  ℕ, ◌+◌, ◌≤◌, Bool, true, false, List, [], ◌∷◌, if◌then◌else◌, All, ◌==◌, Text, text_eq,
  text_eq_iff, text_eq_refl, ◌≡◌, refl, sym, ap, subst, inl, inr, arith, Bool-cases,
}
use solx_core.Console.Table.{update, delete}
use solx_core.Console.Store.{Console, Meta, has_ref, meta, claim}

-- Numbers start at 1.
abbrev pub IsStarted : Console → Type 0
IsStarted c = 1 ≤ c.next_seq

-- The first number that a claim returns.
abbrev pub start_of : Meta → ℕ
start_of m = if m.next_seq == 0 then 1 else m.next_seq

abbrev pub claimed : ℕ → Meta → Meta
claimed n m =
    if m.next_seq == 0
    then record { first_seq = 1; next_seq = 1 + n; dropped = 0 }
    else record m { next_seq = m.next_seq + n }

pub claim_own :
    (n : ℕ) (a : Text) (now : ℕ) (cs : List Console)
    → All IsStarted cs
    → (meta a (claim n a now cs).0 ≡ claimed n (meta a cs))
      × ((claim n a now cs).1 ≡ start_of (meta a cs))
unfolding meta claim
claim_own n a now [] h = (rw (text_eq_refl a) refl, omega arith)
claim_own n a now (c ∷ cs) (p, h) =
    let (own, start) = claim_own n a now cs h in
    elim (Bool-cases (has_ref a c)) [
      | inl t ↦
          let ne : (c.next_seq == 0) ≡ false = ground arith in rw (t, t, ne) (refl, omega arith)
      | inr t ↦ rw (t, t) (own, start)
    ]

has_ref_other :
    (a b : Text) (c : Console) → text_eq a b ≡ false → has_ref a c ≡ true → has_ref b c ≡ false
has_ref_other a b c ne t =
    subst (λ x. text_eq x b ≡ false) (sym ((text_eq_iff c.action_ref a).0 t)) ne

pub claim_other :
    (n : ℕ) (a b : Text) (now : ℕ) (cs : List Console)
    → text_eq a b ≡ false
    → meta b (claim n a now cs).0 ≡ meta b cs
unfolding meta claim
claim_other n a b now [] ne = rw ne refl
claim_other n a b now (c ∷ cs) ne = elim (Bool-cases (has_ref a c)) [
  | inl t ↦ let other = has_ref_other a b c ne t in rw (t, other) refl
  | inr t ↦ elim (Bool-cases (has_ref b c)) [
    | inl u ↦ rw (t, u) refl
    | inr u ↦ rw (t, u) (claim_other n a b now cs ne)
  ]
]

pub claim-IsStarted :
    (n : ℕ) (a : Text) (now : ℕ) (cs : List Console)
    → All IsStarted cs
    → All IsStarted (claim n a now cs).0
unfolding claim
claim-IsStarted n a now [] h = (omega arith, tt)
claim-IsStarted n a now (c ∷ cs) (p, h) = elim (Bool-cases (has_ref a c)) [
  | inl t ↦ rw t (omega (arith, p), h)
  | inr t ↦ rw t (p, claim-IsStarted n a now cs h)
]

-- A change of a row that moves the first number to `n`.
pub record MovesFirst (n : ℕ) (set : Console → Console) : Type 0 where
  pub same_ref : (c : Console) → (set c).action_ref ≡ c.action_ref
  pub same_next : (c : Console) → (set c).next_seq ≡ c.next_seq
  pub first_is : (c : Console) → (set c).first_seq ≡ n

module _ {n : ℕ} {set : Console → Console} (moves : MovesFirst n set) where
  has_ref-set : (b : Text) (c : Console) → has_ref b (set c) ≡ has_ref b c
  has_ref-set b c = ap (λ x. text_eq x b) (moves.same_ref c)

  pub update_own :
      (a : Text) (cs : List Console)
      → 1 ≤ (meta a cs).next_seq
      → ((meta a (update (has_ref a) set cs)).first_seq ≡ n)
        × ((meta a (update (has_ref a) set cs)).next_seq ≡ (meta a cs).next_seq)
  unfolding meta update
  update_own a [] h = ground arith
  update_own a (c ∷ cs) h = elim (Bool-cases (has_ref a c)) [
    | inl t ↦ rw (t, has_ref-set a c, t) (moves.first_is c, moves.same_next c)
    | inr t ↦ rw (t, t) (update_own a cs (rw t at h))
  ]

  pub update_other :
      (a b : Text) (cs : List Console)
      → text_eq a b ≡ false
      → meta b (update (has_ref a) set cs) ≡ meta b cs
  unfolding meta update
  update_other a b [] ne = refl
  update_other a b (c ∷ cs) ne = elim (Bool-cases (has_ref a c)) [
    | inl t ↦
        let other = has_ref_other a b c ne t in
        rw (t, has_ref-set b c, other) (update_other a b cs ne)
    | inr t ↦ elim (Bool-cases (has_ref b c)) [
      | inl u ↦ rw (t, u) refl
      | inr u ↦ rw (t, u) (update_other a b cs ne)
    ]
  ]

  pub update-IsStarted :
      (here : Console → Bool) (cs : List Console)
      → All IsStarted cs
      → All IsStarted (update here set cs)
  unfolding update
  update-IsStarted here [] h = tt
  update-IsStarted here (c ∷ cs) (p, h) = elim (Bool-cases (here c)) [
    | inl t ↦ rw (t, moves.same_next c) (p, update-IsStarted here cs h)
    | inr t ↦ rw t (p, update-IsStarted here cs h)
  ]

pub delete_own :
    (a : Text) (cs : List Console)
    → meta a (delete (has_ref a) cs) ≡ record { first_seq = 0; next_seq = 0; dropped = 0 }
unfolding meta delete
delete_own a [] = refl
delete_own a (c ∷ cs) = elim (Bool-cases (has_ref a c)) [
  | inl t ↦ rw t (delete_own a cs)
  | inr t ↦ rw (t, t) (delete_own a cs)
]

pub delete_other :
    (a b : Text) (cs : List Console)
    → text_eq a b ≡ false
    → meta b (delete (has_ref a) cs) ≡ meta b cs
unfolding meta delete
delete_other a b [] ne = refl
delete_other a b (c ∷ cs) ne = elim (Bool-cases (has_ref a c)) [
  | inl t ↦ let other = has_ref_other a b c ne t in rw (t, other) (delete_other a b cs ne)
  | inr t ↦ elim (Bool-cases (has_ref b c)) [
    | inl u ↦ rw (t, u) refl
    | inr u ↦ rw (t, u) (delete_other a b cs ne)
  ]
]

pub delete-IsStarted :
    (here : Console → Bool) (cs : List Console) → All IsStarted cs → All IsStarted (delete here cs)
unfolding delete
delete-IsStarted here [] h = tt
delete-IsStarted here (c ∷ cs) (p, h) = elim (Bool-cases (here c)) [
  | inl t ↦ rw t (delete-IsStarted here cs h)
  | inr t ↦ rw t (p, delete-IsStarted here cs h)
]
