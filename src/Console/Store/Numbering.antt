-- ===== src/Console/Store/Numbering.antt =====
-- The numbers of the entries of one console, and ranges of numbers.
use solx_core.Prelude.{
  range, ℕ, zero, suc, ◌+◌, ◌≤◌, ◌<◌, Bool, true, false, ◌||◌, List, [], ◌∷◌, ◌++◌, if◌then◌else◌,
  any, All, ltb, ◌==◌, Text, text_eq, text_eq_iff, ◌≡◌, refl, ap, ap₂, subst, inl, inr, ◌∙◌, arith,
  Bool-cases,
}
use solx_core.Console.Table.{delete}
use solx_core.Console.Store.{Entry, logs_to, logs_before, same_key}

abbrev pub seqs : Text → List Entry → List ℕ
seqs a [] = []
seqs a (e ∷ es) = let rest = seqs a es in if logs_to a e then e.seq ∷ rest else rest

pub range-below : (s n q : ℕ) → s + n ≤ q → All (λ i. i < q) (range s n)
range-below s zero q h = tt
range-below s (suc n) q h = (omega (arith, h), range-below (suc s) n q (omega (arith, h)))

pub delete-range_above : (i m q : ℕ) → q ≤ i → delete (λ j. ltb j q) (range i m) ≡ range i m
unfolding delete
delete-range_above i zero q le = refl
delete-range_above i (suc m) q le =
    let t : ltb i q ≡ false = ground arith in
    rw t (ap (◌∷◌ i) (delete-range_above (suc i) m q (omega (arith, le))))

-- Deleting the numbers below `q` from a range that reaches `q`.
pub delete-range :
    (s n q k : ℕ) → s ≤ q → s + n ≡ q + k → delete (λ i. ltb i q) (range s n) ≡ range q k
unfolding delete
delete-range s zero q zero le e = refl
delete-range s zero q (suc k) le e = ground arith
delete-range s (suc n) q k le e = elim (Bool-cases (ltb s q)) [
  | inl t ↦ rw t (delete-range (suc s) n q k (ground arith) (omega (arith, e)))
  | inr t ↦
      let same : s ≡ q = ground arith in
      let amount : suc n ≡ k = omega (arith, e, same) in
      let above : q ≤ suc s = ground arith in
      rw t (ap (◌∷◌ s) (delete-range_above (suc s) n q above) ∙ ap₂ range same amount)
]

pub seqs-append : (a : Text) (es fs : List Entry) → seqs a (es ++ fs) ≡ seqs a es ++ seqs a fs
seqs-append a [] fs = refl
seqs-append a (e ∷ es) fs = elim (Bool-cases (logs_to a e)) [
  | inl t ↦ rw t (ap (◌∷◌ e.seq) (seqs-append a es fs))
  | inr t ↦ rw t (seqs-append a es fs)
]

pub any-same_key :
    (a : Text) (q : ℕ) (es : List Entry) → any (same_key a q) es ≡ any (λ i. i == q) (seqs a es)
any-same_key a q [] = refl
any-same_key a q (e ∷ es) = elim (Bool-cases (logs_to a e)) [
  | inl t ↦ rw t (ap (λ b. (e.seq == q) || b) (any-same_key a q es))
  | inr t ↦ rw t (any-same_key a q es)
]

pub fresh_above : (q : ℕ) (ss : List ℕ) → All (λ i. i < q) ss → any (λ i. i == q) ss ≡ false
fresh_above q [] h = refl
fresh_above q (i ∷ ss) (l, h) = ground (arith, fresh_above q ss h)

pub seqs-delete_before :
    (a : Text) (n : ℕ) (es : List Entry)
    → seqs a (delete (logs_before a n) es) ≡ delete (λ i. ltb i n) (seqs a es)
unfolding delete
seqs-delete_before a n [] = refl
seqs-delete_before a n (e ∷ es) = elim (Bool-cases (logs_to a e)) [
  | inl t ↦ elim (Bool-cases (ltb e.seq n)) [
    | inl u ↦ rw (t, u) (seqs-delete_before a n es)
    | inr u ↦ rw (t, u, t) (ap (◌∷◌ e.seq) (seqs-delete_before a n es))
  ]
  | inr t ↦ rw (t, t) (seqs-delete_before a n es)
]

-- Deleting rows of one console leaves the numbers of the others.
pub seqs-delete_other :
    (a b : Text) (here : Entry → Bool) (es : List Entry)
    → ((e : Entry) → logs_to b e ≡ true → here e ≡ false)
    → seqs b (delete here es) ≡ seqs b es
unfolding delete
seqs-delete_other a b here [] h = refl
seqs-delete_other a b here (e ∷ es) h = elim (Bool-cases (logs_to b e)) [
  | inl t ↦ rw (h e t, t) (ap (◌∷◌ e.seq) (seqs-delete_other a b here es h))
  | inr t ↦ elim (Bool-cases (here e)) [
    | inl u ↦ rw (u, t) (seqs-delete_other a b here es h)
    | inr u ↦ rw (u, t) (seqs-delete_other a b here es h)
  ]
]

pub seqs-delete-logs_to : (a : Text) (es : List Entry) → seqs a (delete (logs_to a) es) ≡ []
unfolding delete
seqs-delete-logs_to a [] = refl
seqs-delete-logs_to a (e ∷ es) = elim (Bool-cases (logs_to a e)) [
  | inl t ↦ rw t (seqs-delete-logs_to a es)
  | inr t ↦ rw (t, t) (seqs-delete-logs_to a es)
]

-- An entry that logs to one console does not log to another.
pub logs_to_other :
    (a b : Text) (e : Entry) → text_eq a b ≡ false → logs_to b e ≡ true → logs_to a e ≡ false
logs_to_other a b e ne t = elim (Bool-cases (logs_to a e)) [
  | inl u ↦ cc (ne, subst (λ x. text_eq x b ≡ true) ((text_eq_iff e.action_ref a).0 u) t)
  | inr u ↦ u
]
