-- ===== src/Console/Store/Tidy.antt =====
-- The invariant of the two tables, and the changes that keep it.
use solx_core.Prelude.{
  range, range-append, ℕ, ◌+◌, ◌-◌, ◌≤◌, ◌<◌, false, List, ◌++◌, All, ltb, ◌==◌, Text, text_eq,
  text_eq_iff, ◌≡◌, sym, ap, ap₂, subst, inl, inr, ◌∙◌, arith, Bool-cases,
}
use solx_core.Console.Table.{update, delete}
use solx_core.Console.Store.{Console, Entry, Tables, Meta, has_ref, logs_before, meta, claim}
use solx_core.Console.Store.Numbering.{
  seqs, range-below, delete-range, seqs-delete_before, seqs-delete_other, logs_to_other,
}
use solx_core.Console.Store.Rows.{
  IsStarted, start_of, claimed, claim_own, claim_other, claim-IsStarted, MovesFirst, update_own,
  update_other, update-IsStarted,
}

-- The entries of a console are numbered from its first number on, in order and without a gap, up to
-- the number that comes next.
pub record IsNumbered (m : Meta) (ss : List ℕ) : Type 0 where
  pub ordered : m.first_seq ≤ m.next_seq
  pub numbers : ss ≡ range m.first_seq (m.next_seq - m.first_seq)

pub record IsTidy (t : Tables) : Type 0 where
  pub started : All IsStarted t.consoles
  pub numbered : (a : Text) → IsNumbered (meta a t.consoles) (seqs a t.entries)

-- Every number in use is below the one that is claimed.
pub numbers-below : (m : Meta) (ss : List ℕ) → IsNumbered m ss → All (λ i. i < start_of m) ss
numbers-below m ss h =
    subst (All (λ i. i < start_of m)) (sym h.numbers)
      (range-below m.first_seq (m.next_seq - m.first_seq) (start_of m) (ground (arith, h.ordered)))

pub claimed-IsNumbered :
    (n : ℕ) (m : Meta) (ss : List ℕ)
    → IsNumbered m ss
    → IsNumbered (claimed n m) (ss ++ range (start_of m) n)
claimed-IsNumbered n m ss h = elim (Bool-cases (m.next_seq == 0)) [
  | inl z ↦
      let none_yet : m.next_seq - m.first_seq ≡ 0 = ground arith in
      let amount : n ≡ 1 + n - 1 = omega arith in
      rw z (record {
        ordered = omega arith;
        numbers =
            ap (λ t. t ++ range 1 n) (h.numbers ∙ ap (range m.first_seq) none_yet)
            ∙ ap (range 1) amount;
      })
  | inr z ↦
      let start : m.first_seq + (m.next_seq - m.first_seq) ≡ m.next_seq =
        omega (arith, h.ordered) in
      let amount : m.next_seq - m.first_seq + n ≡ m.next_seq + n - m.first_seq =
        omega (arith, h.ordered) in
      rw z (record {
        ordered = omega (arith, h.ordered);
        numbers =
            ap (λ t. t ++ range m.next_seq n) h.numbers
            ∙ ap (λ i. range m.first_seq (m.next_seq - m.first_seq) ++ range i n) (sym start)
            ∙ sym (range-append m.first_seq (m.next_seq - m.first_seq) n)
            ∙ ap (range m.first_seq) amount;
      })
]

-- The entries `es'` are `es` and `n` more in the console `a`, numbered from `q` on.
pub record Adds (a : Text) (q n : ℕ) (es es' : List Entry) : Type 0 where
  pub own : seqs a es' ≡ seqs a es ++ range q n
  pub others : (b : Text) → text_eq a b ≡ false → seqs b es' ≡ seqs b es

pub claim-IsTidy :
    (n : ℕ) (a : Text) (now : ℕ) (t : Tables) (es' : List Entry)
    → IsTidy t
    → Adds a (start_of (meta a t.consoles)) n t.entries es'
    → IsTidy (record { consoles = (claim n a now t.consoles).0; entries = es' })
claim-IsTidy n a now t es' h adds = record {
  started = claim-IsStarted n a now t.consoles h.started;
  numbered = λ b. elim (Bool-cases (text_eq a b)) [
    | inl e ↦
        subst (λ x. IsNumbered (meta x (claim n a now t.consoles).0) (seqs x es'))
          ((text_eq_iff a b).0 e)
          (rw ((claim_own n a now t.consoles h.started).0, adds.own)
            (claimed-IsNumbered n (meta a t.consoles) (seqs a t.entries) (h.numbered a)))
    | inr e ↦ rw (claim_other n a b now t.consoles e, adds.others b e) (h.numbered b)
  ];
}

-- Dropping the entries of a console below a number that the console holds or that comes next.
pub move_first-IsTidy :
    (a : Text) (n : ℕ) (set : Console → Console) (t : Tables)
    → MovesFirst n set
    → IsTidy t
    → 1 ≤ (meta a t.consoles).next_seq
    → (meta a t.consoles).first_seq ≤ n
    → n ≤ (meta a t.consoles).next_seq
    → IsTidy (record {
      consoles = update (has_ref a) set t.consoles;
      entries = delete (logs_before a n) t.entries;
    })
move_first-IsTidy a n set t moves h exists lower upper = record {
  started = update-IsStarted moves (has_ref a) t.consoles h.started;
  numbered = λ b. elim (Bool-cases (text_eq a b)) [
    | inl e ↦
        subst
          (λ x.
            IsNumbered (meta x (update (has_ref a) set t.consoles))
              (seqs x (delete (logs_before a n) t.entries)))
          ((text_eq_iff a b).0 e) own
    | inr e ↦
        rw
          (
            update_other moves a b t.consoles e,
            seqs-delete_other a b (logs_before a n) t.entries
                (λ x here. rw (logs_to_other a b x e here)),
          )
          (h.numbered b)
  ];
}
  where
    m : Meta
    m = meta a t.consoles

    own :
        IsNumbered
          (meta a (update (has_ref a) set t.consoles))
          (seqs a (delete (logs_before a n) t.entries))
    own =
        let (first, next) = update_own moves a t.consoles exists in
        let k = h.numbered a in
        record {
          ordered = rw (first, next) upper;
          numbers =
              seqs-delete_before a n t.entries
              ∙ ap (delete (λ i. ltb i n)) k.numbers
              ∙ delete-range (meta a t.consoles).first_seq
                  ((meta a t.consoles).next_seq - (meta a t.consoles).first_seq) n
                  ((meta a t.consoles).next_seq - n) lower (omega (arith, lower, upper))
              ∙ ap₂ range (sym first) (ap₂ (λ x y. x - y) (sym next) (sym first));
        }
