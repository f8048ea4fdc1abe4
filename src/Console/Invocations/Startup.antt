-- ===== src/Console/Invocations/Startup.antt =====
-- The two passes over the table at startup: orphans are interrupted, and expired rows deleted.
use solx_core.Prelude.{
  ℕ, Bool, true, false, not, List, [], ◌∷◌, Option, none, if◌then◌else◌, any, All, Text, text_eq,
  text_eq_refl, text_eq_comm, ◌≡◌, refl, sym, ap, subst, ◌∙◌, ◌⊎◌, inl, inr, arith, Bool-cases,
}
use solx_core.Console.Table.{update, delete}
use solx_core.Console.Invocations.{
  Row, is_terminal, has_id, select_ids, finish_row, is_open, finish, interrupt_all, orphans,
  mark_orphans, delete_all, is_expired, sweep_expired, interrupted,
}

abbrev pub IsSettled : Row → Type 0
IsSettled r = is_terminal r.status ≡ true

-- Settled, or still to be finished by the loop.
abbrev Pending : List Text → Row → Type 0
Pending ids r = IsSettled r ⊎ (any (λ j. has_id j r) ids ≡ true)

Pending-cons :
    (id : Text) (ids : List Text) (t : List Row) → All (Pending ids) t → All (Pending (id ∷ ids)) t
Pending-cons id ids [] h = tt
Pending-cons id ids (r ∷ t) (inl s, h) = (inl s, Pending-cons id ids t h)
Pending-cons id ids (r ∷ t) (inr m, h) = (inr (ground arith), Pending-cons id ids t h)

select_ids_take :
    (here : Row → Bool) (r : Row) (t : List Row)
    → here r ≡ true
    → select_ids here (r ∷ t) ≡ r.invocation_id ∷ select_ids here t
unfolding select_ids
select_ids_take here r t e = rw e

select_ids_skip :
    (here : Row → Bool) (r : Row) (t : List Row)
    → here r ≡ false
    → select_ids here (r ∷ t) ≡ select_ids here t
unfolding select_ids
select_ids_skip here r t e = rw e

abbrev is_orphan : Row → Bool
is_orphan r = not (is_terminal r.status)

orphans-Pending : (t : List Row) → All (Pending (orphans t)) t
orphans-Pending [] = tt
orphans-Pending (r ∷ t) = elim (Bool-cases (is_terminal r.status)) [
  | inl e ↦
      subst (λ ids. All (Pending ids) (r ∷ t)) (sym (select_ids_skip is_orphan r t (rw e)))
        (inl e, orphans-Pending t)
  | inr e ↦
      subst (λ ids. All (Pending ids) (r ∷ t)) (sym (select_ids_take is_orphan r t (rw e)))
        (
          inr (rw (text_eq_refl r.invocation_id)),
          Pending-cons r.invocation_id (orphans t) t (orphans-Pending t),
        )
]

interrupted-IsSettled : is_terminal interrupted ≡ true
unfolding is_terminal text_eq
interrupted-IsSettled = refl

finish_row-Pending :
    (id : Text) (ids : List Text) (result error : Option Text) (now : ℕ) (r : Row)
    → Pending (id ∷ ids) r
    → Pending ids (if is_open id r then finish_row interrupted result error now r else r)
finish_row-Pending id ids result error now r h = elim (Bool-cases (is_open id r)) [
  | inl o ↦ rw o (inl interrupted-IsSettled)
  | inr o ↦ rw o (elim h [
    | inl s ↦ inl s
    | inr m ↦ elim (Bool-cases (is_terminal r.status)) [
      | inl s ↦ inl s
      | inr n ↦ inr (let other : has_id id r ≡ false = ground arith in rw other at m)
    ]
  ])
]

finish-Pending :
    (id : Text) (ids : List Text) (result error : Option Text) (now : ℕ) (t : List Row)
    → All (Pending (id ∷ ids)) t
    → All (Pending ids) (finish id interrupted result error now t)
unfolding finish update
finish-Pending id ids result error now [] h = tt
finish-Pending id ids result error now (r ∷ t) (p, h) =
    (finish_row-Pending id ids result error now r p, finish-Pending id ids result error now t h)

IsSettled-of_Pending : (t : List Row) → All (Pending []) t → All IsSettled t
IsSettled-of_Pending [] h = tt
IsSettled-of_Pending (r ∷ t) (inl s, h) = (s, IsSettled-of_Pending t h)
IsSettled-of_Pending (r ∷ t) (inr m, h) = cc

interrupt_all-IsSettled :
    (clock : Text → ℕ) (ids : List Text) (t : List Row)
    → All (Pending ids) t
    → All IsSettled (interrupt_all clock ids t)
unfolding interrupt_all
interrupt_all-IsSettled clock [] t h = IsSettled-of_Pending t h
interrupt_all-IsSettled clock (id ∷ ids) t h =
    interrupt_all-IsSettled clock ids _ (finish-Pending id ids none _ (clock id) t h)

-- After `mark_orphans` no row is running or cancelling.
pub mark_orphans-IsSettled :
    (clock : Text → ℕ) (t : List Row) → All IsSettled (mark_orphans clock t).0
unfolding mark_orphans
mark_orphans-IsSettled clock t = interrupt_all-IsSettled clock (orphans t) t (orphans-Pending t)

-- The primary key: no two rows have the same id.
abbrev pub IsUnique : List Row → Type 0
IsUnique [] = Unit
IsUnique (r ∷ t) = (any (has_id r.invocation_id) t ≡ false) × IsUnique t

delete_absent : (id : Text) (t : List Row) → any (has_id id) t ≡ false → delete (has_id id) t ≡ t
unfolding delete
delete_absent id [] h = refl
delete_absent id (r ∷ t) h = ground (arith, delete_absent id t)

-- No row of the list has the id of `r`.
other_ids :
    (here : Row → Bool) (r : Row) (t : List Row)
    → any (has_id r.invocation_id) t ≡ false
    → any (λ j. has_id j r) (select_ids here t) ≡ false
other_ids here r [] h = unfold select_ids in refl
other_ids here r (s ∷ t) h =
    let ne : has_id s.invocation_id r ≡ false =
      text_eq_comm s.invocation_id r.invocation_id (ground arith) in
    elim (Bool-cases (here s)) [
      | inl e ↦ rw (select_ids_take here s t e, ne) (other_ids here r t (ground arith))
      | inr e ↦ rw (select_ids_skip here s t e) (other_ids here r t (ground arith))
    ]

delete_all-cons :
    (ids : List Text) (r : Row) (t : List Row)
    → any (λ j. has_id j r) ids ≡ false
    → delete_all ids (r ∷ t) ≡ r ∷ delete_all ids t
unfolding delete_all delete
delete_all-cons [] r t h = refl
delete_all-cons (j ∷ ids) r t h =
    let ne : has_id j r ≡ false = ground arith in
    rw ne (delete_all-cons ids r (delete (has_id j) t) (ground arith))

delete_here :
    (here : Row → Bool) (r : Row) (t : List Row)
    → here r ≡ true
    → delete here (r ∷ t) ≡ delete here t
unfolding delete
delete_here here r t e = rw e

delete_past :
    (here : Row → Bool) (r : Row) (t : List Row)
    → here r ≡ false
    → delete here (r ∷ t) ≡ r ∷ delete here t
unfolding delete
delete_past here r t e = rw e

delete_all_head :
    (r : Row) (t : List Row) (ids : List Text)
    → any (has_id r.invocation_id) t ≡ false
    → delete_all (r.invocation_id ∷ ids) (r ∷ t) ≡ delete_all ids t
unfolding delete_all
delete_all_head r t ids a = ap (delete_all ids) (
    delete_here (has_id r.invocation_id) r t (text_eq_refl r.invocation_id)
    ∙ delete_absent r.invocation_id t a)

-- In a table without two rows of the same id, selecting the expired rows and deleting them one by
-- one deletes exactly the rows that are terminal and were last updated before the cutoff.
pub sweep_expired-delete :
    (cutoff : ℕ) (t : List Row)
    → IsUnique t
    → (sweep_expired cutoff t).0 ≡ delete (is_expired cutoff) t
unfolding sweep_expired
sweep_expired-delete cutoff [] u = unfold select_ids delete_all delete in refl
sweep_expired-delete cutoff (r ∷ t) (a, u) = elim (Bool-cases (is_expired cutoff r)) [
  | inl e ↦
      rw
        (
          select_ids_take (is_expired cutoff) r t e,
          delete_all_head r t _ a,
          delete_here (is_expired cutoff) r t e,
        )
        (sweep_expired-delete cutoff t u)
  | inr e ↦
      rw
        (
          select_ids_skip (is_expired cutoff) r t e,
          delete_all-cons (select_ids (is_expired cutoff) t) r t
              (other_ids (is_expired cutoff) r t a),
          delete_past (is_expired cutoff) r t e,
        )
        (ap (◌∷◌ r) (sweep_expired-delete cutoff t u))
]
