-- ===== src/Actions/Detached/Open.antt =====
-- Which rows are open, and what each write to the table makes of it.
use solx_core.Prelude.{
  ℕ, Bool, true, false, not, List, [], ◌∷◌, ◌++◌, Option, none, some, if◌then◌else◌, any, All, Text,
  text_eq, text_eq_iff, ok, ok-injective, ◌≡◌, refl, ap, subst, inl, inr, Bool-cases, arith,
}
use solx_core.Console.Table.{update}
use solx_core.Console.Invocations.{
  Row, is_terminal, running, cancelled, interrupted, has_id, find, select_ids, new_row, create,
  cancel_row, request_cancel, finish_row, is_open, finish, mark_aborted, interrupt_all, orphans,
  mark_orphans, delete_all, is_expired, sweep_expired,
}
use solx_core.Console.Invocations.Outcome.{find-delete_self, find-delete_ne}
use solx_core.Console.Invocations.Startup.{IsSettled}
use solx_core.Console.Invocations.Writes.{
  Write, creates, requests_cancel, finishes, aborts, marks_orphans, sweeps, step,
}

abbrev pub is_live : Option Row → Bool
is_live none = false
is_live (some r) = not (is_terminal r.status)

-- The row of the invocation is there, and its status is not terminal.
abbrev pub open_in : Text → List Row → Bool
open_in id t = is_live (find id t)

pub settled-open_in : (id : Text) (t : List Row) → All IsSettled t → open_in id t ≡ false
unfolding find
settled-open_in id [] h = refl
settled-open_in id (r ∷ t) (s, h) = elim (Bool-cases (has_id id r)) [
  | inl e ↦ rw (e, s) refl
  | inr e ↦ rw e (settled-open_in id t h)
]

-- An update that keeps the ids, and opens no row that is closed.
module _ (here : Row → Bool) (set : Row → Row)
    (keeps : (r : Row) → (set r).invocation_id ≡ r.invocation_id)
    (closes : (r : Row)
      → here r ≡ true
      → is_terminal r.status ≡ true
      → is_terminal (set r).status ≡ true) where
  updated_id : (id : Text) (r : Row) → has_id id (if here r then set r else r) ≡ has_id id r
  updated_id id r = elim (Bool-cases (here r)) [
    | inl e ↦ rw e (ap (λ i. text_eq i id) (keeps r))
    | inr e ↦ rw e refl
  ]

  pub update-open_in :
      (id : Text) (t : List Row) → open_in id t ≡ false → open_in id (update here set t) ≡ false
  unfolding find update
  update-open_in id [] h = refl
  update-open_in id (r ∷ t) h = elim (Bool-cases (has_id id r)) [
    | inl e ↦
        rw (updated_id id r, e)
          (elim (Bool-cases (here r)) [
            | inl f ↦
                let shut : is_terminal r.status ≡ true = ground (arith, rw e at h) in
                rw (f, closes r f shut) refl
            | inr f ↦ rw f (rw e at h)
          ])
    | inr e ↦ rw (updated_id id r, e) (update-open_in id t (rw e at h))
  ]

pub finish-open_in :
    (id j status : Text) (result error : Option Text) (now : ℕ) (t : List Row)
    → is_terminal status ≡ true
    → open_in j t ≡ false
    → open_in j (finish id status result error now t) ≡ false
unfolding finish
finish-open_in id j status result error now t s h =
    update-open_in (is_open id) (finish_row status result error now) (λ r. refl) (λ r _ _. s) j t h

-- A terminal end closes the row.
pub finish-closes :
    (id status : Text) (result error : Option Text) (now : ℕ) (t : List Row)
    → is_terminal status ≡ true
    → open_in id (finish id status result error now t) ≡ false
unfolding finish find update
finish-closes id status result error now [] s = refl
finish-closes id status result error now (r ∷ t) s = elim (Bool-cases (has_id id r)) [
  | inl e ↦ elim (Bool-cases (is_terminal r.status)) [
    | inl f ↦ rw (e, f, e, f) refl
    | inr f ↦ rw (e, f, e, s) refl
  ]
  | inr e ↦ rw (e, e) (finish-closes id status result error now t s)
]

interrupt_all-open_in :
    (clock : Text → ℕ) (ids : List Text) (j : Text) (t : List Row)
    → open_in j t ≡ false
    → open_in j (interrupt_all clock ids t) ≡ false
unfolding interrupt_all
interrupt_all-open_in clock [] j t h = h
interrupt_all-open_in clock (id ∷ ids) j t h =
    interrupt_all-open_in clock ids j _
      (finish-open_in id j interrupted _ _ _ t (unfold is_terminal text_eq in refl) h)

delete_all-open_in :
    (ids : List Text) (j : Text) (t : List Row)
    → open_in j t ≡ false
    → open_in j (delete_all ids t) ≡ false
unfolding delete_all
delete_all-open_in [] j t h = h
delete_all-open_in (id ∷ ids) j t h = delete_all-open_in ids j _ (elim (Bool-cases (text_eq id j)) [
  | inl e ↦ rw ((text_eq_iff id j).0 e, find-delete_self (new_row [] [] 0 0) j t) refl
  | inr e ↦ rw (find-delete_ne (new_row [] [] 0 0) j id t e) h
])

concat-open_in :
    (id j action_ref : Text) (start now : ℕ) (t : List Row)
    → text_eq id j ≡ false
    → open_in j t ≡ false
    → open_in j (t ++ new_row id action_ref start now ∷ []) ≡ false
unfolding find
concat-open_in id j action_ref start now [] ne h = rw ne refl
concat-open_in id j action_ref start now (r ∷ t) ne h = elim (Bool-cases (has_id j r)) [
  | inl e ↦ rw e (rw e at h)
  | inr e ↦ rw e (concat-open_in id j action_ref start now t ne (rw e at h))
]

-- A row that is created is the only one that is opened by it.
pub create-open_in :
    (id j action_ref : Text) (start now : ℕ) (t t' : List Row)
    → create id action_ref start now t ≡ ok t'
    → text_eq id j ≡ false
    → open_in j t ≡ false
    → open_in j t' ≡ false
unfolding create
create-open_in id j action_ref start now t t' c ne h = elim (Bool-cases (any (has_id id) t)) [
  | inl e ↦ cc (rw e at c)
  | inr e ↦
      subst (λ u. open_in j u ≡ false) (ok-injective (rw e at c))
        (concat-open_in id j action_ref start now t ne h)
]

-- A write that creates no row and ends none but with a terminal status.
abbrev pub OpensNone : Write → Type 0
OpensNone (creates _ _ _ _) = ⊥
OpensNone (finishes _ status _ _ _) = is_terminal status ≡ true
OpensNone w = Unit

cancelling_shut :
    (now : ℕ) (r : Row) → is_terminal r.status ≡ true → is_terminal (cancel_row now r).status ≡ true
cancelling_shut now r s = elim (Bool-cases (text_eq r.status running)) [
  | inl e ↦
      let no : is_terminal r.status ≡ false =
        rw ((text_eq_iff r.status running).0 e) (unfold is_terminal text_eq in refl) in
      cc
  | inr e ↦ rw e s
]

pub cancelled-IsTerminal : is_terminal cancelled ≡ true
unfolding is_terminal text_eq
cancelled-IsTerminal = refl

pub step-open_in :
    (w : Write) (j : Text) (t : List Row)
    → OpensNone w
    → open_in j t ≡ false
    → open_in j (step w t) ≡ false
unfolding step request_cancel mark_aborted mark_orphans sweep_expired
step-open_in (creates _ _ _ _) j t o h = absurd o
step-open_in (requests_cancel id now) j t o h =
    update-open_in (has_id id) (cancel_row now) (λ r. refl) (λ r _ s. cancelling_shut now r s) j t h
step-open_in (finishes id status result error now) j t o h =
    finish-open_in id j status result error now t o h
step-open_in (aborts id now) j t o h =
    finish-open_in id j cancelled none _ now t cancelled-IsTerminal h
step-open_in (marks_orphans clock) j t o h = interrupt_all-open_in clock (orphans t) j t h
step-open_in (sweeps cutoff) j t o h = delete_all-open_in (select_ids (is_expired cutoff) t) j t h
