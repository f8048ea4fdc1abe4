-- ===== src/Console/Invocations/Settled.antt =====
-- A row that has reached a terminal status keeps it, with its result, until it is swept.
use solx_core.Prelude.{
  ℕ, true, false, List, [], ◌∷◌, Option, none, some, if◌then◌else◌, any, All, Text, codes, text_eq,
  ◌≡◌, refl, ◌⊎◌, inl, inr, arith, Bool-cases,
}
use solx_core.Console.Table.{update}
use solx_core.Console.Invocations.{
  Row, is_terminal, running, has_id, find, create, new_row, cancel_row, request_cancel, finish_row,
  is_open, finish, mark_aborted, interrupt_all, orphans, mark_orphans, is_expired, sweep_expired,
  interrupted, cancelled, select_ids,
}
use solx_core.Console.Invocations.Writes.{
  Write, creates, requests_cancel, finishes, aborts, marks_orphans, sweeps, after, step, run,
}
use solx_core.Console.Invocations.Outcome.{
  SameOutcome, SameOutcome-refl, KeepsIn, keeps_update, keeps_delete_all, keeps_concat,
}

-- A write creates no row with this id. (Ids are minted afresh for each invocation.)
abbrev pub NotCreating : Text → Write → Type 0
NotCreating id (creates j _ _ _) = text_eq j id ≡ false
NotCreating id _ = Unit

module _ (r : Row) (settled : is_terminal r.status ≡ true) where
  cancels_nothing :
      (id : Text) (now : ℕ) (s : Row)
      → SameOutcome r s
      → SameOutcome r (if has_id id s then cancel_row now s else s)
  unfolding is_terminal
  cancels_nothing id now s h =
      let closed : text_eq s.status running ≡ false = rw h.same_status (ground arith) in
      elim (Bool-cases (has_id id s)) [
        | inl e ↦
            rw (e, closed)
              (record {
                same_id = h.same_id;
                same_ref = h.same_ref;
                same_status = h.same_status;
                same_created = h.same_created;
                same_finished = h.same_finished;
                same_start = h.same_start;
                same_result = h.same_result;
                same_error = h.same_error;
              })
        | inr e ↦ rw e h
      ]

  finishes_nothing :
      (id status : Text) (result error : Option Text) (now : ℕ) (s : Row)
      → SameOutcome r s
      → SameOutcome r (if is_open id s then finish_row status result error now s else s)
  finishes_nothing id status result error now s h =
      let closed : is_open id s ≡ false = rw (h.same_status, settled) (ground arith) in rw closed h

  keeps_finish :
      (id j status : Text) (result error : Option Text) (now : ℕ) (t : List Row)
      → KeepsIn r (find id t)
      → KeepsIn r (find id (finish j status result error now t))
  unfolding finish
  keeps_finish id j status result error now t k =
      keeps_update r id (is_open j) (finish_row status result error now) t (λ s. refl)
        (finishes_nothing j status result error now) k

  keeps_interrupt_all :
      (id : Text) (clock : Text → ℕ) (ids : List Text) (t : List Row)
      → KeepsIn r (find id t)
      → KeepsIn r (find id (interrupt_all clock ids t))
  unfolding interrupt_all
  keeps_interrupt_all id clock [] t k = k
  keeps_interrupt_all id clock (j ∷ ids) t k = keeps_interrupt_all id clock ids _ (
      keeps_finish id j interrupted none
        (some (codes "interrupted (process restarted while running)")) (clock j) t k)

  keeps_create :
      (id j action_ref : Text) (start now : ℕ) (t : List Row)
      → text_eq j id ≡ false
      → KeepsIn r (find id t)
      → KeepsIn r (find id (after t (create j action_ref start now t)))
  unfolding create
  keeps_create id j action_ref start now t ne k = elim (Bool-cases (any (has_id j) t)) [
    | inl e ↦ rw e k
    | inr e ↦ rw e (keeps_concat r id (new_row j action_ref start now) t ne k)
  ]

  keeps_step :
      (id : Text) (w : Write) (t : List Row)
      → NotCreating id w
      → KeepsIn r (find id t)
      → KeepsIn r (find id (step w t))
  unfolding step request_cancel mark_aborted mark_orphans sweep_expired
  keeps_step id (creates j action_ref start now) t ne k =
      keeps_create id j action_ref start now t ne k
  keeps_step id (requests_cancel j now) t _ k =
      keeps_update r id (has_id j) (cancel_row now) t (λ s. refl) (cancels_nothing j now) k
  keeps_step id (finishes j status result error now) t _ k =
      keeps_finish id j status result error now t k
  keeps_step id (aborts j now) t _ k = keeps_finish id j cancelled none _ now t k
  keeps_step id (marks_orphans clock) t _ k = keeps_interrupt_all id clock (orphans t) t k
  keeps_step id (sweeps cutoff) t _ k = keeps_delete_all r id (select_ids (is_expired cutoff) t) t k

  keeps_run :
      (id : Text) (ws : List Write) (t : List Row)
      → All (NotCreating id) ws
      → KeepsIn r (find id t)
      → KeepsIn r (find id (run ws t))
  unfolding run
  keeps_run id [] t _ k = k
  keeps_run id (w ∷ ws) t (n, ns) k = keeps_run id ws (step w t) ns (keeps_step id w t n k)

-- A row that is in a terminal status keeps its action, status, result, error and the times of its
-- creation and its end through every sequence of writes that does not create its id again, as long as
-- it is in the table. (The request to cancel and the time of the last update may change.)
pub run-settled :
    (id : Text) (r : Row) (ws : List Write) (t : List Row)
    → find id t ≡ some r
    → is_terminal r.status ≡ true
    → All (NotCreating id) ws
    → (find id (run ws t) ≡ none) ⊎ ((s : Row) × (find id (run ws t) ≡ some s) × SameOutcome r s)
run-settled id r ws t found settled ns =
    at (find id (run ws t)) refl (keeps_run r settled id ws t ns (rw found (SameOutcome-refl r)))
  where
    at :
        (o : Option Row)
        → find id (run ws t) ≡ o
        → KeepsIn r o
        → (find id (run ws t) ≡ none)
          ⊎ ((s : Row) × (find id (run ws t) ≡ some s) × SameOutcome r s)
    at none e k = inl e
    at (some s) e k = inr (s, e, k)

-- Of two finishes of one row the first wins: behind one with a terminal status the second, be it
-- a natural end or a forced abort, changes nothing in the table.
pub finish-finish :
    (id first second : Text) (result result' error error' : Option Text) (now later : ℕ)
    (t : List Row)
    → is_terminal first ≡ true
    → finish id second result' error' later (finish id first result error now t)
      ≡ finish id first result error now t
unfolding finish update
finish-finish id first second result result' error error' now later [] e = refl
finish-finish id first second result result' error error' now later (r ∷ t) e =
    let rest = finish-finish id first second result result' error error' now later t e in
    elim (Bool-cases (is_open id r)) [
      | inl o ↦ rw (o, e, rest) (ground arith)
      | inr o ↦ rw (o, o, rest)
    ]
