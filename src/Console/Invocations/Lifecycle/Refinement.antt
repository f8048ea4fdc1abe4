-- ===== src/Console/Invocations/Lifecycle/Refinement.antt =====
-- The table of invocations as a refinement of the machine of one invocation.
use solx_core.Prelude.{
  ℕ, true, false, ◌||◌, All, ap, ◌⊎◌, text_eq, text_eq_iff, Option, none, some, List, [], ◌∷◌, ◌++◌,
  any, Text, codes, text_eq_comm, ◌≡◌, inl, inr, refl, sym, subst, ◌∙◌, Bool-cases, arith,
}
use solx_core.Console.Invocations.{
  Row, cancelled, interrupted, has_id, find, new_row, create, cancel_row, request_cancel,
  finish_row, is_open, finish, mark_aborted, interrupt_all, orphans, mark_orphans, is_expired,
}
use solx_core.Console.Invocations.Writes.{
  Write, creates, requests_cancel, finishes, aborts, marks_orphans, sweeps, step, run,
}
use solx_core.Console.Invocations.Startup.{
  IsSettled, IsUnique, sweep_expired-delete, mark_orphans-IsSettled,
}
use solx_core.Console.Invocations.Lifecycle.{
  Phase, absent, opened, closing, settled, phase, ended, at_id, asked, begun, phase_of_status,
  Swept, PhaseStep, PhaseSteps, phase-update, update-IsUnique, delete-Swept, delete-IsUnique,
  phase-create, phase-request_cancel, phase-finish, at_id-absent, terminal-settled,
}

phase-finish_table :
    (id j status : Text) (result error : Option Text) (now : ℕ) (t : List Row)
    → phase (find id (finish j status result error now t))
      ≡ at_id j id (ended status) (phase (find id t))
unfolding finish
phase-finish_table id j status result error now t =
    phase-update (is_open j) (finish_row status result error now) (λ r. refl) id
      (at_id j id (ended status)) t (at_id-absent j id (ended status) refl)
      (phase-finish id j status result error now)

finish-IsUnique :
    (j status : Text) (result error : Option Text) (now : ℕ) (t : List Row)
    → IsUnique t
    → IsUnique (finish j status result error now t)
unfolding finish
finish-IsUnique j status result error now t u =
    update-IsUnique (is_open j) (finish_row status result error now) (λ r. refl) t u

-- Interruptions of one invocation count as one.
ended-ended : (p : Phase) → ended interrupted (ended interrupted p) ≡ ended interrupted p
unfolding text_eq
ended-ended absent = refl
ended-ended opened = refl
ended-ended closing = refl
ended-ended (settled s) = refl

interrupt_all-phase :
    (id : Text) (clock : Text → ℕ) (ids : List Text) (t : List Row)
    → (phase (find id (interrupt_all clock ids t)) ≡ phase (find id t))
      ⊎ (phase (find id (interrupt_all clock ids t)) ≡ ended interrupted (phase (find id t)))
unfolding interrupt_all
interrupt_all-phase id clock [] t = inl refl
interrupt_all-phase id clock (j ∷ ids) t =
    let why = some (codes "interrupted (process restarted while running)") in
    let one = phase-finish_table id j interrupted none why (clock j) t in
    let p = phase (find id t) in
    elim (interrupt_all-phase id clock ids (finish j interrupted none why (clock j) t)) [
      | inl e ↦ elim (Bool-cases (text_eq j id)) [
        | inl f ↦ inr (e ∙ one ∙ rw f refl)
        | inr f ↦ inl (e ∙ one ∙ rw f refl)
      ]
      | inr e ↦ elim (Bool-cases (text_eq j id)) [
        | inl f ↦ inr (e ∙ ap (ended interrupted) (one ∙ rw f refl) ∙ ended-ended p)
        | inr f ↦ inr (e ∙ ap (ended interrupted) (one ∙ rw f refl))
      ]
    ]

settled-ended :
    (id : Text) (t : List Row)
    → All IsSettled t
    → ended interrupted (phase (find id t)) ≡ phase (find id t)
unfolding find
settled-ended id [] h = refl
settled-ended id (r ∷ t) (s, h) = elim (Bool-cases (has_id id r)) [
  | inl e ↦ rw (e, terminal-settled r.status s) refl
  | inr e ↦ rw e (settled-ended id t h)
]

phase-mark_orphans :
    (id : Text) (clock : Text → ℕ) (t : List Row)
    → phase (find id (mark_orphans clock t).0) ≡ ended interrupted (phase (find id t))
unfolding mark_orphans
phase-mark_orphans id clock t =
    let fixed = settled-ended id (mark_orphans clock t).0 (mark_orphans-IsSettled clock t) in
    elim (interrupt_all-phase id clock (orphans t) t) [
      | inl e ↦ sym fixed ∙ ap (ended interrupted) e
      | inr e ↦ e
    ]

interrupt_all-IsUnique :
    (clock : Text → ℕ) (ids : List Text) (t : List Row)
    → IsUnique t
    → IsUnique (interrupt_all clock ids t)
unfolding interrupt_all
interrupt_all-IsUnique clock [] t u = u
interrupt_all-IsUnique clock (j ∷ ids) t u =
    interrupt_all-IsUnique clock ids _ (finish-IsUnique j interrupted none _ (clock j) t u)

any-snoc :
    (i : Text) (t : List Row) (r : Row)
    → any (has_id i) (t ++ r ∷ []) ≡ (any (has_id i) t || has_id i r)
any-snoc i [] r = ground arith
any-snoc i (s ∷ t) r = let later = any-snoc i t r in rw later (ground arith)

snoc-IsUnique :
    (t : List Row) (r : Row)
    → any (has_id r.invocation_id) t ≡ false
    → IsUnique t
    → IsUnique (t ++ r ∷ [])
snoc-IsUnique [] r h u = (refl, tt)
snoc-IsUnique (s ∷ t) r h (a, u) =
    let other : has_id r.invocation_id s ≡ false = ground arith in
    let swap : has_id s.invocation_id r ≡ false =
      text_eq_comm s.invocation_id r.invocation_id other in
    (any-snoc s.invocation_id t r ∙ rw (a, swap) refl, snoc-IsUnique t r (ground arith) u)

step-IsUnique : (w : Write) (t : List Row) → IsUnique t → IsUnique (step w t)
unfolding step create request_cancel mark_aborted mark_orphans
step-IsUnique (creates j action_ref start now) t u = elim (Bool-cases (any (has_id j) t)) [
  | inl e ↦ rw e u
  | inr e ↦ rw e (snoc-IsUnique t (new_row j action_ref start now) e u)
]
step-IsUnique (requests_cancel j now) t u =
    update-IsUnique (has_id j) (cancel_row now) (λ r. refl) t u
step-IsUnique (finishes j status result error now) t u =
    finish-IsUnique j status result error now t u
step-IsUnique (aborts j now) t u = finish-IsUnique j cancelled none _ now t u
step-IsUnique (marks_orphans clock) t u = interrupt_all-IsUnique clock (orphans t) t u
step-IsUnique (sweeps cutoff) t u =
    subst IsUnique (sym (sweep_expired-delete cutoff t u)) (delete-IsUnique (is_expired cutoff) t u)

-- A create of an id that is there fails.
create_again :
    (id j : Text) (t : List Row)
    → any (has_id j) t ≡ true
    → phase (find id t) ≡ at_id j id begun (phase (find id t))
unfolding find
create_again id j [] h = cc
create_again id j (r ∷ t) h = elim (Bool-cases (has_id id r)) [
  | inl e ↦ rw e (sym (begun_row j id r.status))
  | inr e ↦ elim (Bool-cases (has_id j r)) [
    | inl f ↦
        let other : text_eq j id ≡ false = ground (
          arith,
          e,
          f,
          text_eq_iff r.invocation_id id,
          text_eq_iff r.invocation_id j,
          text_eq_iff j id,
        ) in
        rw (e, other) refl
    | inr f ↦ rw e (create_again id j t (ground (arith, f, h)))
  ]
]
  where
    begun_row : (j id s : Text) → at_id j id begun (phase_of_status s) ≡ phase_of_status s
    begun_row j id s = ground arith

step-PhaseStep :
    (id : Text) (w : Write) (t : List Row)
    → IsUnique t
    → PhaseStep id w (phase (find id t)) (phase (find id (step w t)))
unfolding step create request_cancel mark_aborted
step-PhaseStep id (creates j action_ref start now) t u = elim (Bool-cases (any (has_id j) t)) [
  | inl e ↦ rw e (create_again id j t e)
  | inr e ↦ rw e (phase-create id j action_ref start now t e)
]
step-PhaseStep id (requests_cancel j now) t u =
    phase-update (has_id j) (cancel_row now) (λ r. refl) id (at_id j id asked) t
      (at_id-absent j id asked refl) (phase-request_cancel id j now)
step-PhaseStep id (finishes j status result error now) t u =
    phase-finish_table id j status result error now t
step-PhaseStep id (aborts j now) t u =
    phase-finish_table id j cancelled none (some (codes "stopped (grace period expired)")) now t
step-PhaseStep id (marks_orphans clock) t u = phase-mark_orphans id clock t
step-PhaseStep id (sweeps cutoff) t u =
    subst (λ t'. Swept (phase (find id t)) (phase (find id t')))
      (sym (sweep_expired-delete cutoff t u))
      (delete-Swept (is_expired cutoff) id t u (λ r h. ground arith))

-- The table refines the machine of one invocation, write by write: from a table without two rows of the
-- same id, every sequence of writes takes the phase of each id through the steps of these writes. To
-- create the id begins what is absent and changes nothing otherwise; a request to cancel it turns what is
-- running to cancelling; a finish or a forced abort ends what is running or cancelling with its
-- status, and neither it nor a request changes what has ended; the marking of orphans interrupts
-- whatever is running or cancelling; a sweep removes at most what has ended; and no write to
-- another id changes the phase. The ids stay unique.
pub run-PhaseSteps :
    (id : Text) (ws : List Write) (t : List Row)
    → IsUnique t
    → PhaseSteps id ws (phase (find id t)) (phase (find id (run ws t))) × IsUnique (run ws t)
unfolding run
run-PhaseSteps id [] t u = (refl, u)
run-PhaseSteps id (w ∷ ws) t u =
    let (later, u') = run-PhaseSteps id ws (step w t) (step-IsUnique w t u) in
    ((phase (find id (step w t)), step-PhaseStep id w t u, later), u')
