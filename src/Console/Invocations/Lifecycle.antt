-- ===== src/Console/Invocations/Lifecycle.antt =====
-- The life of one invocation as an abstract machine, which forgets everything of the table but the
-- phase of one row.
pub mod Refinement
use solx_core.Prelude.{
  ℕ, Bool, true, false, not, ◌&&◌, ◌||◌, Option, none, some, List, [], ◌∷◌, ◌++◌, if◌then◌else◌,
  any, Text, codes, text_eq, text_eq_iff, text_eq_refl, text_eq_comm, ◌≡◌, ◌⊎◌, inl, inr, refl, sym,
  subst, ap, ap₂, ◌∙◌, Bool-cases, Option-cases, arith,
}
use solx_core.Console.Table.{update, delete}
use solx_core.Console.Invocations.{
  Row, running, cancelling, cancelled, interrupted, is_terminal, has_id, find, new_row, create,
  cancel_row, request_cancel, finish_row, is_open, finish, mark_aborted, interrupt_all, orphans,
  mark_orphans, is_expired, sweep_expired, select_ids,
}
use solx_core.Console.Invocations.Writes.{
  Write, creates, requests_cancel, finishes, aborts, marks_orphans, sweeps, after, step, run,
}
use solx_core.Console.Invocations.Startup.{IsUnique, sweep_expired-delete}

pub data Phase : Type 0 where
  absent opened closing : Phase
  settled : Text → Phase

abbrev pub phase_of_status : Text → Phase
phase_of_status s =
    if text_eq s running then opened else if text_eq s cancelling then closing else settled s

abbrev pub phase : Option Row → Phase
phase none = absent
phase (some r) = phase_of_status r.status

-- What a write to the row of an invocation makes of its phase.
abbrev pub begun : Phase → Phase
begun absent = opened
begun p = p

abbrev pub asked : Phase → Phase
asked opened = closing
asked p = p

abbrev pub ended : Text → Phase → Phase
ended s opened = phase_of_status s
ended s closing = phase_of_status s
ended s p = p

abbrev pub at_id : Text → Text → (Phase → Phase) → Phase → Phase
at_id j id f p = if text_eq j id then f p else p

abbrev pub Swept : Phase → Phase → Type 0
Swept (settled s) q = (q ≡ settled s) ⊎ (q ≡ absent)
Swept p q = q ≡ p

-- The phase of the invocation `id` before and behind one write.
abbrev pub PhaseStep : Text → Write → Phase → Phase → Type 0
PhaseStep id (creates j _ _ _) p q = q ≡ at_id j id begun p
PhaseStep id (requests_cancel j _) p q = q ≡ at_id j id asked p
PhaseStep id (finishes j status _ _ _) p q = q ≡ at_id j id (ended status) p
PhaseStep id (aborts j _) p q = q ≡ at_id j id (ended cancelled) p
PhaseStep id (marks_orphans _) p q = q ≡ ended interrupted p
PhaseStep id (sweeps _) p q = Swept p q

-- The same of a sequence of writes.
abbrev pub PhaseSteps : Text → List Write → Phase → Phase → Type 0
PhaseSteps id [] p q = q ≡ p
PhaseSteps id (w ∷ ws) p q = (m : Phase) × PhaseStep id w p m × PhaseSteps id ws m q

-- An update that keeps the ids, seen at one id.
module _ (here : Row → Bool) (set : Row → Row)
    (keeps : (r : Row) → (set r).invocation_id ≡ r.invocation_id) where
  updated_id : (id : Text) (r : Row) → has_id id (if here r then set r else r) ≡ has_id id r
  updated_id id r = elim (Bool-cases (here r)) [
    | inl e ↦ rw e (ap (λ i. text_eq i id) (keeps r))
    | inr e ↦ rw e refl
  ]

  pub phase-update :
      (id : Text) (f : Phase → Phase) (t : List Row)
      → f absent ≡ absent
      → ((r : Row)
          → has_id id r ≡ true
          → phase (some (if here r then set r else r)) ≡ f (phase (some r)))
      → phase (find id (update here set t)) ≡ f (phase (find id t))
  unfolding find update
  phase-update id f [] n h = sym n
  phase-update id f (r ∷ t) n h = elim (Bool-cases (has_id id r)) [
    | inl e ↦ rw (updated_id id r, e) (h r e)
    | inr e ↦ rw (updated_id id r, e) (phase-update id f t n h)
  ]

  any-update : (id : Text) (t : List Row) → any (has_id id) (update here set t) ≡ any (has_id id) t
  unfolding update
  any-update id [] = refl
  any-update id (r ∷ t) = ap₂ (λ a b. a || b) (updated_id id r) (any-update id t)

  kept_id : (r : Row) → (if here r then set r else r).invocation_id ≡ r.invocation_id
  kept_id r = elim (Bool-cases (here r)) [ inl e ↦ rw e (keeps r) | inr e ↦ rw e refl ]

  pub update-IsUnique : (t : List Row) → IsUnique t → IsUnique (update here set t)
  unfolding update
  update-IsUnique [] u = tt
  update-IsUnique (r ∷ t) (a, u) = (
    any-update _ t ∙ subst (λ i. any (has_id i) t ≡ false) (sym (kept_id r)) a,
    update-IsUnique t u,
  )

any-delete :
    (here : Row → Bool) (id : Text) (t : List Row)
    → any (has_id id) t ≡ false
    → any (has_id id) (delete here t) ≡ false
unfolding delete
any-delete here id [] h = refl
any-delete here id (r ∷ t) h =
    let rest : any (has_id id) (delete here t) ≡ false = any-delete here id t (ground arith) in
    elim (Bool-cases (here r)) [ inl e ↦ rw e rest | inr e ↦ rw e (ground (arith, rest)) ]

pub delete-IsUnique : (here : Row → Bool) (t : List Row) → IsUnique t → IsUnique (delete here t)
unfolding delete
delete-IsUnique here [] u = tt
delete-IsUnique here (r ∷ t) (a, u) = elim (Bool-cases (here r)) [
  | inl e ↦ rw e (delete-IsUnique here t u)
  | inr e ↦ rw e (any-delete here r.invocation_id t a, delete-IsUnique here t u)
]

find_absent : (id : Text) (t : List Row) → any (has_id id) t ≡ false → find id t ≡ none
unfolding find
find_absent id [] h = refl
find_absent id (r ∷ t) h = elim (Bool-cases (has_id id r)) [
  | inl e ↦ cc (rw e at h)
  | inr e ↦ rw e (find_absent id t (rw e at h))
]

pub terminal-settled : (s : Text) → is_terminal s ≡ true → phase_of_status s ≡ settled s
unfolding is_terminal
terminal-settled s h = elim (Bool-cases (text_eq s running)) [
  | inl e ↦ cc (rw e at h)
  | inr e ↦ elim (Bool-cases (text_eq s cancelling)) [
    | inl f ↦ cc (rw (e, f) at h)
    | inr f ↦ rw (e, f) refl
  ]
]

pub Swept-same : (p : Phase) → Swept p p
Swept-same absent = refl
Swept-same opened = refl
Swept-same closing = refl
Swept-same (settled s) = inl refl

pub delete-Swept :
    (here : Row → Bool) (id : Text) (t : List Row)
    → IsUnique t
    → ((r : Row) → here r ≡ true → is_terminal r.status ≡ true)
    → Swept (phase (find id t)) (phase (find id (delete here t)))
unfolding find delete
delete-Swept here id [] u h = refl
delete-Swept here id (r ∷ t) (a, u) h = elim (Bool-cases (has_id id r)) [
  | inl e ↦ elim (Bool-cases (here r)) [
    | inl f ↦
        let same = (text_eq_iff r.invocation_id id).0 e in
        let gone =
          find_absent id (delete here t)
            (any-delete here id t (subst (λ i. any (has_id i) t ≡ false) same a)) in
        rw (e, f, gone, terminal-settled r.status (h r f)) (inr refl)
    | inr f ↦ rw (f, e) (Swept-same (phase_of_status r.status))
  ]
  | inr e ↦ elim (Bool-cases (here r)) [
    | inl f ↦ rw (e, f) (delete-Swept here id t u h)
    | inr f ↦ rw (e, f, e) (delete-Swept here id t u h)
  ]
]

-- Of a row with one id, the test for another.
other_test : (id j : Text) (r : Row) → has_id id r ≡ true → has_id j r ≡ text_eq j id
other_test id j r e =
    ground
      (arith, e, text_eq_iff r.invocation_id id, text_eq_iff r.invocation_id j, text_eq_iff j id)

pub phase-create :
    (id j action_ref : Text) (start now : ℕ) (t : List Row)
    → any (has_id j) t ≡ false
    → phase (find id (t ++ new_row j action_ref start now ∷ []))
      ≡ at_id j id begun (phase (find id t))
unfolding find text_eq
phase-create id j action_ref start now [] h = elim (Bool-cases (text_eq j id)) [
  | inl e ↦ rw e refl
  | inr e ↦ rw e refl
]
phase-create id j action_ref start now (r ∷ t) h = elim (Bool-cases (has_id id r)) [
  | inl e ↦
      let other : text_eq j id ≡ false = sym (other_test id j r e) ∙ ground (arith, h) in
      rw (e, other) refl
  | inr e ↦ rw e (phase-create id j action_ref start now t (ground (arith, h)))
]

closing_phase : phase_of_status cancelling ≡ closing
unfolding text_eq
closing_phase = refl

asked_row : (now : ℕ) (r : Row) → phase (some (cancel_row now r)) ≡ asked (phase (some r))
asked_row now r = elim (Bool-cases (text_eq r.status running)) [
  | inl e ↦ rw e closing_phase
  | inr e ↦ elim (Bool-cases (text_eq r.status cancelling)) [
    | inl f ↦ rw (e, e, f) refl
    | inr f ↦ rw (e, e, f) refl
  ]
]

pub phase-request_cancel :
    (id j : Text) (now : ℕ) (r : Row)
    → has_id id r ≡ true
    → phase (some (if has_id j r then cancel_row now r else r)) ≡ at_id j id asked (phase (some r))
phase-request_cancel id j now r e =
    rw (other_test id j r e)
      (elim (Bool-cases (text_eq j id)) [ inl f ↦ rw f (asked_row now r) | inr f ↦ rw f refl ])

ended_row :
    (status : Text) (result error : Option Text) (now : ℕ) (r : Row)
    → phase (some (if not (is_terminal r.status) then finish_row status result error now r else r))
      ≡ ended status (phase (some r))
unfolding is_terminal
ended_row status result error now r = elim (Bool-cases (text_eq r.status running)) [
  | inl e ↦ rw e refl
  | inr e ↦ elim (Bool-cases (text_eq r.status cancelling)) [
    | inl f ↦ rw (e, f) refl
    | inr f ↦ rw (e, f, e, f) refl
  ]
]

pub phase-finish :
    (id j status : Text) (result error : Option Text) (now : ℕ) (r : Row)
    → has_id id r ≡ true
    → phase (some (if is_open j r then finish_row status result error now r else r))
      ≡ at_id j id (ended status) (phase (some r))
phase-finish id j status result error now r e =
    rw (other_test id j r e) (elim (Bool-cases (text_eq j id)) [
      | inl f ↦ rw f (ended_row status result error now r)
      | inr f ↦ rw f refl
    ])

pub at_id-absent :
    (j id : Text) (f : Phase → Phase) → f absent ≡ absent → at_id j id f absent ≡ absent
at_id-absent j id f n = elim (Bool-cases (text_eq j id)) [ inl e ↦ rw e n | inr e ↦ rw e refl ]
