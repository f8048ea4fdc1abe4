-- ===== src/Console/Invocations/Outcome.antt =====
-- What a settled row keeps, and how the updates and deletions of the table treat it.
use solx_core.Prelude.{
  Bool, true, false, List, [], ◌∷◌, ◌++◌, Option, none, some, if◌then◌else◌, Text, text_eq,
  text_eq_iff, ◌≡◌, refl, sym, ap, ◌∙◌, inl, inr, Bool-cases,
}
use solx_core.Console.Table.{update, delete}
use solx_core.Console.Invocations.{Row, has_id, find, delete_all}

-- What a settled row keeps: all but the request to cancel and the time of the last update.
pub record SameOutcome (r s : Row) : Type 0 where
  pub same_id : s.invocation_id ≡ r.invocation_id
  pub same_ref : s.action_ref ≡ r.action_ref
  pub same_status : s.status ≡ r.status
  pub same_created : s.created_at ≡ r.created_at
  pub same_finished : s.finished_at ≡ r.finished_at
  pub same_start : s.console_seq_start ≡ r.console_seq_start
  pub same_result : s.result ≡ r.result
  pub same_error : s.error ≡ r.error

pub SameOutcome-refl : (r : Row) → SameOutcome r r
SameOutcome-refl r = search

SameOutcome-trans : {r s t : Row} → SameOutcome r s → SameOutcome s t → SameOutcome r t
SameOutcome-trans h k = record {
  same_id = k.same_id ∙ h.same_id;
  same_ref = k.same_ref ∙ h.same_ref;
  same_status = k.same_status ∙ h.same_status;
  same_created = k.same_created ∙ h.same_created;
  same_finished = k.same_finished ∙ h.same_finished;
  same_start = k.same_start ∙ h.same_start;
  same_result = k.same_result ∙ h.same_result;
  same_error = k.same_error ∙ h.same_error;
}

-- The first row with the id, if there is one, has this outcome.
abbrev pub KeepsIn : Row → Option Row → Type 0
KeepsIn r none = Unit
KeepsIn r (some s) = SameOutcome r s

same_id_test :
    (id : Text) (s s' : Row) → s'.invocation_id ≡ s.invocation_id → has_id id s' ≡ has_id id s
same_id_test id s s' e = ap (λ i. text_eq i id) e

if_id :
    (b : Bool) (s s' : Row)
    → s'.invocation_id ≡ s.invocation_id
    → (if b then s' else s).invocation_id ≡ s.invocation_id
if_id true s s' e = e
if_id false s s' e = refl

module _ (r : Row) (id : Text) where
  pub keeps_update :
      (here : Row → Bool) (set : Row → Row) (t : List Row)
      → ((s : Row) → (set s).invocation_id ≡ s.invocation_id)
      → ((s : Row) → SameOutcome r s → SameOutcome r (if here s then set s else s))
      → KeepsIn r (find id t)
      → KeepsIn r (find id (update here set t))
  unfolding find update
  keeps_update here set [] ids good k = tt
  keeps_update here set (s ∷ t) ids good k = elim (Bool-cases (has_id id s)) [
    | inl e ↦
        rw (same_id_test id s (if here s then set s else s) (if_id (here s) s (set s) (ids s)), e)
          (good s (rw e at k))
    | inr e ↦
        rw (same_id_test id s (if here s then set s else s) (if_id (here s) s (set s) (ids s)), e)
          (keeps_update here set t ids good (rw e at k))
  ]

  pub find-delete_self : (t : List Row) → find id (delete (has_id id) t) ≡ none
  unfolding find delete
  find-delete_self [] = refl
  find-delete_self (s ∷ t) = elim (Bool-cases (has_id id s)) [
    | inl e ↦ rw e (find-delete_self t)
    | inr e ↦ rw (e, e) (find-delete_self t)
  ]

  other_id : (j : Text) (s : Row) → text_eq j id ≡ false → has_id j s ≡ true → has_id id s ≡ false
  other_id j s ne h = elim (Bool-cases (has_id id s)) [
    | inl e ↦ cc (
      ne,
      (text_eq_iff j id).1
          (sym ((text_eq_iff s.invocation_id j).0 h) ∙ (text_eq_iff s.invocation_id id).0 e),
    )
    | inr e ↦ e
  ]

  pub find-delete_ne :
      (j : Text) (t : List Row) → text_eq j id ≡ false → find id (delete (has_id j) t) ≡ find id t
  unfolding find delete
  find-delete_ne j [] ne = refl
  find-delete_ne j (s ∷ t) ne = elim (Bool-cases (has_id j s)) [
    | inl e ↦ rw (e, other_id j s ne e) (find-delete_ne j t ne)
    | inr e ↦ rw (e, find-delete_ne j t ne)
  ]

  keeps_delete :
      (j : Text) (t : List Row) → KeepsIn r (find id t) → KeepsIn r (find id (delete (has_id j) t))
  keeps_delete j t k = elim (Bool-cases (text_eq j id)) [
    | inl e ↦ rw ((text_eq_iff j id).0 e, find-delete_self t) tt
    | inr e ↦ rw (find-delete_ne j t e) k
  ]

  pub keeps_delete_all :
      (ids : List Text) (t : List Row)
      → KeepsIn r (find id t)
      → KeepsIn r (find id (delete_all ids t))
  unfolding delete_all
  keeps_delete_all [] t k = k
  keeps_delete_all (j ∷ ids) t k = keeps_delete_all ids (delete (has_id j) t) (keeps_delete j t k)

  pub keeps_concat :
      (s : Row) (t : List Row)
      → has_id id s ≡ false
      → KeepsIn r (find id t)
      → KeepsIn r (find id (t ++ s ∷ []))
  unfolding find
  keeps_concat s [] ne k = rw ne tt
  keeps_concat s (x ∷ t) ne k = elim (Bool-cases (has_id id x)) [
    | inl e ↦ rw e (rw e at k)
    | inr e ↦ rw e (keeps_concat s t ne (rw e at k))
  ]
