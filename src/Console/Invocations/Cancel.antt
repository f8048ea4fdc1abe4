-- ===== src/Console/Invocations/Cancel.antt =====
-- Requests to cancel: what they write, and what they do to the sweep.
use solx_core.Prelude.{
  ℕ, ◌≤◌, Bool, true, false, List, [], ◌∷◌, Option, none, some, any, Text, text_eq, text_eq_iff,
  ◌≡◌, refl, ap, ◌⊎◌, inl, inr, arith, Bool-cases,
}
use solx_core.Console.Table.{update, delete}
use solx_core.Console.Invocations.{
  Row, row_to_invocation, has_id, find, get, is_cancelled, cancel_row, request_cancel, is_expired,
  sweep_expired,
}
use solx_core.Console.Invocations.Startup.{IsUnique, sweep_expired-delete}

module _ (id : Text) (now : ℕ) where
  abbrev cancelled_table : List Row → List Row
  cancelled_table t = update (has_id id) (cancel_row now) t

  find-cancelled_self :
      (t : List Row) (r : Row)
      → find id t ≡ some r
      → find id (cancelled_table t) ≡ some (cancel_row now r)
  unfolding find update
  find-cancelled_self [] r h = cc
  find-cancelled_self (s ∷ t) r h = elim (Bool-cases (has_id id s)) [
    | inl e ↦ rw (e, e) (let same : some s ≡ some r = rw e at h in cc)
    | inr e ↦ rw (e, e) (find-cancelled_self t r (rw e at h))
  ]

  cancelled_absent : (t : List Row) → find id t ≡ none → cancelled_table t ≡ t
  unfolding find update
  cancelled_absent [] h = refl
  cancelled_absent (s ∷ t) h = elim (Bool-cases (has_id id s)) [
    | inl e ↦ cc (rw e at h)
    | inr e ↦ rw e (ap (◌∷◌ s) (cancelled_absent t (rw e at h)))
  ]

  find-cancelled_ne :
      (j : Text) (t : List Row) → text_eq id j ≡ false → find j (cancelled_table t) ≡ find j t
  unfolding find update
  find-cancelled_ne j [] ne = refl
  find-cancelled_ne j (s ∷ t) ne = elim (Bool-cases (has_id id s)) [
    | inl e ↦
        let other : has_id j s ≡ false = rw ((text_eq_iff s.invocation_id id).0 e) ne in
        rw (e, other) (find-cancelled_ne j t ne)
    | inr e ↦ rw (e, find-cancelled_ne j t ne)
  ]

  -- A request to cancel a known id sets the flag, moves `running` to `cancelling` and leaves any
  -- other status, and returns the row so written; an unknown id changes nothing and returns
  -- nothing; no other id is touched.
  pub request_cancel_lem :
      (t : List Row)
      → (((find id t ≡ none) × (request_cancel id now t ≡ (t, none)))
          ⊎ ((r : Row) × (find id t ≡ some r)
              × (find id (request_cancel id now t).0 ≡ some (cancel_row now r))
              × ((request_cancel id now t).1 ≡ some (row_to_invocation (cancel_row now r)))
              × (is_cancelled id (request_cancel id now t).0 ≡ true)))
        × ((j : Text) → text_eq id j ≡ false → find j (request_cancel id now t).0 ≡ find j t)
  unfolding request_cancel get is_cancelled
  request_cancel_lem t = (at (find id t) refl, λ j ne. find-cancelled_ne j t ne)
    where
      at :
          (o : Option Row)
          → find id t ≡ o
          → ((find id t ≡ none) × (request_cancel id now t ≡ (t, none)))
            ⊎ ((r : Row) × (find id t ≡ some r)
                × (find id (request_cancel id now t).0 ≡ some (cancel_row now r))
                × ((request_cancel id now t).1 ≡ some (row_to_invocation (cancel_row now r)))
                × (is_cancelled id (request_cancel id now t).0 ≡ true))
      at none e = inl (e, rw (cancelled_absent t e, get) (rw e))
      at (some r) e =
          let f = find-cancelled_self t r e in inr (r, e, f, rw (f, get), rw (f, is_cancelled))

any_cancelled :
    (id x : Text) (now : ℕ) (t : List Row)
    → any (has_id x) (update (has_id id) (cancel_row now) t) ≡ any (has_id x) t
unfolding update
any_cancelled id x now [] = refl
any_cancelled id x now (s ∷ t) = elim (Bool-cases (has_id id s)) [
  | inl e ↦ rw (e, any_cancelled id x now t)
  | inr e ↦ rw (e, any_cancelled id x now t)
]

cancelled-IsUnique :
    (id : Text) (now : ℕ) (t : List Row)
    → IsUnique t
    → IsUnique (update (has_id id) (cancel_row now) t)
unfolding update
cancelled-IsUnique id now [] u = tt
cancelled-IsUnique id now (s ∷ t) (a, u) = elim (Bool-cases (has_id id s)) [
  | inl e ↦ rw e (rw (any_cancelled id s.invocation_id now t) a, cancelled-IsUnique id now t u)
  | inr e ↦ rw e (rw (any_cancelled id s.invocation_id now t) a, cancelled-IsUnique id now t u)
]

find-delete_kept :
    (here : Row → Bool) (id : Text) (t : List Row) (r : Row)
    → find id t ≡ some r
    → here r ≡ false
    → find id (delete here t) ≡ some r
unfolding find delete
find-delete_kept here id [] r h k = cc
find-delete_kept here id (s ∷ t) r h k = elim (Bool-cases (has_id id s)) [
  | inl e ↦
      let same : some s ≡ some r = rw e at h in
      let same_row : s ≡ r = cc in let stays : here s ≡ false = rw same_row k in rw (stays, e) same
  | inr e ↦ elim (Bool-cases (here s)) [
    | inl g ↦ rw g (find-delete_kept here id t r (rw e at h) k)
    | inr g ↦ rw (g, e) (find-delete_kept here id t r (rw e at h) k)
  ]
]

-- In a table without two rows of the same id, a request to cancel a known id renews `updated_at`
-- whatever the status, so that the row, also a terminal one that had expired, outlives every sweep
-- with a cutoff up to the time of the request.
pub sweep_expired-request_cancel :
    (id : Text) (now cutoff : ℕ) (t : List Row) (r : Row)
    → IsUnique t
    → find id t ≡ some r
    → cutoff ≤ now
    → find id (sweep_expired cutoff (request_cancel id now t).0).0 ≡ some (cancel_row now r)
unfolding request_cancel
sweep_expired-request_cancel id now cutoff t r u h le =
    rw
      (sweep_expired-delete cutoff (update (has_id id) (cancel_row now) t)
        (cancelled-IsUnique id now t u))
      (find-delete_kept (is_expired cutoff) id (update (has_id id) (cancel_row now) t)
        (cancel_row now r) (find-cancelled_self id now t r h) (ground arith))
