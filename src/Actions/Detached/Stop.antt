-- ===== src/Actions/Detached/Stop.antt =====
-- `stop_invocation` as its caller sees it, with the writes of others between its statements.
use solx_core.Prelude.{
  ℕ, Bool, true, false, List, [], ◌∷◌, Option, none, some, if◌then◌else◌, All, Text, ok, err,
  ok-injective, some-injective, ◌≡◌, refl, sym, ap, subst, inl, inr, Bool-cases, arith,
}
use solx_core.Surface.Error.{not_found, Fallible}
use solx_core.Console.Invocations.{
  Row, Invocation, is_terminal, row_to_invocation, find, get, request_cancel, mark_aborted,
  cancelled,
}
use solx_core.Console.Invocations.Writes.{Write, run}
use solx_core.Console.Invocations.Writes
use solx_core.Actions.Store.{or_not_found}
use solx_core.Actions.Detached.Open.{
  is_live, open_in, OpensNone, step-open_in, finish-closes, cancelled-IsTerminal,
}

-- The answer, the table, and whether a task is left that forces the stop after the grace period.
pub record Stopped : Type 0 where
  pub answer : Fallible Invocation
  pub rows : List Row
  pub watched : Bool

abbrev pub at_once : Fallible Invocation → List Row → Stopped
at_once answer t = record { answer = answer; rows = t; watched = false }

abbrev pub read_back : Text → List Row → Stopped
read_back id t = at_once (or_not_found not_found (get id t)) t

abbrev pub stop_open : Text → Bool → ℕ → List Write → List Write → Invocation → List Row → Stopped
stop_open id true later between behind inv t =
    read_back id (run behind (mark_aborted id later (run between t)))
stop_open id false later between behind inv t = record { answer = ok inv; rows = t; watched = true }

abbrev pub stop_found :
    Text → Bool → ℕ → List Write → List Write → Option Invocation → List Row → Stopped
stop_found id force later between behind none t = at_once (err not_found) t
stop_found id force later between behind (some inv) t =
    if is_terminal inv.row.status
    then at_once (ok inv) t
    else stop_open id force later between behind inv t

-- `between` are the writes of others up to the forced end, and `behind` those up to the last read.
unfoldable pub stop_invocation : Text → Bool → ℕ → ℕ → List Write → List Write → List Row → Stopped
stop_invocation id force now later between behind t =
    let (t', found) = request_cancel id now t in stop_found id force later between behind found t'

run-open_in :
    (id : Text) (ws : List Write) (t : List Row)
    → All OpensNone ws
    → open_in id t ≡ false
    → open_in id (run ws t) ≡ false
unfolding run
run-open_in id [] t a h = h
run-open_in id (w ∷ ws) t (o, a) h = run-open_in id ws (Writes.step w t) a (step-open_in w id t o h)

-- What is read of a row that is closed, or not there.
closed_read :
    (id : Text) (t : List Row)
    → open_in id t ≡ false
    → (inv : Invocation) → get id t ≡ some inv
    → is_terminal inv.row.status ≡ true
unfolding get row_to_invocation
closed_read id t h inv g = at (find id t) h g
  where
    at :
        (o : Option Row)
        → is_live o ≡ false
        → (elim o [ none ↦ none | some r ↦ some (row_to_invocation r) ]) ≡ some inv
        → is_terminal inv.row.status ≡ true
    at none h g = cc
    at (some r) h g =
        let ended : is_terminal r.status ≡ true = ground (arith, h) in
        subst (λ i. is_terminal i.row.status ≡ true) (some-injective g) ended

absent_read : (id : Text) (t : List Row) → get id t ≡ none → open_in id t ≡ false
unfolding get
absent_read id t g = at (find id t) g
  where
    at :
        (o : Option Row)
        → (elim o [ none ↦ none | some r ↦ some (row_to_invocation r) ]) ≡ none
        → is_live o ≡ false
    at none g = refl
    at (some r) g = cc

ended_read :
    (id : Text) (t : List Row) (inv : Invocation)
    → get id t ≡ some inv
    → is_terminal inv.row.status ≡ true
    → open_in id t ≡ false
unfolding get row_to_invocation
ended_read id t inv g e = at (find id t) g
  where
    at :
        (o : Option Row)
        → (elim o [ none ↦ none | some r ↦ some (row_to_invocation r) ]) ≡ some inv
        → is_live o ≡ false
    at none g = refl
    at (some r) g =
        let same : inv.row ≡ r = sym (ap (λ i. i.row) (some-injective g)) in
        let ended : is_terminal r.status ≡ true = subst (λ x. is_terminal x.status ≡ true) same e in
        rw ended refl

-- The row is terminal or gone, and so is what is answered of it.
abbrev pub IsOver : Text → Stopped → Type 0
IsOver id s =
    (open_in id s.rows ≡ false)
    × ((inv : Invocation) → s.answer ≡ ok inv → is_terminal inv.row.status ≡ true)

read_back_answer :
    (o : Option Invocation) (inv : Invocation) → or_not_found not_found o ≡ ok inv → o ≡ some inv
read_back_answer none inv h = cc
read_back_answer (some i) inv h = ap some (ok-injective h)

read_back-IsOver : (id : Text) (t : List Row) → open_in id t ≡ false → IsOver id (read_back id t)
read_back-IsOver id t h = (h, λ inv e. closed_read id t h inv (read_back_answer (get id t) inv e))

found-IsOver :
    (id : Text) (later : ℕ) (between behind : List Write) (o : Option Invocation) (t : List Row)
    → All OpensNone behind
    → get id t ≡ o
    → IsOver id (stop_found id true later between behind o t)
unfolding mark_aborted get row_to_invocation
found-IsOver id later between behind none t b g = (absent_read id t g, λ inv e. cc)
found-IsOver id later between behind (some inv) t b g =
    elim (Bool-cases (is_terminal inv.row.status)) [
      | inl e ↦ rw e (
        ended_read id t inv g e,
        λ i same. subst (λ i. is_terminal i.row.status ≡ true) (ok-injective same) e,
      )
      | inr e ↦ rw e (
          read_back-IsOver id _ (
            run-open_in id behind _ b
              (finish-closes id cancelled none _ later (run between t) cancelled-IsTerminal)))
    ]

-- A forced stop, whatever others write to the table in between, and behind it where they create no
-- row and end none but with a terminal status: when it answers, the row is terminal or gone, and an
-- answer that shows the row shows it terminal.
pub stop_invocation_forced :
    (id : Text) (now later : ℕ) (between behind : List Write) (t : List Row)
    → All OpensNone behind
    → IsOver id (stop_invocation id true now later between behind t)
unfolding stop_invocation request_cancel
stop_invocation_forced id now later between behind t b =
    found-IsOver id later between behind _ _ b refl
