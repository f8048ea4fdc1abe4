-- ===== src/Actions/Detached/Owned.antt =====
-- Every row that is open belongs to somebody who will close it, or has been given up.
use solx_core.Prelude.{
  ℕ, Bool, true, false, ◌||◌, List, [], Option, none, Text, text_eq, text_eq_iff, ok, err, ◌≡◌,
  refl, subst, inl, inr, Bool-cases, arith,
}
use solx_core.Surface.Error.{SolxError, Fallible}
use solx_core.Config.Allowlist.{has}
use solx_core.Config.Allowlist.Members.{has-without}
use solx_core.Console.Invocations.{
  Row, is_terminal, create, finish, mark_aborted, mark_orphans, cancelled,
}
use solx_core.Console.Invocations.Startup.{mark_orphans-IsSettled}
use solx_core.Console.Invocations.Writes.{Write}
use solx_core.Console.Invocations.Writes
use solx_core.Actions.Detached.{
  ExecResult, outcome_of, Process, created, spawn, register, end_task, forget, abort_handle,
  drop_task, mark, lose_start, lose_task, lose_stop,
}
use solx_core.Actions.Detached.Open.{
  open_in, settled-open_in, finish-open_in, finish-closes, create-open_in, OpensNone, step-open_in,
  cancelled-IsTerminal,
}

-- What may happen next: a step of a run of this process, where that run stands there, and a write
-- by anybody to the table. An id that is minted has not been aborted before.
pub data Step (show : SolxError → Text) : Process → Process → Type 0 where
  creates :
      {p : Process} (id action_ref : Text) (start now : ℕ) (rows : List Row)
      → has id p.aborted ≡ false
      → create id action_ref start now p.rows ≡ ok rows
      → Step show p (created id rows p)
  spawns : {p : Process} (id : Text) → has id p.starting ≡ true → Step show p (spawn id p)
  registers : {p : Process} (id : Text) → has id p.unregistered ≡ true → Step show p (register id p)
  ends :
      {p : Process} (id : Text) (r : Fallible ExecResult) (now : ℕ)
      → has id p.live ≡ true
      → Step show p (end_task id (outcome_of show r) now p)
  forgets : {p : Process} (id : Text) → has id p.ended ≡ true → Step show p (forget id p)
  aborts : {p : Process} (id : Text) → Step show p (abort_handle id p)
  drops :
      {p : Process} (id : Text)
      → has id p.aborted ≡ true
      → has id p.live ≡ true
      → Step show p (drop_task id p)
  marks :
      {p : Process} (id : Text) (now : ℕ) → has id p.stopping ≡ true → Step show p (mark id now p)
  loses_start : {p : Process} (id : Text) → has id p.starting ≡ true → Step show p (lose_start id p)
  loses_task : {p : Process} (id : Text) → has id p.live ≡ true → Step show p (lose_task id p)
  loses_stop : {p : Process} (id : Text) → has id p.stopping ≡ true → Step show p (lose_stop id p)
  writes :
      {p : Process} (w : Write)
      → OpensNone w
      → Step show p (record p { rows = Writes.step w p.rows })

pub data Steps (show : SolxError → Text) : Process → Process → Type 0 where
  still : {p : Process} → Steps show p p
  onward : {p q r : Process} → Steps show p q → Step show q r → Steps show p r

-- A process that has just begun.
abbrev pub at_start : List Row → Process
at_start rows = record {
  rows = rows;
  starting = [];
  live = [];
  unregistered = [];
  ended = [];
  running = [];
  aborted = [];
  stopping = [];
  lost = [];
}

-- A start that is yet to spawn the task, a task that executes, or a stop that is yet to write.
abbrev pub has_owner : Text → Process → Bool
has_owner id p = has id p.starting || has id p.live || has id p.stopping

-- Or there is nobody left: its start failed behind the row, its task panicked or its stop was dropped.
abbrev pub is_accounted : Text → Process → Bool
is_accounted id p = has_owner id p || has id p.lost

pub record IsOwned (p : Process) : Type 0 where
  pub owned : (id : Text) → open_in id p.rows ≡ true → is_accounted id p ≡ true
  pub covered :
      (id : Text)
      → open_in id p.rows ≡ true
      → has id p.aborted ≡ true
      → (has id p.stopping || has id p.lost) ≡ true

module _ (show : SolxError → Text) where
  outcome-IsTerminal : (r : Fallible ExecResult) → is_terminal (outcome_of show r).status ≡ true
  unfolding outcome_of is_terminal text_eq
  outcome-IsTerminal (ok r) = elim (Bool-cases r.success) [ inl e ↦ rw e refl | inr e ↦ rw e refl ]
  outcome-IsTerminal (err e) = refl

-- A row that is open behind a write that opens none was open before.
was_open :
    (t t' : List Row) (id : Text)
    → (open_in id t ≡ false → open_in id t' ≡ false)
    → open_in id t' ≡ true
    → open_in id t ≡ true
was_open t t' id h o = elim (Bool-cases (open_in id t)) [ inl e ↦ e | inr e ↦ cc (h e) ]

-- A row that a terminal end of another invocation leaves open was open, and is not that one.
open_behind_end :
    (id j status : Text) (result error : Option Text) (now : ℕ) (t : List Row)
    → is_terminal status ≡ true
    → open_in j (finish id status result error now t) ≡ true
    → (text_eq id j ≡ false) × (open_in j t ≡ true)
open_behind_end id j status result error now t s o = (
  elim (Bool-cases (text_eq id j)) [
    | inl e ↦
        let shut =
          subst (λ k. open_in k (finish id status result error now t) ≡ false)
            ((text_eq_iff id j).0 e) (finish-closes id status result error now t s) in
        cc
    | inr e ↦ e
  ],
  was_open t (finish id status result error now t) j
      (finish-open_in id j status result error now t s) o,
)

pub Step-IsOwned : {show : SolxError → Text} {p q : Process} → Step show p q → IsOwned p → IsOwned q
unfolding created spawn register end_task forget abort_handle drop_task mark mark_aborted lose_start
    lose_task lose_stop
Step-IsOwned (creates {p} id action_ref start now rows fresh done) h = record {
  owned = λ j o. elim (Bool-cases (text_eq id j)) [
    | inl e ↦ rw e refl
    | inr e ↦
        let old =
          was_open p.rows rows j (create-open_in id j action_ref start now p.rows rows done e) o in
        ground (arith, h.owned j old)
  ];
  covered = λ j o a. elim (Bool-cases (text_eq id j)) [
    | inl e ↦ let no = subst (λ k. has k p.aborted ≡ false) ((text_eq_iff id j).0 e) fresh in cc
    | inr e ↦
        h.covered j
          (was_open p.rows rows j (create-open_in id j action_ref start now p.rows rows done e) o) a
  ];
}
Step-IsOwned (spawns {p} id at) h = record {
  owned = λ j o. ground (arith, h.owned j o, has-without j id p.starting);
  covered = h.covered;
}
Step-IsOwned (registers id at) h = record { owned = h.owned; covered = h.covered }
Step-IsOwned {show} (ends {p} id r now at) h =
    let end = outcome_of show r in
    let behind : (j : Text)
        → open_in j (finish id end.status end.result end.error now p.rows) ≡ true
        → (text_eq id j ≡ false) × (open_in j p.rows ≡ true) =
      λ j.
        open_behind_end id j end.status end.result end.error now p.rows
          (outcome-IsTerminal show r) in
    record {
      owned = λ j o. ground (arith, behind j o, h.owned j, has-without j id p.live);
      covered = λ j o a. ground (arith, behind j o, h.covered j);
    }
Step-IsOwned (forgets id at) h = record { owned = h.owned; covered = h.covered }
Step-IsOwned (aborts {p} id) h = record {
  owned = λ j o. ground (arith, h.owned j o);
  covered = λ j o a. ground (arith, h.covered j o);
}
Step-IsOwned (drops {p} id a at) h = record {
  owned = λ j o. elim (Bool-cases (text_eq id j)) [
    | inl e ↦
        let stopping =
          h.covered j o (subst (λ k. has k p.aborted ≡ true) ((text_eq_iff id j).0 e) a) in
        ground (arith, stopping)
    | inr e ↦ ground (arith, h.owned j o, has-without j id p.live)
  ];
  covered = h.covered;
}
Step-IsOwned (marks {p} id now at) h =
    let behind : (j : Text)
        → open_in j (mark_aborted id now p.rows) ≡ true
        → (text_eq id j ≡ false) × (open_in j p.rows ≡ true) =
      λ j. open_behind_end id j cancelled none _ now p.rows cancelled-IsTerminal in
    record {
      owned = λ j o. ground (arith, behind j o, h.owned j, has-without j id p.stopping);
      covered = λ j o a. ground (arith, behind j o, h.covered j, has-without j id p.stopping);
    }
Step-IsOwned (loses_start {p} id at) h = record {
  owned = λ j o. ground (arith, h.owned j o, has-without j id p.starting);
  covered = λ j o a. ground (arith, h.covered j o a);
}
Step-IsOwned (loses_task {p} id at) h = record {
  owned = λ j o. ground (arith, h.owned j o, has-without j id p.live);
  covered = λ j o a. ground (arith, h.covered j o a);
}
Step-IsOwned (loses_stop {p} id at) h = record {
  owned = λ j o. ground (arith, h.owned j o, has-without j id p.stopping);
  covered = λ j o a. ground (arith, h.covered j o a, has-without j id p.stopping);
}
Step-IsOwned (writes {p} w opens) h = record {
  owned = λ j o. h.owned j (was_open p.rows _ j (step-open_in w j p.rows opens) o);
  covered = λ j o a. h.covered j (was_open p.rows _ j (step-open_in w j p.rows opens) o) a;
}

Steps-IsOwned : {show : SolxError → Text} {p q : Process} → IsOwned p → Steps show p q → IsOwned q
Steps-IsOwned h still = h
Steps-IsOwned h (onward s k) = Step-IsOwned k (Steps-IsOwned h s)

at_start-IsOwned : (clock : Text → ℕ) (t : List Row) → IsOwned (at_start (mark_orphans clock t).0)
at_start-IsOwned clock t =
    let shut : (id : Text) → open_in id (mark_orphans clock t).0 ≡ false =
      λ id. settled-open_in id (mark_orphans clock t).0 (mark_orphans-IsSettled clock t) in
    record { owned = λ id o. let no = shut id in cc; covered = λ id o a. let no = shut id in cc }

-- Of a process that has begun with `mark_orphans`, and however its starts, tasks and stops and the
-- writes of other processes, which create no row, come between one another: whenever a row is
-- neither missing nor terminal, its start is yet to spawn the task, its task executes, or a stop is
-- yet to write its end; or this invocation has been lost before, by a start that failed or was
-- dropped behind the row, by a task that panicked or whose write failed, or by a stop that was
-- dropped behind the abort or whose write failed.
pub Steps-owner :
    {show : SolxError → Text} {p : Process} (clock : Text → ℕ) (t : List Row)
    → Steps show (at_start (mark_orphans clock t).0) p
    → (id : Text) → open_in id p.rows ≡ true
    → (has_owner id p || has id p.lost) ≡ true
Steps-owner clock t s = (Steps-IsOwned (at_start-IsOwned clock t) s).owned
