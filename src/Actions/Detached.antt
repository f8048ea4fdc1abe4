-- ===== src/Actions/Detached.antt =====
-- solx-actions/src/invocation.rs: detached invocations. One run of `start_invocation`, of its spawned
-- task, of `stop_invocation` and of the task that waits for the grace period is cut into steps
-- where another task or process may come between; each step is a function on the state that they
-- share. The ids are those of the invocations, under which the handles are kept; a lock is not
-- poisoned, a failing connection and the JSON texts of the answers are not modelled.
pub mod Open
pub mod Owned
pub mod Stop
pub mod Poll
mod Tests
use solx_core.Prelude.{
  ℕ, Bool, true, false, List, [], ◌∷◌, Option, none, some, if◌then◌else◌, Text, codes, Result, ok,
  err, ◌>>=◌, ◌>>◌,
}
use solx_core.Surface.Error.{SolxError, exec, Fallible}
use solx_core.Surface.Path.{full_ref}
use solx_core.Config.Policy.{ActionType}
use solx_core.Config.Allowlist.{has, without}
use solx_core.Console.Invocations
use solx_core.Console.Invocations.{create, finish, mark_aborted}
use solx_core.Console.Store.{Tables}
use solx_core.Console.Store.Clear.{current_next_seq}
use solx_core.Actions.Rows
use solx_core.Actions.Rows.{ActionEntity}
use solx_core.Actions.Store.{get_unmasked}

-- `ActionExecResult`, with its result as JSON text.
pub record ExecResult : Type 0 where
  pub result : Text
  pub success : Bool
  pub message : Option Text

pub record Outcome : Type 0 where
  pub status : Text
  pub result : Option Text
  pub error : Option Text

-- What the task writes when its execution has come back; `show` renders an error.
unfoldable pub outcome_of : (SolxError → Text) → Fallible ExecResult → Outcome
outcome_of show (ok r) =
    if r.success
    then record { status = codes "ok"; result = some r.result; error = none }
    else record { status = codes "failed"; result = some r.result; error = r.message }
outcome_of show (err e) = record { status = codes "failed"; result = none; error = some (show e) }

pub record Started : Type 0 where
  pub invocation_id : Text
  pub action_ref : Text
  pub console_seq_start : ℕ

abbrev pub check_host : Bool → Fallible (Unit {0})
check_host true = ok tt
check_host false = err exec

abbrev pub check_type : Option ActionType → Fallible (Unit {0})
check_type none = err exec
check_type (some ty) = ok tt

-- `start_invocation` up to the spawn: the checks, and the row.
unfoldable pub start_invocation :
    {N : Type 0}
    → Bool
    → Text
    → Text
    → Text
    → Tables
    → ℕ
    → List (Rows.Row N)
    → List Invocations.Row
    → Fallible (Started × List Invocations.Row)
start_invocation long_lived path name id tables now actions rows = do
  check_host long_lived
  action ← get_unmasked path name actions
  action_ref ← full_ref action.path action.name
  check_type action.action_type
  let start = current_next_seq action_ref tables
  rows' ← create id action_ref start now rows
  ok (record { invocation_id = id; action_ref = action_ref; console_seq_start = start }, rows')

-- The table, and where each invocation of this process stands: its row is there and its task is yet
-- to be spawned, its task executes, its handle is yet to be kept, its task has written its end, its
-- handle is kept, its task is aborted, a stop is yet to write its row, nobody is left who would.
pub record Process : Type 0 where
  pub rows : List Invocations.Row
  pub starting : List Text
  pub live : List Text
  pub unregistered : List Text
  pub ended : List Text
  pub running : List Text
  pub aborted : List Text
  pub stopping : List Text
  pub lost : List Text

unfoldable pub created : Text → List Invocations.Row → Process → Process
created id rows p = record p { rows = rows; starting = id ∷ p.starting }

-- `tokio::spawn`.
unfoldable pub spawn : Text → Process → Process
spawn id p = record p {
  starting = without id p.starting;
  live = id ∷ p.live;
  unregistered = id ∷ p.unregistered;
}

-- `running.insert`.
unfoldable pub register : Text → Process → Process
register id p = record p {
  unregistered = without id p.unregistered;
  running = id ∷ without id p.running;
}

-- The task writes its outcome.
unfoldable pub end_task : Text → Outcome → ℕ → Process → Process
end_task id o now p = record p {
  rows = finish id o.status o.result o.error now p.rows;
  live = without id p.live;
  ended = id ∷ p.ended;
}

-- `running.remove` at the end of the task.
unfoldable pub forget : Text → Process → Process
forget id p = record p { ended = without id p.ended; running = without id p.running }

-- The first half of `force_abort`: the handle, where one is kept, is removed and its task aborted.
unfoldable pub abort_handle : Text → Process → Process
abort_handle id p = record p {
  running = without id p.running;
  aborted = if has id p.running then id ∷ p.aborted else p.aborted;
  stopping = id ∷ p.stopping;
}

-- An aborted task is dropped where it next waits.
unfoldable pub drop_task : Text → Process → Process
drop_task id p = record p { live = without id p.live }

-- The second half of `force_abort`.
unfoldable pub mark : Text → ℕ → Process → Process
mark id now p = record p { rows = mark_aborted id now p.rows; stopping = without id p.stopping }

-- A start that fails behind its row (`self_arc`), or is dropped there.
unfoldable pub lose_start : Text → Process → Process
lose_start id p = record p { starting = without id p.starting; lost = id ∷ p.lost }

-- A task that panics, or whose last write fails.
unfoldable pub lose_task : Text → Process → Process
lose_task id p = record p { live = without id p.live; lost = id ∷ p.lost }

-- A stop that is dropped between its two halves, or whose write fails.
unfoldable pub lose_stop : Text → Process → Process
lose_stop id p = record p { stopping = without id p.stopping; lost = id ∷ p.lost }
