-- ===== src/Actions/Detached/Tests.antt =====
-- Runs of detached invocations, and the theorems about them at a concrete table.
use solx_core.Prelude.{
  ℕ, ◌*◌, ◌||◌, true, false, [], ◌∷◌, Option, none, some, Text, codes, text_eq, ok, err, ◌≡◌, refl,
  arith,
}
use solx_core.Surface.Error.{SolxError, exec, not_found, Fallible}
use solx_core.Console.Table.{update, delete}
use solx_core.Config.Allowlist.{has, without}
use solx_core.Console.Invocations.{
  Row, Invocation, is_terminal, row_to_invocation, find, select_ids, new_row, create, get,
  request_cancel, finish, mark_aborted, interrupt_all, mark_orphans, delete_all, sweep_expired,
}
use solx_core.Console.Invocations.Writes.{Write, requests_cancel, sweeps, run}
use solx_core.Console.Invocations.Writes
use solx_core.Actions.Store.Tests.{runs, table}
use solx_core.Console.Store.{Tables, meta}
use solx_core.Console.Store.Clear.{current_next_seq}
use solx_core.Actions.Detached.{
  ExecResult, outcome_of, start_invocation, Process, created, spawn, register, end_task, forget,
  abort_handle, drop_task, mark,
}
use solx_core.Actions.Detached.Open.{open_in}
use solx_core.Actions.Detached.Owned.{
  creates, spawns, Steps, still, onward, at_start, has_owner, Steps-owner,
}
use solx_core.Actions.Detached.Stop.{IsOver, stop_invocation, stop_invocation_forced}
use solx_core.Actions.Detached.Poll.{
  deadline_of, poll_loop, poll_invocation, Ends, poll_invocation-Ends,
}

runs_detached : Unit {0}
unfolding runs is_terminal row_to_invocation find select_ids create get request_cancel finish
    mark_aborted interrupt_all mark_orphans delete_all sweep_expired run Writes.step meta
    current_next_seq outcome_of start_invocation created spawn register end_task forget abort_handle
    drop_task mark stop_invocation poll_loop poll_invocation without update delete text_eq
runs_detached = tt

abbrev done : Fallible ExecResult
done = ok (record { result = codes "42"; success = true; message = none })

abbrev consoles : Tables
consoles = record { consoles = []; entries = [] }

abbrev show : SolxError → Text
show e = codes "error"

abbrev row : Row
row = new_row (codes "a") (codes "/tools/hook") 1 5

starts_only_in_a_host :
    (start_invocation false (codes "/tools") (codes "hook") (codes "a") consoles 5 table []
      ≡ err exec)
    × (start_invocation true (codes "/tools") (codes "hook") (codes "a") consoles 5 table []
        ≡ ok (
          record {
            invocation_id = codes "a";
            action_ref = codes "/tools/hook";
            console_seq_start = 1;
          },
          row ∷ [],
        ))
    × (start_invocation true (codes "/tools") (codes "none") (codes "a") consoles 5 table []
        ≡ err not_found)
unfolding runs_detached
starts_only_in_a_host = (refl, refl, refl)

abbrev begun : Process
begun = spawn (codes "a") (created (codes "a") (row ∷ []) (at_start []))

-- A task that ends before its handle is kept leaves the handle behind for good.
keeps_a_handle :
    register (codes "a") (forget (codes "a") (end_task (codes "a") (outcome_of show done) 7 begun))
    ≡ record (at_start (finish (codes "a") (codes "ok") (some (codes "42")) none 7 (row ∷ []))) {
      running = codes "a" ∷ [];
    }
unfolding runs_detached
keeps_a_handle = refl

begun-Steps : Steps show (at_start (mark_orphans (λ id. 0) []).0) begun
unfolding runs_detached
begun-Steps =
    onward (onward still (creates (codes "a") (codes "/tools/hook") 1 5 (row ∷ []) refl refl))
      (spawns (codes "a") refl)

begun_open : open_in (codes "a") begun.rows ≡ true
unfolding runs_detached
begun_open = refl

Steps-owner_example : (has_owner (codes "a") begun || has (codes "a") begun.lost) ≡ true
Steps-owner_example = Steps-owner {show = show} (λ id. 0) [] begun-Steps (codes "a") begun_open

stop_invocation_forced_example : IsOver (codes "a") (
    stop_invocation
      (codes "a")
      true
      6
      7
      (requests_cancel (codes "a") 6 ∷ [])
      (sweeps 3 ∷ [])
      (row ∷ []))
stop_invocation_forced_example =
    stop_invocation_forced (codes "a") 6 7 (requests_cancel (codes "a") 6 ∷ []) (sweeps 3 ∷ [])
      (row ∷ []) (tt, tt)

-- A table that shows the row as it began, and a clock that is a quarter of a second on in each round.
abbrev shown : ℕ → Option Invocation
shown i = get (codes "a") (row ∷ [])

abbrev clock : ℕ → ℕ
clock i = i * 250

poll_invocation-Ends_example :
    (r : Fallible Invocation) × (poll_invocation shown clock 60001 (some 1) ≡ some r)
    × Ends shown clock (deadline_of (clock 0) (some 1)) r
poll_invocation-Ends_example =
    poll_invocation-Ends shown clock 60001 (some 1) (omega arith) (λ i h. omega arith)
