-- ===== src/Console/Invocations/Tests.antt =====
-- Runs of the table of invocations, and the theorems about it at concrete tables.
use solx_core.Prelude.{
  none, some, ◌≡◌, refl, ◌⊎◌, List, [], ◌∷◌, All, Text, codes, text_eq, ok, err, arith,
}
use solx_core.Surface.Error.{db}
use solx_core.Console.Table.{update, delete}
use solx_core.Console.Invocations.{
  Row, is_terminal, new_row, find, select_ids, create, get, is_cancelled, cancel_row,
  row_to_invocation, request_cancel, finish, interrupt_all, mark_orphans, mark_aborted, delete_all,
  sweep_expired, finish_row,
}
use solx_core.Console.Invocations.Writes.{requests_cancel, aborts, sweeps, step, run}
use solx_core.Console.Invocations.Outcome.{SameOutcome}
use solx_core.Console.Invocations.Settled.{run-settled}
use solx_core.Console.Invocations.Startup.{IsSettled, IsUnique, mark_orphans-IsSettled}
use solx_core.Console.Invocations.Lifecycle.{phase, PhaseSteps}
use solx_core.Console.Invocations.Lifecycle.Refinement.{run-PhaseSteps}
use solx_core.Console.Invocations.Cancel.{sweep_expired-request_cancel}

runs : Unit {0}
unfolding is_terminal find update delete select_ids create get is_cancelled request_cancel finish
    row_to_invocation interrupt_all mark_orphans mark_aborted delete_all sweep_expired text_eq step
    run
runs = tt

abbrev one : Text
one = codes "inv-1"

abbrev two : Text
two = codes "inv-2"

abbrev done : Row
done = finish_row (codes "ok") (some (codes "{}")) none 5 (new_row one (codes "/a/b") 1 3)

abbrev table : List Row
table = done ∷ new_row two (codes "/a/b") 4 6 ∷ []

creates_once :
    (create two (codes "/a/b") 4 6 (done ∷ []) ≡ ok table)
    × (create two (codes "/a/b") 4 9 table ≡ err db)
unfolding runs
creates_once = (refl, refl)

done_found : find one table ≡ some done
unfolding runs
done_found = refl

run-settled_example :
    (find one (run (aborts one 7 ∷ requests_cancel one 8 ∷ sweeps 8 ∷ []) table) ≡ none)
    ⊎ ((s : Row) × (find one (run (aborts one 7 ∷ requests_cancel one 8 ∷ sweeps 8 ∷ []) table)
          ≡ some s)
        × SameOutcome done s)
run-settled_example =
    run-settled one done (aborts one 7 ∷ requests_cancel one 8 ∷ sweeps 8 ∷ []) table done_found
      (unfold runs in refl) (tt, (tt, (tt, tt)))

mark_orphans-IsSettled_example : All IsSettled (mark_orphans (λ _. 9) table).0
mark_orphans-IsSettled_example = mark_orphans-IsSettled (λ _. 9) table

table-IsUnique : IsUnique table
unfolding runs
table-IsUnique = (refl, (refl, tt))

sweeps_the_done_row : (sweep_expired 6 table).0 ≡ new_row two (codes "/a/b") 4 6 ∷ []
unfolding runs
sweeps_the_done_row = refl

sweep_expired-request_cancel_example :
    find one (sweep_expired 6 (request_cancel one 6 table).0).0 ≡ some (cancel_row 6 done)
sweep_expired-request_cancel_example =
    sweep_expired-request_cancel one 6 6 table done table-IsUnique done_found (omega arith)

run-PhaseSteps_example :
    PhaseSteps two
      (requests_cancel two 8 ∷ aborts two 9 ∷ sweeps 12 ∷ [])
      (phase (find two table))
      (phase (find two (run (requests_cancel two 8 ∷ aborts two 9 ∷ sweeps 12 ∷ []) table)))
    × IsUnique (run (requests_cancel two 8 ∷ aborts two 9 ∷ sweeps 12 ∷ []) table)
run-PhaseSteps_example =
    run-PhaseSteps two (requests_cancel two 8 ∷ aborts two 9 ∷ sweeps 12 ∷ []) table table-IsUnique
