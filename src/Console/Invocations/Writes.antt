-- ===== src/Console/Invocations/Writes.antt =====
-- The writes to the table of invocations, one by one and in sequence, as the tasks and processes
-- that share the table make them.
use solx_core.Prelude.{ℕ, List, [], ◌∷◌, Option, Text, ok, err}
use solx_core.Surface.Error.{Fallible}
use solx_core.Console.Invocations.{
  Row, create, request_cancel, finish, mark_aborted, mark_orphans, sweep_expired,
}

-- One write, with its arguments and the time at which it is made.
pub data Write : Type 0 where
  creates : Text → Text → ℕ → ℕ → Write
  requests_cancel : Text → ℕ → Write
  finishes : Text → Text → Option Text → Option Text → ℕ → Write
  aborts : Text → ℕ → Write
  marks_orphans : (Text → ℕ) → Write
  sweeps : ℕ → Write

-- A write that fails leaves the table as it was.
abbrev pub after : List Row → Fallible (List Row) → List Row
after t (ok t') = t'
after t (err e) = t

unfoldable pub step : Write → List Row → List Row
step (creates id action_ref start now) t = after t (create id action_ref start now t)
step (requests_cancel id now) t = (request_cancel id now t).0
step (finishes id status result error now) t = finish id status result error now t
step (aborts id now) t = mark_aborted id now t
step (marks_orphans clock) t = (mark_orphans clock t).0
step (sweeps cutoff) t = (sweep_expired cutoff t).0

unfoldable pub run : List Write → List Row → List Row
run [] t = t
run (w ∷ ws) t = run ws (step w t)
