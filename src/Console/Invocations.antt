-- ===== src/Console/Invocations.antt =====
-- solx-console/src/invocations.rs: the states of detached invocations. The table is the list of its
-- rows, and each SQL statement of the source is the function that it denotes; a failing
-- connection is not modelled. Times are numbers, in the order of their RFC 3339 texts, and
-- `Utc::now()` is an argument. A result is kept as its JSON text, as in the table.
pub mod Writes
pub mod Outcome
pub mod Settled
pub mod Startup
pub mod Cancel
pub mod Lifecycle
mod Tests
use solx_core.Prelude.{
  ℕ, Bool, true, false, not, ◌&&◌, ◌||◌, List, [], ◌∷◌, ◌++◌, Option, none, some, if◌then◌else◌,
  any, is_empty, length, ltb, Text, codes, text_eq, ok, err,
}
use solx_core.Surface.Error.{Fallible, db}
use solx_core.Console.Table.{update, delete}

-- `mod status`.
abbrev pub running : Text
running = codes "running"

abbrev pub cancelling : Text
cancelling = codes "cancelling"

abbrev pub cancelled : Text
cancelled = codes "cancelled"

abbrev pub interrupted : Text
interrupted = codes "interrupted"

unfoldable pub is_terminal : Text → Bool
is_terminal s = not (text_eq s running || text_eq s cancelling)

-- A row of the table; the empty text stands for null.
pub record Row : Type 0 where
  pub invocation_id : Text
  pub action_ref : Text
  pub status : Text
  pub cancel_requested : Bool
  pub created_at : ℕ
  pub updated_at : ℕ
  pub finished_at : Option ℕ
  pub console_seq_start : ℕ
  pub result : Text
  pub error : Text

pub record Invocation : Type 0 where
  pub row : Row
  pub result : Option Text
  pub error : Option Text

-- `opt` of db.rs.
abbrev pub opt : Text → Option Text
opt s = if is_empty s then none else some s

unfoldable pub row_to_invocation : Row → Invocation
row_to_invocation r = record { row = r; result = opt r.result; error = opt r.error }

abbrev pub or_empty : Option Text → Text
or_empty none = []
or_empty (some s) = s

abbrev pub has_id : Text → Row → Bool
has_id id r = text_eq r.invocation_id id

-- `SELECT … WHERE invocation_id = ?1`.
unfoldable pub find : Text → List Row → Option Row
find id [] = none
find id (r ∷ t) = if has_id id r then some r else find id t

-- `SELECT invocation_id … WHERE …`.
unfoldable pub select_ids : (Row → Bool) → List Row → List Text
select_ids here [] = []
select_ids here (r ∷ t) =
    let rest = select_ids here t in if here r then r.invocation_id ∷ rest else rest

abbrev pub new_row : Text → Text → ℕ → ℕ → Row
new_row id action_ref start now = record {
  invocation_id = id;
  action_ref = action_ref;
  status = running;
  cancel_requested = false;
  created_at = now;
  updated_at = now;
  finished_at = none;
  console_seq_start = start;
  result = [];
  error = [];
}

-- The insertion fails on a second row with the same primary key.
unfoldable pub create : Text → Text → ℕ → ℕ → List Row → Fallible (List Row)
create id action_ref start now t =
    if any (has_id id) t then err db else ok (t ++ new_row id action_ref start now ∷ [])

unfoldable pub get : Text → List Row → Option Invocation
get id t = elim (find id t) [ none ↦ none | some r ↦ some (row_to_invocation r) ]

unfoldable pub is_cancelled : Text → List Row → Bool
is_cancelled id t = elim (find id t) [ none ↦ false | some r ↦ r.cancel_requested ]

abbrev pub cancel_row : ℕ → Row → Row
cancel_row now r = record r {
  cancel_requested = true;
  status = if text_eq r.status running then cancelling else r.status;
  updated_at = now;
}

-- The table after the update, and the row that it returns.
unfoldable pub request_cancel : Text → ℕ → List Row → List Row × Option Invocation
request_cancel id now t = let after = update (has_id id) (cancel_row now) t in (after, get id after)

abbrev pub finish_row : Text → Option Text → Option Text → ℕ → Row → Row
finish_row status result error now r = record r {
  status = status;
  result = or_empty result;
  error = or_empty error;
  updated_at = now;
  finished_at = some now;
}

abbrev pub is_open : Text → Row → Bool
is_open id r = has_id id r && not (is_terminal r.status)

unfoldable pub finish : Text → Text → Option Text → Option Text → ℕ → List Row → List Row
finish id status result error now t = update (is_open id) (finish_row status result error now) t

unfoldable pub mark_aborted : Text → ℕ → List Row → List Row
mark_aborted id now t =
    finish id cancelled none (some (codes "stopped (grace period expired)")) now t

-- The loop of `mark_orphans`; `clock id` is the time at which the row `id` is finished.
unfoldable pub interrupt_all : (Text → ℕ) → List Text → List Row → List Row
interrupt_all clock [] t = t
interrupt_all clock (id ∷ ids) t = interrupt_all clock ids (
    finish id interrupted none (some (codes "interrupted (process restarted while running)"))
      (clock id) t)

abbrev pub orphans : List Row → List Text
orphans t = select_ids (λ r. not (is_terminal r.status)) t

unfoldable pub mark_orphans : (Text → ℕ) → List Row → List Row × ℕ
mark_orphans clock t = (interrupt_all clock (orphans t) t, length (orphans t))

-- The loop of `sweep_expired`.
unfoldable pub delete_all : List Text → List Row → List Row
delete_all [] t = t
delete_all (id ∷ ids) t = delete_all ids (delete (has_id id) t)

abbrev pub is_expired : ℕ → Row → Bool
is_expired cutoff r = is_terminal r.status && ltb r.updated_at cutoff

unfoldable pub sweep_expired : ℕ → List Row → List Row × ℕ
sweep_expired cutoff t =
    let expired = select_ids (is_expired cutoff) t in (delete_all expired t, length expired)
