-- ===== src/Console/Store.antt =====
-- solx-console/src/console.rs: the log of each action, numbered by `seq`. The two tables are lists of
-- rows in the order of insertion; a failing connection is not modelled. Sequence numbers are not
-- negative, and their overflow at 2 ^ 63 is not modelled; a cursor or a limit that a caller passes
-- may be negative. Times are numbers in the order of their RFC 3339 texts, and `Utc::now()` is an
-- argument. The data of an entry is kept as its JSON text, as in the table.
pub mod Copy
pub mod Clear
pub mod Numbering
pub mod Rows
pub mod Tidy
pub mod Keeps
pub mod Appends
pub mod Reads
pub mod Runs
mod Tests
use solx_core.Prelude.{
  ℕ, suc, ◌+◌, ◌-◌, min, max, ℤ, pos, negsuc, at_least_zero, Bool, true, false, ◌&&◌, List, [], ◌∷◌,
  ◌++◌, Option, none, some, if◌then◌else◌, any, is_empty, length, take, ltb, leb, ◌==◌, Text, codes,
  text_eq, Result, ok, err, ◌>>=◌,
}
use solx_core.Surface.Error.{SolxError, Fallible, db}
use solx_core.Console.Table.{update, delete, select}

-- A row of `consoles`.
pub record Console : Type 0 where
  pub action_ref : Text
  pub created_at : ℕ
  pub last_write : ℕ
  pub next_seq : ℕ
  pub first_seq : ℕ
  pub dropped : ℕ

-- A row of `console_entries`; the empty text stands for null.
pub record Entry : Type 0 where
  pub action_ref : Text
  pub seq : ℕ
  pub ts : ℕ
  pub level : Text
  pub invocation_id : Text
  pub run_id : Text
  pub source : Text
  pub message : Text
  pub «data» : Text

pub record Tables : Type 0 where
  pub consoles : List Console
  pub entries : List Entry

abbrev pub has_ref : Text → Console → Bool
has_ref a c = text_eq c.action_ref a

abbrev pub logs_to : Text → Entry → Bool
logs_to a e = text_eq e.action_ref a

-- `WHERE action_ref = … AND seq < …`.
abbrev pub logs_before : Text → ℕ → Entry → Bool
logs_before a n e = logs_to a e && ltb e.seq n

-- What `meta` returns.
pub record Meta : Type 0 where
  pub first_seq : ℕ
  pub next_seq : ℕ
  pub dropped : ℕ

unfoldable pub meta : Text → List Console → Meta
meta a [] = record { first_seq = 0; next_seq = 0; dropped = 0 }
meta a (c ∷ cs) =
    let rest = meta a cs in
    if has_ref a c
    then record { first_seq = c.first_seq; next_seq = c.next_seq; dropped = c.dropped }
    else rest

-- The upsert that claims `count` numbers. `RETURNING` is the number that it subtracts from.
unfoldable pub claim : ℕ → Text → ℕ → List Console → List Console × ℕ
claim count a now [] = (
  record {
    action_ref = a;
    created_at = now;
    last_write = now;
    next_seq = 1 + count;
    first_seq = 1;
    dropped = 0;
  }
      ∷ [],
  1 + count - count,
)
claim count a now (c ∷ cs) =
    let (after, start) = claim count a now cs in
    if has_ref a c
    then (
      record c { next_seq = c.next_seq + count; last_write = now } ∷ cs,
      c.next_seq + count - count,
    )
    else (c ∷ after, start)

-- The primary key of an entry.
abbrev pub same_key : Text → ℕ → Entry → Bool
same_key a n e = logs_to a e && e.seq == n

-- The insertion fails on a second row with the same primary key.
unfoldable pub insert_entry : Entry → List Entry → Fallible (List Entry)
insert_entry e es = if any (same_key e.action_ref e.seq) es then err db else ok (es ++ e ∷ [])

-- The size of the batch that is evicted: `fraction` is a tenth of the cap, rounded up after a
-- multiplication of floating-point numbers.
abbrev pub batch_size : (ℕ → ℕ) → ℕ → ℕ → ℕ
batch_size fraction cap overflow = max (max overflow (fraction cap)) 1

abbrev pub evict_to : Text → ℕ → ℕ → Tables → Tables
evict_to a new_first count t = record {
  consoles =
      update (has_ref a) (λ c. record c { first_seq = new_first; dropped = c.dropped + count })
        t.consoles;
  entries = delete (logs_before a new_first) t.entries;
}

abbrev pub evict_meta : (ℕ → ℕ) → ℕ → Text → Meta → Tables → Tables
evict_meta fraction cap a m t =
    let retained = m.next_seq - m.first_seq in
    let batch = batch_size fraction cap (retained - cap) in
    let new_first = min (m.first_seq + batch) m.next_seq in
    if leb retained cap then t else evict_to a new_first (new_first - m.first_seq) t

unfoldable pub evict_if_over_cap : (ℕ → ℕ) → ℕ → Text → Tables → Tables
evict_if_over_cap fraction cap a t = evict_meta fraction cap a (meta a t.consoles) t

-- What a caller of `print` passes.
pub record Line : Type 0 where
  pub invocation_id : Text
  pub run_id : Option Text
  pub level : Text
  pub source : Text
  pub message : Option Text
  pub «data» : Option Text

abbrev pub or_blank : Option Text → Text
or_blank none = []
or_blank (some s) = s

abbrev pub entry_of : Text → ℕ → ℕ → Line → Entry
entry_of a seq now l = record {
  action_ref = a;
  seq = seq;
  ts = now;
  level = l.level;
  invocation_id = l.invocation_id;
  run_id = or_blank l.run_id;
  source = l.source;
  message = or_blank l.message;
  «data» = or_blank l.«data»;
}

-- No transaction: the claim stays where the insertion fails.
abbrev pub after_insert :
    (Tables → Tables) → List Console → List Entry → ℕ → Fallible (List Entry) → Tables × Fallible ℕ
after_insert evict cs es seq (err e) = (record { consoles = cs; entries = es }, err e)
after_insert evict cs es seq (ok es') = (evict (record { consoles = cs; entries = es' }), ok seq)

unfoldable pub print : (ℕ → ℕ) → ℕ → Text → Line → ℕ → Tables → Tables × Fallible ℕ
print fraction cap a l now t =
    let (cs, seq) = claim 1 a now t.consoles in
    after_insert (evict_if_over_cap fraction cap a) cs t.entries seq
      (insert_entry (entry_of a seq now l) t.entries)

-- `limit.clamp(1, 1000)`.
abbrev pub clamp_limit : ℤ → ℕ
clamp_limit limit = min (max (at_least_zero limit) 1) 1000

-- `from_seq.unwrap_or(0).max(0)`.
abbrev pub from_cursor : Option ℤ → ℕ
from_cursor none = 0
from_cursor (some n) = at_least_zero n

unfoldable pub insert_by_seq : Entry → List Entry → List Entry
insert_by_seq e [] = e ∷ []
insert_by_seq e (d ∷ ds) =
    let rest = insert_by_seq e ds in if leb e.seq d.seq then e ∷ d ∷ ds else d ∷ rest

-- `ORDER BY seq ASC`.
unfoldable pub order_by_seq : List Entry → List Entry
order_by_seq [] = []
order_by_seq (e ∷ es) = insert_by_seq e (order_by_seq es)

-- `entries.last().map(|e| e.seq + 1).unwrap_or(from)`.
unfoldable pub cursor_after : ℕ → List Entry → ℕ
cursor_after from [] = from
cursor_after from (e ∷ es) = cursor_after (suc e.seq) es

pub record ReadResult : Type 0 where
  pub entries : List Entry
  pub next_cursor : ℕ
  pub first_seq : ℕ
  pub dropped : ℕ

abbrev pub read_page : Meta → ℕ → List Entry → ReadResult
read_page m from es = record {
  entries = es;
  next_cursor = cursor_after from es;
  first_seq = m.first_seq;
  dropped = m.dropped;
}

abbrev pub logs_from : Text → ℕ → Entry → Bool
logs_from a from e = logs_to a e && leb from e.seq

unfoldable pub read : Text → Option ℤ → ℤ → Tables → ReadResult
read a from_seq limit t =
    let from = from_cursor from_seq in
    read_page (meta a t.consoles) from
      (take (clamp_limit limit) (order_by_seq (select (logs_from a from) t.entries)))
