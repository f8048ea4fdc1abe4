-- ===== src/Console/Store/Copy.antt =====
-- `copy` of solx-console/src/console.rs: the entries of one invocation go from one console to another
-- under new numbers, in one transaction.
use solx_core.Prelude.{
  ℕ, suc, ℤ, ◌&&◌, List, [], ◌∷◌, ◌++◌, Option, none, some, length, take, leb, Text, codes, text_eq,
  ok, err, ◌>>=◌, Bool,
}
use solx_core.Surface.Error.{Fallible}
use solx_core.Console.Table.{select}
use solx_core.Console.Store.{
  Console, Entry, Tables, logs_to, claim, insert_entry, evict_if_over_cap, clamp_limit, from_cursor,
  order_by_seq, cursor_after,
}

-- `WHERE action_ref = … AND invocation_id = … AND seq >= …`.
abbrev pub logs_invocation : Text → Text → ℕ → Entry → Bool
logs_invocation a id from e = logs_to a e && text_eq e.invocation_id id && leb from e.seq

abbrev pub labelled : Option Text → Text → Text
labelled none message = message
labelled (some label) message = codes "[" ++ label ++ codes "] " ++ message

abbrev pub copy_of : Text → Text → Option Text → ℕ → Entry → Entry
copy_of to id label seq e = record e {
  action_ref = to;
  seq = seq;
  invocation_id = id;
  message = labelled label e.message;
}

-- The loop over the sources.
unfoldable pub insert_copies :
    Text → Text → Option Text → ℕ → List Entry → List Entry → Fallible (List Entry)
insert_copies to id label seq [] es = ok es
insert_copies to id label seq (e ∷ sources) es = do
  es' ← insert_entry (copy_of to id label seq e) es
  insert_copies to id label (suc seq) sources es'

pub record CopyResult : Type 0 where
  pub copied : ℕ
  pub next_cursor : ℕ

-- An error rolls the transaction back.
abbrev pub after_commit :
    (Tables → Tables)
    → Tables
    → List Console
    → CopyResult
    → Fallible (List Entry)
    → Tables × Fallible CopyResult
after_commit evict t cs done (err e) = (t, err e)
after_commit evict t cs done (ok es) = (evict (record { consoles = cs; entries = es }), ok done)

abbrev pub copy_sources :
    (ℕ → ℕ)
    → ℕ
    → Text
    → Text
    → Option Text
    → ℕ
    → ℕ
    → List Entry
    → Tables
    → Tables × Fallible CopyResult
copy_sources fraction cap to id label from now [] t =
    (t, ok (record { copied = 0; next_cursor = from }))
copy_sources fraction cap to id label from now (e ∷ es) t =
    let (cs, start) = claim (length (e ∷ es)) to now t.consoles in
    after_commit (evict_if_over_cap fraction cap to) t cs
      (record { copied = length (e ∷ es); next_cursor = cursor_after from (e ∷ es) })
      (insert_copies to id label start (e ∷ es) t.entries)

-- The entries to copy.
abbrev pub sources_of : Text → Text → ℕ → ℤ → Tables → List Entry
sources_of source id from limit t =
    take (clamp_limit limit) (order_by_seq (select (logs_invocation source id from) t.entries))

unfoldable pub copy :
    (ℕ → ℕ)
    → ℕ
    → Text
    → Text
    → Text
    → Option ℤ
    → ℤ
    → Option Text
    → ℕ
    → Tables
    → Tables × Fallible CopyResult
copy fraction cap source to id cursor limit label now t =
    let from = from_cursor cursor in
    copy_sources fraction cap to id label from now (sources_of source id from limit t) t
