-- ===== src/Console/Store/Clear.antt =====
-- `clear`, `sweep_expired` and `current_next_seq` of solx-console/src/console.rs.
use solx_core.Prelude.{
  ℕ, ℤ, pos, negsuc, min, Bool, List, [], ◌∷◌, Option, none, some, if◌then◌else◌, length, leb, ltb,
  ◌==◌, Text,
}
use solx_core.Console.Table.{update, delete, select}
use solx_core.Console.Store.{Console, Tables, has_ref, logs_to, logs_before, meta}

-- `before_seq.unwrap_or(next_seq).min(next_seq)`. A negative cutoff is 0 here: both are at most
-- `first_seq`, where nothing is done.
abbrev pub cutoff_of : Option ℤ → ℕ → ℕ
cutoff_of none next_seq = next_seq
cutoff_of (some (pos n)) next_seq = min n next_seq
cutoff_of (some (negsuc n)) next_seq = 0

abbrev pub clear_to : Text → ℕ → Tables → Tables
clear_to a cutoff t = record {
  consoles = update (has_ref a) (λ c. record c { first_seq = cutoff }) t.consoles;
  entries = delete (logs_before a cutoff) t.entries;
}

abbrev pub clear_before : Text → ℕ → ℕ → Tables → Tables × ℕ
clear_before a cutoff first_seq t =
    if leb cutoff first_seq
    then (t, 0)
    else (clear_to a cutoff t, length (select (logs_before a cutoff) t.entries))

-- The tables and the number of entries removed.
unfoldable pub clear : Text → Option ℤ → Tables → Tables × ℕ
clear a before_seq t =
    let m = meta a t.consoles in clear_before a (cutoff_of before_seq m.next_seq) m.first_seq t

abbrev pub drop_console : Text → Tables → Tables
drop_console a t = record {
  consoles = delete (has_ref a) t.consoles;
  entries = delete (logs_to a) t.entries;
}

-- The loop of `sweep_expired`.
unfoldable pub drop_consoles : List Console → Tables → Tables
drop_consoles [] t = t
drop_consoles (c ∷ cs) t = drop_consoles cs (drop_console c.action_ref t)

abbrev pub is_idle : ℕ → Console → Bool
is_idle cutoff c = ltb c.last_write cutoff

unfoldable pub sweep_expired : ℕ → Tables → Tables × ℕ
sweep_expired cutoff t =
    let expired = select (is_idle cutoff) t.consoles in (drop_consoles expired t, length expired)

unfoldable pub current_next_seq : Text → Tables → ℕ
current_next_seq a t =
    let next_seq = (meta a t.consoles).next_seq in if next_seq == 0 then 1 else next_seq
