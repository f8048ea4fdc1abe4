-- ===== src/Console/Store/Tests.antt =====
-- Runs of the console store, and the theorems about it at concrete tables.
use solx_core.Prelude.{
  range, ℕ, ◌+◌, ◌≤◌, ◌≡◌, refl, pos, negsuc, none, some, List, [], ◌∷◌, Text, codes, text_eq, ok,
  arith, if◌then◌else◌, ◌==◌,
}
use solx_core.Console.Table.{update, delete, select}
use solx_core.Console.Store.{
  Tables, Line, meta, claim, insert_entry, evict_if_over_cap, print, insert_by_seq, order_by_seq,
  cursor_after, read, from_cursor,
}
use solx_core.Console.Store.Copy.{insert_copies, copy}
use solx_core.Console.Store.Clear.{clear, drop_consoles, sweep_expired, current_next_seq}
use solx_core.Console.Store.Tidy.{IsTidy}
use solx_core.Console.Store.Reads.{numbers, page_start, page_size, read_lem}
use solx_core.Console.Store.Runs.{Write, prints, clears, step, run, run-IsTidy, print-retained}

runs : Unit {0}
unfolding meta claim insert_entry evict_if_over_cap print insert_by_seq order_by_seq cursor_after
    read insert_copies copy clear drop_consoles sweep_expired current_next_seq update delete select
    step run text_eq
runs = tt

abbrev tenth : ℕ → ℕ
tenth cap = 1

abbrev blank : Tables
blank = record { consoles = []; entries = [] }

abbrev here : Text
here = codes "/a/b"

abbrev there : Text
there = codes "/a/c"

abbrev line : Line
line = record {
  invocation_id = codes "inv-1";
  run_id = none;
  level = codes "info";
  source = codes "guest";
  message = some (codes "m");
  «data» = none;
}

abbrev writes : List Write
writes = prints 2 here line 5 ∷ prints 2 here line 6 ∷ prints 2 here line 7 ∷ []

abbrev after : Tables
after = run tenth writes blank

-- A cap of two: the third print evicts the first entry.
evicts_oldest_past_the_cap :
    (numbers after.entries ≡ 2 ∷ 3 ∷ [])
    × (numbers (read here none (pos 10) after).entries ≡ 2 ∷ 3 ∷ [])
    × ((read here none (pos 10) after).next_cursor ≡ 4)
    × ((read here (some (negsuc 4)) (pos 0) after).next_cursor ≡ 3)
    × ((read here none (pos 10) after).dropped ≡ 1)
    × ((clear here (some (pos 3)) after).1 ≡ 1)
    × (numbers (clear here (some (pos 3)) after).0.entries ≡ 3 ∷ [])
    × ((clear here none after).1 ≡ 2)
    × (current_next_seq here after ≡ 4)
    × (current_next_seq there after ≡ 1)
    × ((sweep_expired 8 after).1 ≡ 1)
    × ((copy tenth 9 here there (codes "inv-1") none (pos 10) none 8 after).1
        ≡ ok (record { copied = 2; next_cursor = 4 }))
unfolding runs
evicts_oldest_past_the_cap =
    (refl, refl, refl, refl, refl, refl, refl, refl, refl, refl, refl, refl)

blank-IsTidy : IsTidy blank
unfolding meta
blank-IsTidy = record {
  started = tt;
  numbered = λ a. record { ordered = omega arith; numbers = refl };
}

run-IsTidy_example : IsTidy (run tenth (clears here (some (pos 1)) ∷ writes) blank)
run-IsTidy_example = run-IsTidy tenth (clears here (some (pos 1)) ∷ writes) blank blank-IsTidy

after-IsTidy : IsTidy after
after-IsTidy = run-IsTidy tenth writes blank blank-IsTidy

print-retained_example :
    (meta here (print tenth 2 here line 8 after).0.consoles).next_seq
    ≤ (meta here (print tenth 2 here line 8 after).0.consoles).first_seq + 2
print-retained_example = print-retained tenth 2 here line 8 after after-IsTidy

read_lem_example :
    (numbers (read here (some (pos 3)) (pos 10) after).entries
      ≡ range
          (page_start here (from_cursor (some (pos 3))) after)
          (page_size here (from_cursor (some (pos 3))) (pos 10) after))
    × ((read here (some (pos 3)) (pos 10) after).next_cursor ≡ (
        if page_size here (from_cursor (some (pos 3))) (pos 10) after == 0
        then from_cursor (some (pos 3))
        else page_start here (from_cursor (some (pos 3))) after
          + page_size here (from_cursor (some (pos 3))) (pos 10) after))
read_lem_example = read_lem here (some (pos 3)) (pos 10) after after-IsTidy
