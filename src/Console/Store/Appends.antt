-- ===== src/Console/Store/Appends.antt =====
-- Printing and copying: the claimed numbers are free, so that no insertion fails, and the invariant of
-- the tables is kept.
use solx_core.Prelude.{
  range, ℕ, suc, ◌<◌, ℤ, List, [], ◌∷◌, ◌++◌, Option, All, All-append, length, Text, text_eq_refl,
  ◌≡◌, refl, sym, ap, subst, ◌∙◌, arith, ok, append_assoc, append-nil,
}
use solx_core.Console.Store.{
  Entry, Tables, Line, meta, claim, insert_entry, evict_if_over_cap, entry_of, print, cursor_after,
  from_cursor,
}
use solx_core.Console.Store.Copy.{copy_of, insert_copies, copy_sources, copy, sources_of}
use solx_core.Console.Store.Clear.{current_next_seq}
use solx_core.Console.Store.Numbering.{seqs, seqs-append, any-same_key, fresh_above}
use solx_core.Console.Store.Rows.{start_of, claim_own}
use solx_core.Console.Store.Tidy.{IsTidy, numbers-below, Adds, claim-IsTidy}
use solx_core.Console.Store.Keeps.{evict_if_over_cap-IsTidy}

insert_entry_fresh :
    (e : Entry) (es : List Entry)
    → All (λ i. i < e.seq) (seqs e.action_ref es)
    → insert_entry e es ≡ ok (es ++ e ∷ [])
unfolding insert_entry
insert_entry_fresh e es h =
    rw (any-same_key e.action_ref e.seq es ∙ fresh_above e.seq (seqs e.action_ref es) h) refl

Adds-one : (e : Entry) (es : List Entry) → Adds e.action_ref e.seq 1 es (es ++ e ∷ [])
Adds-one e es = record {
  own =
      seqs-append e.action_ref es (e ∷ [])
      ∙ ap (λ t. seqs e.action_ref es ++ t) (rw (text_eq_refl e.action_ref) refl);
  others = λ b ne.
      seqs-append b es (e ∷ []) ∙ ap (λ t. seqs b es ++ t) (rw ne refl) ∙ append-nil (seqs b es);
}

Adds-then :
    (a : Text) (q n : ℕ) (es fs gs : List Entry)
    → Adds a q 1 es fs
    → Adds a (suc q) n fs gs
    → Adds a q (suc n) es gs
Adds-then a q n es fs gs h k = record {
  own =
      k.own
      ∙ ap (λ t. t ++ range (suc q) n) h.own
      ∙ append_assoc (seqs a es) (q ∷ []) (range (suc q) n);
  others = λ b ne. k.others b ne ∙ h.others b ne;
}

below_suc : (q : ℕ) (ss : List ℕ) → All (λ i. i < q) ss → All (λ i. i < suc q) ss
below_suc q [] h = tt
below_suc q (i ∷ ss) (l, h) = (omega (arith, l), below_suc q ss h)

-- The insertions that follow a claim succeed.
pub insert_copies-Adds :
    (a id : Text) (label : Option Text) (q : ℕ) (sources es : List Entry)
    → All (λ i. i < q) (seqs a es)
    → (es' : List Entry) × (insert_copies a id label q sources es ≡ ok es')
      × Adds a q (length sources) es es'
unfolding insert_copies
insert_copies-Adds a id label q [] es h =
    (es, refl, record { own = sym (append-nil (seqs a es)); others = λ b ne. refl })
insert_copies-Adds a id label q (e ∷ sources) es h =
    let copied = copy_of a id label q e in
    let one = Adds-one copied es in
    let below = subst (All (λ i. i < suc q)) (sym one.own) (
      All-append (λ i. i < suc q) (seqs a es) (q ∷ []) (below_suc q (seqs a es) h)
        (omega arith, tt)) in
    let (es', eq, adds) = insert_copies-Adds a id label (suc q) sources (es ++ copied ∷ []) below in
    (
      es',
      rw (insert_entry_fresh copied es h) eq,
      Adds-then a q (length sources) es (es ++ copied ∷ []) es' one adds,
    )

current_next_seq-start :
    (a : Text) (t : Tables) → current_next_seq a t ≡ start_of (meta a t.consoles)
unfolding current_next_seq
current_next_seq-start a t = refl

-- The tables behind the claim and the insertion of a print.
abbrev pub printed : Text → Line → ℕ → Tables → Tables
printed a l now t = record {
  consoles = (claim 1 a now t.consoles).0;
  entries = t.entries ++ entry_of a (current_next_seq a t) now l ∷ [];
}

-- On tidy tables a print returns the number that `current_next_seq` announced; the entry with this
-- number is appended, and then the console is cut to the cap.
pub print_lem :
    (fraction : ℕ → ℕ) (cap : ℕ) (a : Text) (l : Line) (now : ℕ) (t : Tables)
    → IsTidy t
    → print fraction cap a l now t
      ≡ (evict_if_over_cap fraction cap a (printed a l now t), ok (current_next_seq a t))
unfolding print
print_lem fraction cap a l now t h =
    let below = numbers-below (meta a t.consoles) (seqs a t.entries) (h.numbered a) in
    rw
      (
        (claim_own 1 a now t.consoles h.started).1,
        sym (current_next_seq-start a t),
        insert_entry_fresh (entry_of a (current_next_seq a t) now l) t.entries
            (rw (current_next_seq-start a t) below),
      )
      refl

printed-IsTidy :
    (a : Text) (l : Line) (now : ℕ) (t : Tables) → IsTidy t → IsTidy (printed a l now t)
printed-IsTidy a l now t h = claim-IsTidy 1 a now t _ h (
    rw (sym (current_next_seq-start a t))
      (Adds-one (entry_of a (current_next_seq a t) now l) t.entries))

pub print-IsTidy :
    (fraction : ℕ → ℕ) (cap : ℕ) (a : Text) (l : Line) (now : ℕ) (t : Tables)
    → IsTidy t
    → IsTidy (print fraction cap a l now t).0
print-IsTidy fraction cap a l now t h =
    rw (print_lem fraction cap a l now t h)
      (evict_if_over_cap-IsTidy fraction cap a (printed a l now t) (printed-IsTidy a l now t h))

copy_sources_lem :
    (fraction : ℕ → ℕ) (cap : ℕ) (to id : Text) (label : Option Text) (from now : ℕ)
    (sources : List Entry) (t : Tables)
    → IsTidy t
    → (t' : Tables) × (copy_sources fraction cap to id label from now sources t
        ≡ (t', ok (record { copied = length sources; next_cursor = cursor_after from sources })))
      × IsTidy t'
unfolding cursor_after
copy_sources_lem fraction cap to id label from now [] t h = (t, refl, h)
copy_sources_lem fraction cap to id label from now (e ∷ sources) t h =
    let n = length (e ∷ sources) in
    let below = numbers-below (meta to t.consoles) (seqs to t.entries) (h.numbered to) in
    let (es', eq, adds) =
      insert_copies-Adds to id label (start_of (meta to t.consoles)) (e ∷ sources) t.entries
        below in
    let copied : Tables = record { consoles = (claim n to now t.consoles).0; entries = es' } in
    (
      evict_if_over_cap fraction cap to copied,
      rw ((claim_own n to now t.consoles h.started).1, eq) refl,
      evict_if_over_cap-IsTidy fraction cap to copied (claim-IsTidy n to now t es' h adds),
    )

-- On tidy tables a copy succeeds, reports how many entries it found and the cursor behind the last of
-- them, and leaves tidy tables.
pub copy_lem :
    (fraction : ℕ → ℕ) (cap : ℕ) (source to id : Text) (cursor : Option ℤ) (limit : ℤ)
    (label : Option Text) (now : ℕ) (t : Tables)
    → IsTidy t
    → (t' : Tables) × (copy fraction cap source to id cursor limit label now t ≡ (
      t',
      ok (record {
        copied = length (sources_of source id (from_cursor cursor) limit t);
        next_cursor =
            cursor_after (from_cursor cursor) (sources_of source id (from_cursor cursor) limit t);
      }),
    ))
      × IsTidy t'
unfolding copy
copy_lem fraction cap source to id cursor limit label now t h =
    copy_sources_lem fraction cap to id label (from_cursor cursor) now _ t h
