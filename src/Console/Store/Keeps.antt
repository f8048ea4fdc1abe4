-- ===== src/Console/Store/Keeps.antt =====
-- Every operation of the console store keeps the invariant of its tables.
use solx_core.Prelude.{
  ℕ, ◌-◌, ◌≤◌, ℤ, pos, negsuc, List, [], ◌∷◌, Option, none, some, leb, Text, text_eq, text_eq_iff,
  refl, subst, inl, inr, arith, Bool-cases,
}
use solx_core.Console.Table.{delete}
use solx_core.Console.Store.{Console, Tables, has_ref, logs_to, meta, evict_if_over_cap}
use solx_core.Console.Store.Clear.{cutoff_of, clear, drop_console, drop_consoles, sweep_expired}
use solx_core.Console.Store.Numbering.{seqs, seqs-delete_other, seqs-delete-logs_to, logs_to_other}
use solx_core.Console.Store.Rows.{delete_own, delete_other, delete-IsStarted}
use solx_core.Console.Store.Tidy.{IsNumbered, IsTidy, move_first-IsTidy}

pub drop_console-IsTidy : (a : Text) (t : Tables) → IsTidy t → IsTidy (drop_console a t)
drop_console-IsTidy a t h = record {
  started = delete-IsStarted (has_ref a) t.consoles h.started;
  numbered = λ b. elim (Bool-cases (text_eq a b)) [
    | inl e ↦
        subst
          (λ x.
            IsNumbered (meta x (delete (has_ref a) t.consoles))
              (seqs x (delete (logs_to a) t.entries)))
          ((text_eq_iff a b).0 e)
          (rw (delete_own a t.consoles, seqs-delete-logs_to a t.entries)
            (record { ordered = omega arith; numbers = refl }))
    | inr e ↦
        rw
          (
            delete_other a b t.consoles e,
            seqs-delete_other a b (logs_to a) t.entries (λ x here. logs_to_other a b x e here),
          )
          (h.numbered b)
  ];
}

pub drop_consoles-IsTidy : (cs : List Console) (t : Tables) → IsTidy t → IsTidy (drop_consoles cs t)
unfolding drop_consoles
drop_consoles-IsTidy [] t h = h
drop_consoles-IsTidy (c ∷ cs) t h =
    drop_consoles-IsTidy cs (drop_console c.action_ref t) (drop_console-IsTidy c.action_ref t h)

pub sweep_expired-IsTidy : (cutoff : ℕ) (t : Tables) → IsTidy t → IsTidy (sweep_expired cutoff t).0
unfolding sweep_expired
sweep_expired-IsTidy cutoff t h = drop_consoles-IsTidy _ t h

pub clear-IsTidy :
    (a : Text) (before : Option ℤ) (t : Tables) → IsTidy t → IsTidy (clear a before t).0
unfolding clear
clear-IsTidy a before t h =
    elim (Bool-cases
      (leb (cutoff_of before (meta a t.consoles).next_seq) (meta a t.consoles).first_seq)) [
        | inl e ↦ rw e h
        | inr e ↦
            let above = cutoff-le before (meta a t.consoles).next_seq in
            rw e (
              move_first-IsTidy a _ _ t
                (record { same_ref = λ c. refl; same_next = λ c. refl; first_is = λ c. refl }) h
                (ground (arith, above)) (ground arith) above)
      ]
  where
    cutoff-le : (o : Option ℤ) (next : ℕ) → cutoff_of o next ≤ next
    cutoff-le none next = omega arith
    cutoff-le (some (pos n)) next = omega arith
    cutoff-le (some (negsuc n)) next = omega arith

pub evict_if_over_cap-IsTidy :
    (fraction : ℕ → ℕ) (cap : ℕ) (a : Text) (t : Tables)
    → IsTidy t
    → IsTidy (evict_if_over_cap fraction cap a t)
unfolding evict_if_over_cap
evict_if_over_cap-IsTidy fraction cap a t h =
    let m = meta a t.consoles in
    let ordered = (h.numbered a).ordered in
    elim (Bool-cases (leb (m.next_seq - m.first_seq) cap)) [
      | inl e ↦ rw e h
      | inr e ↦ rw e (
          move_first-IsTidy a _ _ t
            (record { same_ref = λ c. refl; same_next = λ c. refl; first_is = λ c. refl }) h
            (ground (arith, ordered)) (omega (arith, ordered)) (omega (arith, ordered)))
    ]
