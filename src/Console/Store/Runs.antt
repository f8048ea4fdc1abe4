-- ===== src/Console/Store/Runs.antt =====
-- The writes to the console store in sequence, and the cap on what a console retains.
use solx_core.Prelude.{
  ℕ, ◌+◌, ◌-◌, ◌≤◌, min, ℤ, List, [], ◌∷◌, Option, leb, Text, ◌≡◌, refl, subst, inl, inr, sym,
  arith, Bool-cases,
}
use solx_core.Console.Store.{Tables, Line, meta, batch_size, evict_to, evict_if_over_cap, print}
use solx_core.Console.Store.Copy.{copy}
use solx_core.Console.Store.Clear.{clear, sweep_expired}
use solx_core.Console.Store.Rows.{update_own}
use solx_core.Console.Store.Tidy.{IsTidy}
use solx_core.Console.Store.Keeps.{clear-IsTidy, sweep_expired-IsTidy}
use solx_core.Console.Store.Appends.{print-IsTidy, copy_lem, print_lem, printed}

-- One write, with its arguments and the time at which it is made; the cap is the one configured then.
pub data Write : Type 0 where
  prints : ℕ → Text → Line → ℕ → Write
  copies : ℕ → Text → Text → Text → Option ℤ → ℤ → Option Text → ℕ → Write
  clears : Text → Option ℤ → Write
  sweeps : ℕ → Write

evict_to-meta :
    (a : Text) (n count : ℕ) (t : Tables)
    → 1 ≤ (meta a t.consoles).next_seq
    → ((meta a (evict_to a n count t).consoles).first_seq ≡ n)
      × ((meta a (evict_to a n count t).consoles).next_seq ≡ (meta a t.consoles).next_seq)
evict_to-meta a n count t exists =
    update_own (record { same_ref = λ c. refl; same_next = λ c. refl; first_is = λ c. refl }) a
      t.consoles exists

module _ (fraction : ℕ → ℕ) where
  unfoldable pub step : Write → Tables → Tables
  step (prints cap a l now) t = (print fraction cap a l now t).0
  step (copies cap source to id cursor limit label now) t =
      (copy fraction cap source to id cursor limit label now t).0
  step (clears a before) t = (clear a before t).0
  step (sweeps cutoff) t = (sweep_expired cutoff t).0

  unfoldable pub run : List Write → Tables → Tables
  run [] t = t
  run (w ∷ ws) t = run ws (step w t)

  step-IsTidy : (w : Write) (t : Tables) → IsTidy t → IsTidy (step w t)
  unfolding step
  step-IsTidy (prints cap a l now) t h = print-IsTidy fraction cap a l now t h
  step-IsTidy (copies cap source to id cursor limit label now) t h =
      let (t', eq, tidy) = copy_lem fraction cap source to id cursor limit label now t h in
      subst (λ r. IsTidy r.0) (sym eq) tidy
  step-IsTidy (clears a before) t h = clear-IsTidy a before t h
  step-IsTidy (sweeps cutoff) t h = sweep_expired-IsTidy cutoff t h

  -- Every sequence of prints, copies, clears and sweeps keeps tidy tables tidy: the entries of each
  -- console are numbered in order and without a gap from its first number up to its next one.
  pub run-IsTidy : (ws : List Write) (t : Tables) → IsTidy t → IsTidy (run ws t)
  unfolding run
  run-IsTidy [] t h = h
  run-IsTidy (w ∷ ws) t h = run-IsTidy ws (step w t) (step-IsTidy w t h)

  evict_if_over_cap-retained :
      (cap : ℕ) (a : Text) (t : Tables)
      → (meta a (evict_if_over_cap fraction cap a t).consoles).next_seq
        ≤ (meta a (evict_if_over_cap fraction cap a t).consoles).first_seq + cap
  unfolding evict_if_over_cap
  evict_if_over_cap-retained cap a t =
      let m = meta a t.consoles in
      elim (Bool-cases (leb (m.next_seq - m.first_seq) cap)) [
        | inl e ↦ rw e (ground arith)
        | inr e ↦
            let batch = batch_size fraction cap (m.next_seq - m.first_seq - cap) in
            let new_first = min (m.first_seq + batch) m.next_seq in
            let (first, next) =
              evict_to-meta a new_first (new_first - m.first_seq) t (ground arith) in
            rw (e, first, next) (ground arith)
      ]

  -- After a print on tidy tables the console holds at most as many numbers as the cap allows.
  pub print-retained :
      (cap : ℕ) (a : Text) (l : Line) (now : ℕ) (t : Tables)
      → IsTidy t
      → (meta a (print fraction cap a l now t).0.consoles).next_seq
        ≤ (meta a (print fraction cap a l now t).0.consoles).first_seq + cap
  print-retained cap a l now t h =
      rw (print_lem fraction cap a l now t h) (evict_if_over_cap-retained cap a (printed a l now t))
