-- ===== src/Actions/Detached/Poll.antt =====
-- `poll_invocation`: the loop that waits for the end of an invocation. What the table shows in each
-- round, and the time at which it is read, come from outside; times are milliseconds.
use solx_core.Prelude.{
  ℕ, zero, suc, ◌+◌, ◌-◌, ◌*◌, ◌≤◌, ◌<◌, min, true, Option, none, some, if◌then◌else◌, leb, leb→le,
  ok, err, ◌≡◌, refl, inl, inr, Bool-cases, Option-cases, arith,
}
use solx_core.Surface.Error.{not_found, Fallible}
use solx_core.Console.Invocations.{Invocation, is_terminal}

abbrev pub max_tail_wait_secs : ℕ
max_tail_wait_secs = 60

abbrev pub tail_poll_interval : ℕ
tail_poll_interval = 250

-- The time at which the loop gives up, if it waits at all.
abbrev pub deadline_of : ℕ → Option ℕ → Option ℕ
deadline_of now none = none
deadline_of now (some secs) = some (now + min secs max_tail_wait_secs * 1000)

-- What follows a read: the loop ends, or goes on.
abbrev pub poll_open :
    Option ℕ → ℕ → Invocation → Option (Fallible Invocation) → Option (Fallible Invocation)
poll_open none now inv rest = some (ok inv)
poll_open (some d) now inv rest = if leb d now then some (ok inv) else rest

abbrev pub poll_read :
    Option ℕ → ℕ → Option Invocation → Option (Fallible Invocation) → Option (Fallible Invocation)
poll_read deadline now none rest = some (err not_found)
poll_read deadline now (some inv) rest =
    if is_terminal inv.row.status then some (ok inv) else poll_open deadline now inv rest

module _ (observed : ℕ → Option Invocation) (clock : ℕ → ℕ) where
  -- The round `i` and those behind it, on fuel.
  unfoldable pub poll_loop : ℕ → Option ℕ → ℕ → Option (Fallible Invocation)
  poll_loop zero deadline i = none
  poll_loop (suc fuel) deadline i =
      poll_read deadline (clock i) (observed i) (poll_loop fuel deadline (suc i))

  unfoldable pub poll_invocation : ℕ → Option ℕ → Option (Fallible Invocation)
  poll_invocation fuel wait_secs = poll_loop fuel (deadline_of (clock 0) wait_secs) 0

  -- The sleep between two rounds lasts for the interval, or up to the deadline.
  abbrev pub Sleeps : ℕ → Type 0
  Sleeps d = (i : ℕ) → clock i < d → clock i + min tail_poll_interval (d - clock i) ≤ clock (suc i)

  -- The ways in which the loop ends: with what the table shows in the round.
  pub data Ends (deadline : Option ℕ) : Fallible Invocation → Type 0 where
    missing : (i : ℕ) → observed i ≡ none → Ends deadline (err not_found)
    settled :
        (i : ℕ) (inv : Invocation)
        → observed i ≡ some inv
        → is_terminal inv.row.status ≡ true
        → Ends deadline (ok inv)
    unwaited : (inv : Invocation) → deadline ≡ none → observed 0 ≡ some inv → Ends deadline (ok inv)
    late :
        (i d : ℕ) (inv : Invocation)
        → deadline ≡ some d
        → d ≤ clock i
        → observed i ≡ some inv
        → Ends deadline (ok inv)

  loop-Ends :
      (fuel d i : ℕ)
      → Sleeps d
      → d - clock i < fuel
      → (r : Fallible Invocation) × (poll_loop fuel (some d) i ≡ some r) × Ends (some d) r
  unfolding poll_loop
  loop-Ends zero d i s f = elim f [ ]
  loop-Ends (suc fuel) d i s f = elim (Option-cases (observed i)) [
    | inl e ↦ (err not_found, rw e refl, missing i e)
    | inr (inv, e) ↦ elim (Bool-cases (is_terminal inv.row.status)) [
      | inl t ↦ (ok inv, rw (e, t) refl, settled i inv e t)
      | inr t ↦ elim (Bool-cases (leb d (clock i))) [
        | inl l ↦ (ok inv, rw (e, t, l) refl, late i d inv refl (leb→le d (clock i) l) e)
        | inr l ↦
            let early : clock i < d = ground arith in
            let slept = s i early in
            let (r, p, ends) = loop-Ends fuel d (suc i) s (omega arith) in (r, rw (e, t, l) p, ends)
      ]
    ]
  ]

  abbrev pub SleepsTo : Option ℕ → Type 0
  SleepsTo none = Unit
  SleepsTo (some d) = Sleeps d

  within : (now secs : ℕ) → now + min secs max_tail_wait_secs * 1000 - now ≤ 60000
  within now secs = ground arith

  -- Where every sleep lasts for its time: the loop ends within 60,001 rounds, whatever the table shows
  -- and however long the caller would wait; it answers that the invocation is not there in a round
  -- in which it was not, or the row of a round in which it was terminal, in which the deadline had
  -- passed, or that was the first where the caller does not wait.
  pub poll_invocation-Ends :
      (fuel : ℕ) (wait_secs : Option ℕ)
      → 60000 < fuel
      → SleepsTo (deadline_of (clock 0) wait_secs)
      → (r : Fallible Invocation) × (poll_invocation fuel wait_secs ≡ some r)
        × Ends (deadline_of (clock 0) wait_secs) r
  unfolding poll_invocation poll_loop
  poll_invocation-Ends zero wait_secs f s = elim f [ ]
  poll_invocation-Ends (suc fuel) (some secs) f s =
      loop-Ends (suc fuel) (clock 0 + min secs max_tail_wait_secs * 1000) 0 s
        (omega (arith, within (clock 0) secs))
  poll_invocation-Ends (suc fuel) none f s = elim (Option-cases (observed 0)) [
    | inl e ↦ (err not_found, rw e refl, missing 0 e)
    | inr (inv, e) ↦ elim (Bool-cases (is_terminal inv.row.status)) [
      | inl t ↦ (ok inv, rw (e, t) refl, settled 0 inv e t)
      | inr t ↦ (ok inv, rw (e, t) refl, unwaited inv refl e)
    ]
  ]
