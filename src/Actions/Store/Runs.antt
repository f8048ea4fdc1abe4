-- ===== src/Actions/Store/Runs.antt =====
-- The writes to the table of actions in sequence, as the callers of the manager make them.
use solx_core.Prelude.{ℕ, List, [], ◌∷◌, Text, ok, err, ◌≡◌, refl}
use solx_core.Surface.Error.{Fallible}
use solx_core.Actions.Rows.{Row, ActionEntity, ActionInput}
use solx_core.Actions.Store.{save, delete_action}
use solx_core.Actions.Store.Keyed.{IsKeyed, save-Saved, save-IsKeyed, delete_action-IsKeyed}

-- One write, with its arguments, the fresh id and the time at which it is made.
pub data Write (N : Type 0) : Type 0 where
  saves : Text → Text → ActionInput N → Text → ℕ → Write N
  deletes : Text → Text → Write N

module _ {N : Type 0} where
  -- A write that fails leaves the table as it was.
  abbrev pub behind_save : List (Row N) → Fallible (ActionEntity N × List (Row N)) → List (Row N)
  behind_save t (ok (a, t')) = t'
  behind_save t (err e) = t

  abbrev pub behind_delete : List (Row N) → Fallible (List (Row N)) → List (Row N)
  behind_delete t (ok t') = t'
  behind_delete t (err e) = t

  unfoldable pub step : Write N → List (Row N) → List (Row N)
  step (saves path name input fresh now) t = behind_save t (save path name input fresh now t)
  step (deletes path name) t = behind_delete t (delete_action path name t)

  unfoldable pub run : List (Write N) → List (Row N) → List (Row N)
  run [] t = t
  run (w ∷ ws) t = run ws (step w t)

  -- A property of the table that both outcomes have.
  pub behind_save-elim :
      (P : List (Row N) → Type 0) (t : List (Row N)) (o : Fallible (ActionEntity N × List (Row N)))
      → P t
      → ((a : ActionEntity N) (t' : List (Row N)) → o ≡ ok (a, t') → P t')
      → P (behind_save t o)
  behind_save-elim P t (ok (a, t')) h k = k a t' refl
  behind_save-elim P t (err e) h k = h

  pub behind_delete-elim :
      (P : List (Row N) → Type 0) (t : List (Row N)) (o : Fallible (List (Row N)))
      → P t
      → ((t' : List (Row N)) → o ≡ ok t' → P t')
      → P (behind_delete t o)
  behind_delete-elim P t (ok t') h k = k t' refl
  behind_delete-elim P t (err e) h k = h

  step-IsKeyed : (w : Write N) (t : List (Row N)) → IsKeyed t → IsKeyed (step w t)
  unfolding step
  step-IsKeyed (saves path name input fresh now) t k =
      behind_save-elim IsKeyed t (save path name input fresh now t) k (λ a t' e.
        save-IsKeyed path name input fresh now t t' k
          (save-Saved path name input fresh now t a t' e))
  step-IsKeyed (deletes path name) t k =
      behind_delete-elim IsKeyed t (delete_action path name t) k
        (λ t' e. delete_action-IsKeyed path name t t' k e)

  -- Where no two actions have the same path and name and none the same id, this is so after every
  -- sequence of saves and deletions, whatever the ids that are minted.
  pub run-IsKeyed : (ws : List (Write N)) (t : List (Row N)) → IsKeyed t → IsKeyed (run ws t)
  unfolding run
  run-IsKeyed [] t k = k
  run-IsKeyed (w ∷ ws) t k = run-IsKeyed ws (step w t) (step-IsKeyed w t k)
