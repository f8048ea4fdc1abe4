-- ===== src/Actions/Internal/Entity/Untouched.antt =====
-- The built-in actions on actions leave every command and webhook as it is.
use solx_core.Prelude.{
  ℕ, false, List, [], ◌∷◌, Option, none, some, any, Text, ok, err, ok-injective, ◌>>=◌, >>=-eq-ok,
  ◌≡◌, refl, subst, ◌∙◌, inl, inr, Bool-cases, arith,
}
use solx_core.Surface.Error.{not_found, Fallible}
use solx_core.Surface.Path.{trim, normalize_path, validate_name, full_ref}
use solx_core.Surface.Path.Refused.{OnlyInvalid, full_ref-OnlyInvalid}
use solx_core.Config.Policy.{ActionType}
use solx_core.Actions.Rows.{Row, ActionEntity, ActionInput, row_to_action}
use solx_core.Actions.Store.{
  is_at, find, get_row, get_unmasked, get, masked, or_else, from, merged_row, delete_action,
  or_not_found, decoded,
}
use solx_core.Actions.Store.Rows.{action_type_from_str-to_str}
use solx_core.Actions.Store.Keyed.{IsKeyed, Saved, save-Saved, save-IsKeyed, delete_action-IsKeyed}
use solx_core.Actions.Store.Runs.{behind_save, behind_delete, behind_save-elim, behind_delete-elim}
use solx_core.Actions.Internal.Entity.{
  refused, guard_executable_action, existing_type, as_exec, action_save, action_delete,
}
use solx_core.Actions.Internal.Entity.Executables.{
  executables, Harmless, executables-delete, write-executables,
}

guarded :
    (existing incoming : Option ActionType)
    → guard_executable_action existing incoming ≡ ok tt
    → (refused incoming ≡ false) × (refused existing ≡ false)
unfolding guard_executable_action
guarded existing incoming h = ground arith

as_exec-ok : {A : Type 0} (m : Fallible A) (a : A) → as_exec m ≡ ok a → m ≡ ok a
as_exec-ok (ok b) a h = h
as_exec-ok (err e) a h = cc

module _ {N : Type 0} where
  -- The type that the guard reads is that of the row at the key.
  abbrev TypeOf : Option (ActionEntity N) → Option ActionType → Type 0
  TypeOf none ty = Unit
  TypeOf (some a) ty = a.action_type ≡ ty

  read_type :
      (o : Option (ActionEntity N)) (ty : Option ActionType)
      → existing_type (or_not_found not_found o >>= λ a. ok (masked a)) ≡ ok ty
      → TypeOf o ty
  unfolding masked
  read_type none ty h = tt
  read_type (some a) ty h = ok-injective h

  -- A reference that is normalized and valid, but cannot be joined, is refused by the guard.
  type_at :
      (path name : Text) (o : Option (ActionEntity N)) (ty : Option ActionType)
      (referred : Fallible Text)
      → OnlyInvalid referred
      → existing_type ((referred >>= λ fr. or_not_found not_found o) >>= λ a. ok (masked a)) ≡ ok ty
      → TypeOf o ty
  type_at path name o ty (ok fr) i h = read_type o ty h
  type_at path name o ty (err e) i h = let no = rw i at h in cc

  stored_type :
      (raw name path : Text) (t : List (Row N)) (ty : Option ActionType)
      → normalize_path raw ≡ ok path
      → validate_name name ≡ ok tt
      → existing_type (get raw name t) ≡ ok ty
      → TypeOf (get_row path (trim name) t) ty
  unfolding get get_unmasked
  stored_type raw name path t ty p v h =
      type_at path name (get_row path (trim name) t) ty (full_ref path name)
        (full_ref-OnlyInvalid path name) (rw (p, v) at h)

  found-Harmless :
      (o : Option (Row N)) (ty : Option ActionType)
      → TypeOf (decoded o) ty
      → refused ty ≡ false
      → Harmless o
  unfolding row_to_action
  found-Harmless none ty h k = tt
  found-Harmless (some r) ty h k = rw h k

  merged_harmless :
      (incoming : Option ActionType) (o : Option (ActionEntity N)) (ty : Option ActionType)
      → TypeOf o ty
      → refused incoming ≡ false
      → refused ty ≡ false
      → refused (or_else incoming (from (λ a. a.action_type) o)) ≡ false
  merged_harmless (some i) o ty h k l = k
  merged_harmless none none ty h k l = refl
  merged_harmless none (some a) ty h k l = rw h l

  abbrev SaveKeeps : Text → Text → ActionInput N → Text → ℕ → List (Row N) → Type 0
  SaveKeeps raw name input fresh now t =
      (a : ActionEntity N) (t' : List (Row N))
      → action_save raw name input fresh now t ≡ ok (a, t')
      → IsKeyed t' × (executables t' ≡ executables t)

  Saved-SaveKeeps :
      (raw name : Text) (input : ActionInput N) (fresh : Text) (now : ℕ) (t t' : List (Row N))
      (ty : Option ActionType)
      → IsKeyed t
      → existing_type (get raw name t) ≡ ok ty
      → refused input.action_type ≡ false
      → refused ty ≡ false
      → Saved raw name input fresh now t t'
      → executables t' ≡ executables t
  unfolding merged_row get_row
  Saved-SaveKeeps raw name input fresh now t t' ty k g i r s =
      let at : TypeOf (get_row s.path (trim name) t) ty =
        stored_type raw name s.path t ty s.normalized s.valid g in
      let harmless : Harmless (find s.path (trim name) t) =
        found-Harmless (find s.path (trim name) t) ty at r in
      let ok_type = merged_harmless input.action_type (get_row s.path (trim name) t) ty at i r in
      write-executables (get_row s.path (trim name) t) s.new t t' k (rw s.is_new harmless)
        (rw s.is_new (rw action_type_from_str-to_str ok_type)) s.written

  action_save-SaveKeeps :
      (raw name : Text) (input : ActionInput N) (fresh : Text) (now : ℕ) (t : List (Row N))
      → IsKeyed t
      → SaveKeeps raw name input fresh now t
  unfolding action_save
  action_save-SaveKeeps raw name input fresh now t k a t' h =
      let (ty, g, h₁) = >>=-eq-ok (existing_type (get raw name t)) _ h in
      let (_, guard, h₂) = >>=-eq-ok (guard_executable_action ty input.action_type) _ h₁ in
      let (i, r) = guarded ty input.action_type guard in
      let s = save-Saved raw name input fresh now t a t' (as_exec-ok _ (a, t') h₂) in
      (
        save-IsKeyed raw name input fresh now t t' k s,
        Saved-SaveKeeps raw name input fresh now t t' ty k g i r s,
      )

  action_delete_keeps :
      (raw name : Text) (t t' : List (Row N))
      → IsKeyed t
      → action_delete raw name t ≡ ok t'
      → IsKeyed t' × (executables t' ≡ executables t)
  unfolding action_delete delete_action get_row
  action_delete_keeps raw name t t' k h =
      let (ty, g, h₁) = >>=-eq-ok (existing_type (get raw name t)) _ h in
      let (_, guard, h₂) = >>=-eq-ok (guard_executable_action ty none) _ h₁ in
      let (_, r) = guarded ty none guard in
      let done = as_exec-ok (delete_action raw name t) t' h₂ in
      let (path, normalized, h₃) = >>=-eq-ok (normalize_path raw) _ done in
      let (_, valid, h₄) = >>=-eq-ok (validate_name name) _ h₃ in
      let (_, _, h₅) = >>=-eq-ok (full_ref path name) _ h₄ in
      let at : TypeOf (get_row path (trim name) t) ty =
        stored_type raw name path t ty normalized valid g in
      let same =
        executables-delete path (trim name) t k
          (found-Harmless (find path (trim name) t) ty at r) in
      (
        delete_action-IsKeyed raw name t t' k done,
        elim (Bool-cases (any (is_at path (trim name)) t)) [
          | inl e ↦ subst (λ u. executables u ≡ executables t) (ok-injective (rw e at h₅)) same
          | inr e ↦ cc (rw e at h₅)
        ],
      )

-- One call of a built-in action on actions, with the fresh id and the time of a save.
pub data Call (N : Type 0) : Type 0 where
  saves : Text → Text → ActionInput N → Text → ℕ → Call N
  deletes : Text → Text → Call N

module _ {N : Type 0} where
  unfoldable pub step : Call N → List (Row N) → List (Row N)
  step (saves path name input fresh now) t = behind_save t (action_save path name input fresh now t)
  step (deletes path name) t = behind_delete t (action_delete path name t)

  unfoldable pub run : List (Call N) → List (Row N) → List (Row N)
  run [] t = t
  run (c ∷ cs) t = run cs (step c t)

  abbrev Kept : List (Row N) → List (Row N) → Type 0
  Kept t t' = IsKeyed t' × (executables t' ≡ executables t)

  step_keeps : (c : Call N) (t : List (Row N)) → IsKeyed t → Kept t (step c t)
  unfolding step
  step_keeps (saves path name input fresh now) t k =
      behind_save-elim (Kept t) t (action_save path name input fresh now t) (k, refl)
        (action_save-SaveKeeps path name input fresh now t k)
  step_keeps (deletes path name) t k =
      behind_delete-elim (Kept t) t (action_delete path name t) (k, refl)
        (λ t' e. action_delete_keeps path name t t' k e)

  -- Where no two actions have the same path and name and none the same id: no sequence of calls of
  -- the built-in actions that save and delete actions, whatever their arguments, adds, removes or
  -- changes a command or a webhook.
  pub run-executables :
      (cs : List (Call N)) (t : List (Row N)) → IsKeyed t → executables (run cs t) ≡ executables t
  unfolding run
  run-executables [] t k = refl
  run-executables (c ∷ cs) t k =
      let (k', e) = step_keeps c t k in run-executables cs (step c t) k' ∙ e
