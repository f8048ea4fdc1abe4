-- ===== src/Actions/Store/Keyed.antt =====
-- The two keys of the table: no two actions have the same path and name, and none the same id.
use solx_core.Prelude.{
  ℕ, Bool, false, ◌||◌, List, [], ◌∷◌, ◌++◌, Option, none, some, any, Text, text_eq_iff,
  text_eq_comm, ok, ok-injective, >>=-eq-ok, ◌≡◌, refl, ap, ap₂, subst, ◌∙◌, inl, inr, Bool-cases,
  arith,
}
use solx_core.Json.{Value}
use solx_core.Surface.Error.{other}
use solx_core.Surface.Path.{trim, normalize_path, validate_name, full_ref}
use solx_core.Console.Table.{update, delete}
use solx_core.Config.Policy.{validate_capabilities}
use solx_core.Actions.Rows.{Row, ActionEntity, ActionInput}
use solx_core.Actions.Store.{
  is_at, find, get_row, or_not_found, checked, merge_config, merged_row, set_row, collides,
  write_row, save, delete_action,
}

module _ {N : Type 0} where
  abbrev pub IsKeyed : List (Row N) → Type 0
  IsKeyed [] = Unit
  IsKeyed (r ∷ t) = (any (is_at r.path r.name) t ≡ false) × (any (collides r) t ≡ false) × IsKeyed t

  -- What a call that succeeds has written.
  pub record Saved (raw raw_name : Text) (input : ActionInput N) (fresh : Text) (now : ℕ)
      (t t' : List (Row N)) : Type 0 where
    pub path : Text
    pub normalized : normalize_path raw ≡ ok path
    pub valid : validate_name raw_name ≡ ok tt
    pub new : Row N
    pub config : Option (Value N)
    pub is_new :
        new
        ≡ merged_row fresh path (trim raw_name) input config now (get_row path (trim raw_name) t)
    pub written : write_row (get_row path (trim raw_name) t) new t ≡ ok t'

  pub save-Saved :
      (raw raw_name : Text) (input : ActionInput N) (fresh : Text) (now : ℕ) (t : List (Row N))
      (a : ActionEntity N) (t' : List (Row N))
      → save raw raw_name input fresh now t ≡ ok (a, t')
      → Saved raw raw_name input fresh now t t'
  unfolding save
  save-Saved raw raw_name input fresh now t a t' h =
      let (path, normalized, h₁) = >>=-eq-ok (normalize_path raw) _ h in
      let (_, valid, h₂) = >>=-eq-ok (validate_name raw_name) _ h₁ in
      let (_, _, h₃) = >>=-eq-ok (checked (validate_capabilities input.capabilities)) _ h₂ in
      let existing = get_row path (trim raw_name) t in
      let (config, _, h₄) = >>=-eq-ok (merge_config input.action_config existing) _ h₃ in
      let new = merged_row fresh path (trim raw_name) input config now existing in
      let (t₁, written, h₅) = >>=-eq-ok (write_row existing new t) _ h₄ in
      let (saved, _, h₆) = >>=-eq-ok (or_not_found other (get_row path (trim raw_name) t₁)) _ h₅ in
      let same : t₁ ≡ t' = ap (λ p. p.1) (ok-injective h₆) in
      record {
        path = path;
        normalized = normalized;
        valid = valid;
        new = new;
        config = config;
        is_new = refl;
        written = subst (λ u. write_row existing new t ≡ ok u) same written;
      }

  any-update :
      (q here : Row N → Bool) (new : Row N) (t : List (Row N))
      → ((r : Row N) → q (set_row new r) ≡ q r)
      → any q (update here (set_row new) t) ≡ any q t
  unfolding update
  any-update q here new [] h = refl
  any-update q here new (r ∷ t) h = elim (Bool-cases (here r)) [
    | inl e ↦ rw e (ap₂ (λ a b. a || b) (h r) (any-update q here new t h))
    | inr e ↦ rw e (ap (λ b. q r || b) (any-update q here new t h))
  ]

  any-delete :
      (q here : Row N → Bool) (t : List (Row N)) → any q t ≡ false → any q (delete here t) ≡ false
  unfolding delete
  any-delete q here [] h = refl
  any-delete q here (r ∷ t) h =
      let rest : any q (delete here t) ≡ false = any-delete q here t (ground arith) in
      elim (Bool-cases (here r)) [ inl e ↦ rw e rest | inr e ↦ rw e (ground (arith, rest)) ]

  any-concat :
      (q : Row N → Bool) (x : Row N) (t : List (Row N))
      → any q t ≡ false
      → q x ≡ false
      → any q (t ++ x ∷ []) ≡ false
  any-concat q x [] h k = ground arith
  any-concat q x (r ∷ t) h k = ground (arith, any-concat q x t)

  update-IsKeyed :
      (here : Row N → Bool) (new : Row N) (t : List (Row N))
      → IsKeyed t
      → IsKeyed (update here (set_row new) t)
  unfolding update
  update-IsKeyed here new [] k = tt
  update-IsKeyed here new (r ∷ t) (at, id, k) =
      let at' : any (is_at r.path r.name) (update here (set_row new) t) ≡ false =
        any-update (is_at r.path r.name) here new t (λ s. refl) ∙ at in
      let id' : any (collides r) (update here (set_row new) t) ≡ false =
        any-update (collides r) here new t (λ s. refl) ∙ id in
      elim (Bool-cases (here r)) [
        | inl e ↦ rw e (at', id', update-IsKeyed here new t k)
        | inr e ↦ rw e (at', id', update-IsKeyed here new t k)
      ]

  delete-IsKeyed : (here : Row N → Bool) (t : List (Row N)) → IsKeyed t → IsKeyed (delete here t)
  unfolding delete
  delete-IsKeyed here [] k = tt
  delete-IsKeyed here (r ∷ t) (at, id, k) = elim (Bool-cases (here r)) [
    | inl e ↦ rw e (delete-IsKeyed here t k)
    | inr e ↦ rw e (
      any-delete (is_at r.path r.name) here t at,
      any-delete (collides r) here t id,
      delete-IsKeyed here t k,
    )
  ]

  is_at_comm : (r s : Row N) → is_at r.path r.name s ≡ false → is_at s.path s.name r ≡ false
  is_at_comm r s h = ground (
    arith,
    text_eq_iff s.path r.path,
    text_eq_iff r.path s.path,
    text_eq_iff s.name r.name,
    text_eq_iff r.name s.name,
  )

  concat-IsKeyed :
      (new : Row N) (t : List (Row N))
      → IsKeyed t
      → any (is_at new.path new.name) t ≡ false
      → any (collides new) t ≡ false
      → IsKeyed (t ++ new ∷ [])
  concat-IsKeyed new [] k at id = (refl, refl, tt)
  concat-IsKeyed new (r ∷ t) (at', id', k) at id = (
    any-concat (is_at r.path r.name) new t at' (is_at_comm new r (ground arith)),
    any-concat (collides r) new t id' (text_eq_comm r.id new.id (ground arith)),
    concat-IsKeyed new t k (ground arith) (ground arith),
  )

  pub absent :
      (path name : Text) (t : List (Row N))
      → get_row path name t ≡ none
      → any (is_at path name) t ≡ false
  unfolding get_row find
  absent path name [] h = refl
  absent path name (r ∷ t) h = elim (Bool-cases (is_at path name r)) [
    | inl e ↦ cc (rw e at h)
    | inr e ↦ rw e (absent path name t (rw e at h))
  ]

  write-IsKeyed :
      (o : Option (ActionEntity N)) (new : Row N) (t t' : List (Row N))
      → IsKeyed t
      → (o ≡ none → any (is_at new.path new.name) t ≡ false)
      → write_row o new t ≡ ok t'
      → IsKeyed t'
  unfolding write_row
  write-IsKeyed (some a) new t t' k free h =
      subst IsKeyed (ok-injective h) (update-IsKeyed (is_at new.path new.name) new t k)
  write-IsKeyed none new t t' k free h = elim (Bool-cases (any (collides new) t)) [
    | inl e ↦ cc (rw e at h)
    | inr e ↦ subst IsKeyed (ok-injective (rw e at h)) (concat-IsKeyed new t k (free refl) e)
  ]

  pub save-IsKeyed :
      (raw name : Text) (input : ActionInput N) (fresh : Text) (now : ℕ) (t t' : List (Row N))
      → IsKeyed t
      → Saved raw name input fresh now t t'
      → IsKeyed t'
  unfolding merged_row
  save-IsKeyed raw name input fresh now t t' k s =
      write-IsKeyed _ s.new t t' k (λ gone. rw s.is_new (absent s.path (trim name) t gone))
        s.written

  pub delete_action-IsKeyed :
      (raw name : Text) (t t' : List (Row N))
      → IsKeyed t
      → delete_action raw name t ≡ ok t'
      → IsKeyed t'
  unfolding delete_action
  delete_action-IsKeyed raw name t t' k h =
      let (path, _, h₁) = >>=-eq-ok (normalize_path raw) _ h in
      let (_, _, h₂) = >>=-eq-ok (validate_name name) _ h₁ in
      let (_, _, h₃) = >>=-eq-ok (full_ref path name) _ h₂ in
      elim (Bool-cases (any (is_at path (trim name)) t)) [
        | inl e ↦
            subst IsKeyed (ok-injective (rw e at h₃)) (delete-IsKeyed (is_at path (trim name)) t k)
        | inr e ↦ cc (rw e at h₃)
      ]
