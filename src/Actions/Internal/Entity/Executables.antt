-- ===== src/Actions/Internal/Entity/Executables.antt =====
-- The commands and webhooks of the table, and the writes that leave them alone.
use solx_core.Prelude.{
  Bool, true, false, List, [], ◌∷◌, ◌++◌, Option, none, some, any, Text, ok, ok-injective, ◌≡◌,
  refl, sym, subst, inl, inr, Bool-cases, arith,
}
use solx_core.Console.Table.{update, delete, select}
use solx_core.Actions.Rows.{Row, ActionEntity, action_type_from_str}
use solx_core.Actions.Store.{is_at, find, set_row, write_row, collides}
use solx_core.Actions.Store.Rows.{is_at-eq, is_at_self}
use solx_core.Actions.Store.Keyed.{IsKeyed}
use solx_core.Actions.Internal.Entity.{refused}

module _ {N : Type 0} where
  abbrev pub is_executable : Row N → Bool
  is_executable r = refused (action_type_from_str r.action_type)

  -- The commands and webhooks of the table, with all that is stored of them.
  abbrev pub executables : List (Row N) → List (Row N)
  executables t = select is_executable t

  -- What an update and a deletion at a key with no executable row leave.
  absent_update :
      (path name : Text) (new : Row N) (t : List (Row N))
      → any (is_at path name) t ≡ false
      → update (is_at path name) (set_row new) t ≡ t
  unfolding update
  absent_update path name new [] h = refl
  absent_update path name new (r ∷ t) h = ground (arith, absent_update path name new t)

  absent_delete :
      (path name : Text) (t : List (Row N))
      → any (is_at path name) t ≡ false
      → delete (is_at path name) t ≡ t
  unfolding delete
  absent_delete path name [] h = refl
  absent_delete path name (r ∷ t) h = ground (arith, absent_delete path name t)

  same_key :
      (path name : Text) (r : Row N) (t : List (Row N))
      → is_at path name r ≡ true
      → any (is_at r.path r.name) t ≡ false
      → any (is_at path name) t ≡ false
  same_key path name r t e h =
      let (p, n) = is_at-eq path name r.path r.name r e (is_at_self r) in
      subst (λ k. any (is_at k name) t ≡ false) (sym p)
        (subst (λ k. any (is_at r.path k) t ≡ false) (sym n) h)

  abbrev pub Harmless : Option (Row N) → Type 0
  Harmless none = Unit
  Harmless (some r) = is_executable r ≡ false

  executables-update :
      (path name : Text) (new : Row N) (t : List (Row N))
      → IsKeyed t
      → Harmless (find path name t)
      → is_executable new ≡ false
      → executables (update (is_at path name) (set_row new) t) ≡ executables t
  unfolding find select update
  executables-update path name new [] k h n = refl
  executables-update path name new (r ∷ t) (at, id, k) h n = elim (Bool-cases (is_at path name r)) [
    | inl e ↦
        rw (e, absent_update path name new t (same_key path name r t e at), n)
          (let old : is_executable r ≡ false = rw e at h in rw old refl)
    | inr e ↦ rw (e, executables-update path name new t k (rw e at h) n) refl
  ]

  pub executables-delete :
      (path name : Text) (t : List (Row N))
      → IsKeyed t
      → Harmless (find path name t)
      → executables (delete (is_at path name) t) ≡ executables t
  unfolding find select delete
  executables-delete path name [] k h = refl
  executables-delete path name (r ∷ t) (at, id, k) h = elim (Bool-cases (is_at path name r)) [
    | inl e ↦
        rw (e, absent_delete path name t (same_key path name r t e at))
          (let old : is_executable r ≡ false = rw e at h in rw old refl)
    | inr e ↦ rw (e, executables-delete path name t k (rw e at h)) refl
  ]

  executables-concat :
      (new : Row N) (t : List (Row N))
      → is_executable new ≡ false
      → executables (t ++ new ∷ []) ≡ executables t
  unfolding select
  executables-concat new [] n = rw n refl
  executables-concat new (r ∷ t) n = rw (executables-concat new t n) refl

  pub write-executables :
      (o : Option (ActionEntity N)) (new : Row N) (t t' : List (Row N))
      → IsKeyed t
      → Harmless (find new.path new.name t)
      → is_executable new ≡ false
      → write_row o new t ≡ ok t'
      → executables t' ≡ executables t
  unfolding write_row
  write-executables (some a) new t t' k h n w =
      subst (λ u. executables u ≡ executables t) (ok-injective w)
        (executables-update new.path new.name new t k h n)
  write-executables none new t t' k h n w = elim (Bool-cases (any (collides new) t)) [
    | inl e ↦ cc (rw e at w)
    | inr e ↦
        subst (λ u. executables u ≡ executables t) (ok-injective (rw e at w))
          (executables-concat new t n)
  ]
