-- ===== src/Actions/Store/Rows.antt =====
-- Rows of the table of actions: what is found behind a write, and what a row keeps of an action.
use solx_core.Prelude.{
  true, List, [], ◌∷◌, Option, none, some, Text, text_eq, text_eq_iff, text_eq_refl, ◌≡◌, refl, inl,
  inr, Bool-cases, arith, ok, ok-injective, >>=-eq-ok,
}
use solx_core.Json.{Value, null, bool, number, string, array, object}
use solx_core.Console.Table.{update}
use solx_core.Config.Policy.{ActionType, internal, command, script, wasm, webhook}
use solx_core.Actions.Rows.{
  Row, ActionEntity, row_to_action, opt, or_empty, action_type_to_str, action_type_from_str,
  config_of, config_column,
}
use solx_core.Surface.Error.{not_found}
use solx_core.Surface.Path.{trim, normalize_path, validate_name, full_ref}
use solx_core.Actions.Store.{
  is_at, find, set_row, or_else, decoded, get_row, or_not_found, get_unmasked,
}

pub opt-or_empty : (s : Text) → opt (or_empty (or_else (opt s) (opt s))) ≡ opt s
opt-or_empty [] = refl
opt-or_empty (c ∷ s) = refl

or_else_self {ℓ} : {A : Type ℓ} (o : Option A) → or_else o o ≡ o
or_else_self none = refl
or_else_self (some a) = refl

pub action_type_from_str-to_str :
    (ty : Option ActionType) → action_type_from_str (action_type_to_str ty) ≡ ty
unfolding action_type_from_str action_type_to_str text_eq
action_type_from_str-to_str none = refl
action_type_from_str-to_str (some internal) = refl
action_type_from_str-to_str (some command) = refl
action_type_from_str-to_str (some script) = refl
action_type_from_str-to_str (some wasm) = refl
action_type_from_str-to_str (some webhook) = refl

pub type_echo :
    (s : Text)
    → action_type_from_str
        (action_type_to_str (or_else (action_type_from_str s) (action_type_from_str s)))
      ≡ action_type_from_str s
type_echo s = rw or_else_self (action_type_from_str-to_str (action_type_from_str s))

module _ {N : Type 0} where
  pub config_of-column : (v : Value N) → config_of (config_column (config_of v)) ≡ config_of v
  config_of-column null = refl
  config_of-column (bool b) = refl
  config_of-column (number n) = refl
  config_of-column (string s) = refl
  config_of-column (array vs) = refl
  config_of-column (object fs) = refl

  abbrev pub set_found : Row N → Option (Row N) → Option (Row N)
  set_found new none = none
  set_found new (some r) = some (set_row new r)

  pub is_at-eq :
      (path name path' name' : Text) (r : Row N)
      → is_at path name r ≡ true
      → is_at path' name' r ≡ true
      → (path ≡ path') × (name ≡ name')
  is_at-eq path name path' name' r h k = ground (
    arith,
    text_eq_iff r.path path,
    text_eq_iff r.path path',
    text_eq_iff r.name name,
    text_eq_iff r.name name',
  )

  pub is_at_self : (r : Row N) → is_at r.path r.name r ≡ true
  is_at_self r = rw (text_eq_refl r.path, text_eq_refl r.name) refl

  -- The row itself is replaced, and any other is as it was.
  pub find-update_self :
      (path name : Text) (new : Row N) (t : List (Row N))
      → find path name (update (is_at path name) (set_row new) t) ≡ set_found new (find path name t)
  unfolding find update
  find-update_self path name new [] = refl
  find-update_self path name new (r ∷ t) = elim (Bool-cases (is_at path name r)) [
    | inl e ↦ rw (e, e) refl
    | inr e ↦ rw (e, e) (find-update_self path name new t)
  ]

  pub find-update_ne :
      (path name path' name' : Text) (new : Row N) (t : List (Row N))
      → ¬ ((path ≡ path') × (name ≡ name'))
      → find path' name' (update (is_at path name) (set_row new) t) ≡ find path' name' t
  unfolding find update
  find-update_ne path name path' name' new [] ne = refl
  find-update_ne path name path' name' new (r ∷ t) ne =
      let rest = find-update_ne path name path' name' new t ne in
      elim (Bool-cases (is_at path name r)) [
        | inl e ↦ elim (Bool-cases (is_at path' name' r)) [
          | inl f ↦ let same = is_at-eq path name path' name' r e f in absurd (ne same)
          | inr f ↦ rw (e, f) rest
        ]
        | inr e ↦ rw (e, rest) refl
      ]

-- Where a read that succeeds has found its row.
pub record Located {N : Type 0} (raw name : Text) (t : List (Row N)) (a : ActionEntity N)
    : Type 0 where
  pub path : Text
  pub fr : Text
  pub row : Row N
  pub normalized : normalize_path raw ≡ ok path
  pub valid : validate_name name ≡ ok tt
  pub referred : full_ref path name ≡ ok fr
  pub found : find path (trim name) t ≡ some row
  pub same : row_to_action row ≡ a

decoded-some :
    {N : Type 0} (o : Option (Row N)) (a : ActionEntity N)
    → or_not_found not_found (decoded o) ≡ ok a
    → (r : Row N) × (o ≡ some r) × (row_to_action r ≡ a)
decoded-some none a h = cc
decoded-some (some r) a h = (r, refl, ok-injective h)

pub get_unmasked-Located :
    {N : Type 0} (raw name : Text) (t : List (Row N)) (a : ActionEntity N)
    → get_unmasked raw name t ≡ ok a
    → Located raw name t a
unfolding get_unmasked get_row
get_unmasked-Located raw name t a h =
    let (path, normalized, h₁) = >>=-eq-ok (normalize_path raw) _ h in
    let (_, valid, h₂) = >>=-eq-ok (validate_name name) _ h₁ in
    let (fr, referred, h₃) = >>=-eq-ok (full_ref path name) _ h₂ in
    let (row, found, same) = decoded-some (find path (trim name) t) a h₃ in
    record {
      path = path;
      fr = fr;
      row = row;
      normalized = normalized;
      valid = valid;
      referred = referred;
      found = found;
      same = same;
    }

pub Located-get_unmasked :
    {N : Type 0} (raw name : Text) (t : List (Row N)) (a : ActionEntity N)
    → Located raw name t a
    → get_unmasked raw name t ≡ ok a
unfolding get_unmasked get_row
Located-get_unmasked raw name t a l = rw (l.normalized, l.valid, l.referred, l.found, l.same) refl
