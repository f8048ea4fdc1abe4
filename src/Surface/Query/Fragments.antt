-- ===== src/Surface/Query/Fragments.antt =====
-- What a rendered query may contain: only fragments of this file and columns of the schema, whatever
-- the request says.
use solx_core.Prelude.{
  Bool, true, List, [], ◌∷◌, ◌++◌, Option, none, some, any, is_empty, All, All-append, Text, codes,
  text_eq, text_eq_refl, ok, >>=-eq-ok, ok-injective, some-injective, ◌≡◌, ◌⊎◌, refl, sym, ap,
  subst, inl, inr, arith, Bool-cases,
}
use solx_core.Surface.Path.{normalize_path}
use solx_core.Surface.Query.{
  ListOptions, ListSchema, ListSql, Piece, sql, place, Draft, draft, add_path, add_prefix,
  add_bound, add_dates, find_column, add_like, add_filter, join_conditions, where_of, find_sort,
  sort_or, sort_expr, dir, order_parts, join_parts, add_rest, to_sql,
}

abbrev pub fragments : List Text
fragments =
    codes " WHERE "
    ∷ codes " AND "
    ∷ codes "path LIKE "
    ∷ codes "(path="
    ∷ codes " OR path LIKE "
    ∷ codes ")"
    ∷ codes " >= "
    ∷ codes " <= "
    ∷ codes "lower(COALESCE("
    ∷ codes ",'')) LIKE lower("
    ∷ []

abbrev pub is_among : List Text → Text → Bool
is_among texts t = any (λ u. text_eq u t) texts

module _ (schema : ListSchema) where
  -- A placeholder, a fragment of this file, or a column of the schema.
  abbrev pub IsOurs : Piece → Type 0
  IsOurs (place n) = Unit
  IsOurs (sql t) =
      (is_among fragments t ≡ true)
      ⊎ ((is_among schema.filterable t ≡ true) ⊎ (schema.date_column ≡ some t))

  abbrev AreOurs : Draft → Type 0
  AreOurs d = All (All IsOurs) d.conditions

  join_conditions-IsOurs :
      (c : List Piece) (cs : List (List Piece))
      → All IsOurs c
      → All (All IsOurs) cs
      → All IsOurs (join_conditions c cs)
  unfolding join_conditions text_eq
  join_conditions-IsOurs c [] h k = h
  join_conditions-IsOurs c (d ∷ ds) h (p, k) =
      All-append IsOurs c _ h (inl refl, join_conditions-IsOurs d ds p k)

  where_of-IsOurs : (cs : List (List Piece)) → All (All IsOurs) cs → All IsOurs (where_of cs)
  unfolding text_eq
  where_of-IsOurs [] h = tt
  where_of-IsOurs (c ∷ cs) (p, h) = (inl refl, join_conditions-IsOurs c cs p h)

  extend-AreOurs :
      (c : List Piece) (d : Draft)
      → All IsOurs c
      → AreOurs d
      → All (All IsOurs) (d.conditions ++ c ∷ [])
  extend-AreOurs c d p h = All-append (All IsOurs) d.conditions (c ∷ []) h (p, tt)

  add_path-AreOurs : (p : Text) (d : Draft) → AreOurs d → AreOurs (add_path p d)
  unfolding text_eq
  add_path-AreOurs p d h = elim (Bool-cases (text_eq p (codes "/"))) [
    | inl e ↦ rw e (extend-AreOurs _ d (inl refl, (tt, tt)) h)
    | inr e ↦ rw e (extend-AreOurs _ d (inl refl, (tt, (inl refl, (tt, (inl refl, tt))))) h)
  ]

  add_bound-AreOurs :
      (col compare : Text) (time : Option Text) (d : Draft)
      → schema.date_column ≡ some col
      → is_among fragments compare ≡ true
      → AreOurs d
      → AreOurs (add_bound col compare time d)
  add_bound-AreOurs col compare none d c f h = h
  add_bound-AreOurs col compare (some time) d c f h =
      extend-AreOurs _ d (inr (inr c), (inl f, (tt, tt))) h

  add_dates-AreOurs :
      (o after before : Option Text) (d : Draft)
      → schema.date_column ≡ o
      → AreOurs d
      → AreOurs (add_dates o after before d)
  unfolding text_eq
  add_dates-AreOurs none after before d c h = h
  add_dates-AreOurs (some col) after before d c h =
      add_bound-AreOurs col (codes " <= ") before _ c refl
        (add_bound-AreOurs col (codes " >= ") after d c refl h)

  find_column-is_among :
      (field : Text) (columns : List Text) (c : Text)
      → find_column field columns ≡ some c
      → is_among columns c ≡ true
  unfolding find_column
  find_column-is_among field [] c h = cc
  find_column-is_among field (d ∷ ds) c h = elim (Bool-cases (text_eq d field)) [
    | inl e ↦ let same : d ≡ c = some-injective (rw e at h) in rw (same, text_eq_refl c) refl
    | inr e ↦ rw (find_column-is_among field ds c (rw e at h)) (ground arith)
  ]

  add_like-AreOurs :
      (value : Text) (o : Option Text) (d : Draft)
      → ((c : Text) → o ≡ some c → is_among schema.filterable c ≡ true)
      → AreOurs d
      → AreOurs (add_like value o d)
  unfolding text_eq
  add_like-AreOurs value none d c h = h
  add_like-AreOurs value (some col) d c h =
      extend-AreOurs _ d (inl refl, (inr (inl (c col refl)), (inl refl, (tt, (inl refl, tt))))) h

  add_filter-AreOurs :
      (field value : Option Text) (d : Draft)
      → AreOurs d
      → AreOurs (add_filter schema.filterable field value d)
  add_filter-AreOurs none value d h = h
  add_filter-AreOurs (some field) none d h = h
  add_filter-AreOurs (some field) (some value) d h = elim (Bool-cases (is_empty value)) [
    | inl e ↦ rw e h
    | inr e ↦ rw e (
        add_like-AreOurs value (find_column field schema.filterable) d
          (find_column-is_among field schema.filterable) h)
  ]

-- Every piece of the where clause of a rendered query is a placeholder, a fixed fragment or a
-- column of the schema: no other text of the request reaches it.
pub to_sql-IsOurs :
    (o : ListOptions) (schema : ListSchema) (s : ListSql)
    → to_sql o schema ≡ ok s
    → All (IsOurs schema) s.where_clause
unfolding to_sql
to_sql-IsOurs o schema s h =
    let (d, from_prefix, e) = >>=-eq-ok (add_prefix o.path_prefix draft) _ h in
    subst (λ x. All (IsOurs schema) x.where_clause) (ok-injective e)
      (where_of-IsOurs schema (add_rest o schema d).conditions (
        add_filter-AreOurs schema o.filter_field o.filter_value _ (
          add_dates-AreOurs schema schema.date_column o.date_after o.date_before d refl
            (prefix o.path_prefix d from_prefix))))
  where
    prefix : (p : Option Text) (d : Draft) → add_prefix p draft ≡ ok d → AreOurs schema d
    prefix none d k = let same : draft ≡ d = cc in subst (AreOurs schema) same tt
    prefix (some raw) d k =
        let (p, _, j) = >>=-eq-ok (normalize_path raw) _ k in
        let same : add_path p draft ≡ d = cc in
        subst (AreOurs schema) same (add_path-AreOurs schema p draft tt)

abbrev pub IsSort : ListSchema → Text → Type 0
IsSort schema expr =
    (expr ≡ schema.default_sort) ⊎ (any (λ s. text_eq s.1 expr) schema.sortable ≡ true)

find_sort-listed :
    (key : Text) (ss : List (Text × Text)) (expr : Text)
    → find_sort key ss ≡ some expr
    → any (λ s. text_eq s.1 expr) ss ≡ true
unfolding find_sort
find_sort-listed key [] expr h = cc
find_sort-listed key (s ∷ ss) expr h = elim (Bool-cases (text_eq s.0 key)) [
  | inl e ↦ let same : s.1 ≡ expr = some-injective (rw e at h) in rw (same, text_eq_refl expr) refl
  | inr e ↦ rw (find_sort-listed key ss expr (rw e at h)) (ground arith)
]

sort_expr-IsSort : (schema : ListSchema) (key : Option Text) → IsSort schema (sort_expr schema key)
unfolding sort_expr
sort_expr-IsSort schema none = inl refl
sort_expr-IsSort schema (some key) = at (find_sort key schema.sortable) refl
  where
    at :
        (o : Option Text)
        → find_sort key schema.sortable ≡ o
        → IsSort schema (sort_or schema.default_sort o)
    at none e = inl refl
    at (some expr) e = inr (find_sort-listed key schema.sortable expr e)

-- The order clause of a rendered query is built from an expression of the schema, the default one
-- or a listed one.
pub to_sql-IsSort :
    (o : ListOptions) (schema : ListSchema) (s : ListSql)
    → to_sql o schema ≡ ok s
    → (expr : Text) × IsSort schema expr
      × (s.order_clause ≡ codes " ORDER BY " ++ join_parts (order_parts expr (dir o.sort_order)))
unfolding to_sql
to_sql-IsSort o schema s h =
    let (d, from_prefix, e) = >>=-eq-ok (add_prefix o.path_prefix draft) _ h in
    (
      sort_expr schema o.sort_by,
      sort_expr-IsSort schema o.sort_by,
      ap (λ x. x.order_clause) (sym (ok-injective e)),
    )
