-- ===== src/Surface/Query/Placeholders.antt =====
-- The numbers of the placeholders in a where clause, against the binds.
use solx_core.Prelude.{
  ℕ, suc, ◌+◌, List, [], ◌∷◌, ◌++◌, Option, none, some, is_empty, length, length-append, range,
  range-append, Text, codes, text_eq, ok, >>=-eq-ok, ok-injective, ◌≡◌, refl, sym, ap, ap₂, subst,
  inl, inr, ◌∙◌, arith, Bool-cases, append-nil, append_assoc,
}
use solx_core.Surface.Path.{normalize_path}
use solx_core.Surface.Query.{
  ListOptions, ListSchema, ListSql, Piece, sql, place, Draft, draft, add_path, add_prefix,
  add_bound, add_dates, find_column, add_like, add_filter, join_conditions, where_of, add_rest,
  to_sql,
}

abbrev pub positions : List Piece → List ℕ
positions [] = []
positions (sql s ∷ c) = positions c
positions (place n ∷ c) = n ∷ positions c

abbrev places : List (List Piece) → List ℕ
places [] = []
places (c ∷ cs) = positions c ++ places cs

positions-append : (c d : List Piece) → positions (c ++ d) ≡ positions c ++ positions d
positions-append [] d = refl
positions-append (sql s ∷ c) d = positions-append c d
positions-append (place n ∷ c) d = ap (◌∷◌ n) (positions-append c d)

places-append : (cs ds : List (List Piece)) → places (cs ++ ds) ≡ places cs ++ places ds
places-append [] ds = refl
places-append (c ∷ cs) ds =
    ap (λ t. positions c ++ t) (places-append cs ds)
    ∙ sym (append_assoc (positions c) (places cs) (places ds))

positions-join_conditions :
    (c : List Piece) (cs : List (List Piece)) → positions (join_conditions c cs) ≡ places (c ∷ cs)
unfolding join_conditions
positions-join_conditions c [] = sym (append-nil (positions c))
positions-join_conditions c (d ∷ ds) =
    positions-append c _ ∙ ap (λ t. positions c ++ t) (positions-join_conditions d ds)

positions-where_of : (cs : List (List Piece)) → positions (where_of cs) ≡ places cs
positions-where_of [] = refl
positions-where_of (c ∷ cs) = positions-join_conditions c cs

-- The placeholders so far are the numbers of the binds, in order.
abbrev IsPlaced : Draft → Type 0
IsPlaced d = places d.conditions ≡ range 1 (length d.binds)

-- One more condition, whose placeholders number the binds that come with it.
extend-IsPlaced :
    (d : Draft) (c : List Piece) (bs : List Text)
    → positions c ≡ range (suc (length d.binds)) (length bs)
    → IsPlaced d
    → IsPlaced (record { conditions = d.conditions ++ c ∷ []; binds = d.binds ++ bs })
extend-IsPlaced d c bs e h =
    let start : 1 + length d.binds ≡ suc (length d.binds) = omega arith in
    places-append d.conditions (c ∷ [])
    ∙ ap₂ (λ x y. x ++ y) h (append-nil (positions c) ∙ e)
    ∙ ap (λ n. range 1 (length d.binds) ++ range n (length bs)) (sym start)
    ∙ sym (range-append 1 (length d.binds) (length bs))
    ∙ ap (range 1) (sym (length-append d.binds bs))

add_path-IsPlaced : (p : Text) (d : Draft) → IsPlaced d → IsPlaced (add_path p d)
add_path-IsPlaced p d h = elim (Bool-cases (text_eq p (codes "/"))) [
  | inl e ↦ rw e (extend-IsPlaced d _ (codes "/%" ∷ []) refl h)
  | inr e ↦ rw e (extend-IsPlaced d _ (p ∷ (p ++ codes "/%") ∷ []) refl h)
]

add_bound-IsPlaced :
    (col compare : Text) (time : Option Text) (d : Draft)
    → IsPlaced d
    → IsPlaced (add_bound col compare time d)
add_bound-IsPlaced col compare none d h = h
add_bound-IsPlaced col compare (some time) d h = extend-IsPlaced d _ (time ∷ []) refl h

add_dates-IsPlaced :
    (col after before : Option Text) (d : Draft)
    → IsPlaced d
    → IsPlaced (add_dates col after before d)
add_dates-IsPlaced none after before d h = h
add_dates-IsPlaced (some col) after before d h =
    add_bound-IsPlaced col _ before _ (add_bound-IsPlaced col _ after d h)

add_filter-IsPlaced :
    (columns : List Text) (field value : Option Text) (d : Draft)
    → IsPlaced d
    → IsPlaced (add_filter columns field value d)
add_filter-IsPlaced columns none value d h = h
add_filter-IsPlaced columns (some field) none d h = h
add_filter-IsPlaced columns (some field) (some value) d h = elim (Bool-cases (is_empty value)) [
  | inl e ↦ rw e h
  | inr e ↦ rw e (like (find_column field columns))
]
  where
    like : (o : Option Text) → IsPlaced (add_like value o d)
    like none = h
    like (some col) = extend-IsPlaced d _ ((codes "%" ++ value ++ codes "%") ∷ []) refl h

-- The placeholders of the where clause of a rendered query are `?1` up to `?n` in order, `n` being
-- the number of binds: each bind is used exactly once, and no placeholder is unbound.
pub to_sql-positions :
    (o : ListOptions) (schema : ListSchema) (s : ListSql)
    → to_sql o schema ≡ ok s
    → positions s.where_clause ≡ range 1 (length s.binds)
unfolding to_sql
to_sql-positions o schema s h =
    let (d, from_prefix, e) = >>=-eq-ok (add_prefix o.path_prefix draft) _ h in
    subst (λ x. positions x.where_clause ≡ range 1 (length x.binds)) (ok-injective e)
      (positions-where_of (add_rest o schema d).conditions
        ∙ add_filter-IsPlaced schema.filterable o.filter_field o.filter_value _ (
            add_dates-IsPlaced schema.date_column o.date_after o.date_before d
              (prefix o.path_prefix d from_prefix)))
  where
    prefix : (p : Option Text) (d : Draft) → add_prefix p draft ≡ ok d → IsPlaced d
    prefix none d k = let same : draft ≡ d = cc in subst IsPlaced same refl
    prefix (some raw) d k =
        let (p, _, j) = >>=-eq-ok (normalize_path raw) _ k in
        let same : add_path p draft ≡ d = cc in subst IsPlaced same (add_path-IsPlaced p draft refl)
