-- ===== src/Surface/Query.antt =====
-- solx-surface/src/query.rs: the options of a list request, rendered to SQL. A clause with
-- placeholders is kept in its pieces: fragments of SQL, and the numbers behind the `?`.
pub mod Placeholders
pub mod Fragments
mod Tests
use solx_core.Prelude.{
  ℕ, suc, ◌+◌, Bool, true, false, List, [], ◌∷◌, ◌++◌, Option, none, some, if◌then◌else◌, any,
  is_empty, length, Text, codes, text_eq, ok, err, ◌>>=◌,
}
use solx_core.Surface.Error.{Fallible}
use solx_core.Surface.Path.{normalize_path, split, trim}

pub data SortOrder : Type 0 where
  asc desc : SortOrder

pub record ListOptions : Type 0 where
  pub path_prefix : Option Text
  pub limit : Option ℕ
  pub offset : Option ℕ
  pub filter_field : Option Text
  pub filter_value : Option Text
  pub sort_by : Option Text
  pub sort_order : SortOrder
  pub date_after : Option Text
  pub date_before : Option Text

pub record ListSchema : Type 0 where
  pub filterable : List Text
  pub sortable : List (Text × Text)
  pub default_sort : Text
  pub date_column : Option Text

pub data Piece : Type 0 where
  sql : Text → Piece
  place : ℕ → Piece

pub record ListSql : Type 0 where
  pub where_clause : List Piece
  pub order_clause : Text
  pub binds : List Text

-- The two vectors that `to_sql` fills.
pub record Draft : Type 0 where
  pub conditions : List (List Piece)
  pub binds : List Text

abbrev pub draft : Draft
draft = record { conditions = []; binds = [] }

abbrev pub limit_or : ListOptions → ℕ → ℕ
limit_or o default = elim o.limit [ none ↦ default | some n ↦ n ]

abbrev pub offset_or_zero : ListOptions → ℕ
offset_or_zero o = elim o.offset [ none ↦ 0 | some n ↦ n ]

-- A new bind, and the condition that names its number between two texts.
abbrev pub add : Text → (ℕ → List Piece) → Draft → Draft
add bind condition d =
    let n = suc (length d.binds) in
    record { conditions = d.conditions ++ condition n ∷ []; binds = d.binds ++ bind ∷ [] }

abbrev pub add_root : Draft → Draft
add_root d = add (codes "/%") (λ n. sql (codes "path LIKE ") ∷ place n ∷ []) d

abbrev pub add_directory : Text → Draft → Draft
add_directory p d = record {
  conditions =
      d.conditions
      ++ (sql (codes "(path=")
          ∷ place (suc (length d.binds))
          ∷ sql (codes " OR path LIKE ")
          ∷ place (suc (suc (length d.binds)))
          ∷ sql (codes ")")
          ∷ [])
        ∷ [];
  binds = d.binds ++ p ∷ (p ++ codes "/%") ∷ [];
}

abbrev pub add_path : Text → Draft → Draft
add_path p d = if text_eq p (codes "/") then add_root d else add_directory p d

abbrev pub add_prefix : Option Text → Draft → Fallible Draft
add_prefix none d = ok d
add_prefix (some prefix) d = do p ← normalize_path prefix; ok (add_path p d)

abbrev pub add_bound : Text → Text → Option Text → Draft → Draft
add_bound col compare none d = d
add_bound col compare (some time) d = add time (λ n. sql col ∷ sql compare ∷ place n ∷ []) d

abbrev pub add_dates : Option Text → Option Text → Option Text → Draft → Draft
add_dates none after before d = d
add_dates (some col) after before d =
    add_bound col (codes " <= ") before (add_bound col (codes " >= ") after d)

unfoldable pub find_column : Text → List Text → Option Text
find_column field [] = none
find_column field (c ∷ cs) = if text_eq c field then some c else find_column field cs

abbrev pub add_like : Text → Option Text → Draft → Draft
add_like value none d = d
add_like value (some col) d =
    add (codes "%" ++ value ++ codes "%")
      (λ n.
        sql (codes "lower(COALESCE(")
        ∷ sql col
        ∷ sql (codes ",'')) LIKE lower(")
        ∷ place n
        ∷ sql (codes ")")
        ∷ [])
      d

abbrev pub add_filter : List Text → Option Text → Option Text → Draft → Draft
add_filter columns (some field) (some value) d =
    if is_empty value then d else add_like value (find_column field columns) d
add_filter columns _ _ d = d

unfoldable pub join_conditions : List Piece → List (List Piece) → List Piece
join_conditions c [] = c
join_conditions c (d ∷ ds) = c ++ sql (codes " AND ") ∷ join_conditions d ds

abbrev pub where_of : List (List Piece) → List Piece
where_of [] = []
where_of (c ∷ cs) = sql (codes " WHERE ") ∷ join_conditions c cs

unfoldable pub find_sort : Text → List (Text × Text) → Option Text
find_sort key [] = none
find_sort key (s ∷ ss) = if text_eq s.0 key then some s.1 else find_sort key ss

abbrev pub sort_or : Text → Option Text → Text
sort_or default none = default
sort_or default (some expr) = expr

unfoldable pub sort_expr : ListSchema → Option Text → Text
sort_expr schema none = schema.default_sort
sort_expr schema (some key) = sort_or schema.default_sort (find_sort key schema.sortable)

abbrev pub dir : SortOrder → Text
dir asc = codes "ASC"
dir desc = codes "DESC"

unfoldable pub directed : Text → List Text → List Text
directed d [] = []
directed d (c ∷ cs) = (trim c ++ codes " " ++ d) ∷ directed d cs

abbrev pub tie_breaker : Text → List Text → List Text
tie_breaker tie columns =
    if any (λ c. text_eq (trim c) tie) columns then [] else (tie ++ codes " ASC") ∷ []

unfoldable pub order_parts : Text → Text → List Text
order_parts expr d =
    let columns = split b',' expr in
    directed d columns ++ tie_breaker (codes "path") columns ++ tie_breaker (codes "name") columns

unfoldable pub join_parts : List Text → Text
join_parts [] = []
join_parts (p ∷ []) = p
join_parts (p ∷ q ∷ ps) = p ++ codes ", " ++ join_parts (q ∷ ps)

abbrev pub finish_sql : ListOptions → ListSchema → Draft → ListSql
finish_sql o schema d = record {
  where_clause = where_of d.conditions;
  order_clause =
      codes " ORDER BY "
      ++ join_parts (order_parts (sort_expr schema o.sort_by) (dir o.sort_order));
  binds = d.binds;
}

-- What follows the path prefix.
abbrev pub add_rest : ListOptions → ListSchema → Draft → Draft
add_rest o schema d =
    add_filter schema.filterable o.filter_field o.filter_value
      (add_dates schema.date_column o.date_after o.date_before d)

unfoldable pub to_sql : ListOptions → ListSchema → Fallible ListSql
to_sql o schema = do
  d ← add_prefix o.path_prefix draft
  ok (finish_sql o schema (add_rest o schema d))
