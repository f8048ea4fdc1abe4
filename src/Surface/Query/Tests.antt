-- ===== src/Surface/Query/Tests.antt =====
-- Runs of the rendering of list options, and the theorems about it at a concrete request.
use solx_core.Prelude.{◌≡◌, refl, none, some, [], ◌∷◌, All, codes, text_eq, ok, err}
use solx_core.Surface.Error.{invalid}
use solx_core.Surface.Path.{
  is_whitespace, is_control, is_forbidden, trim_start, trim_end, trim, split, validate_segment,
  push_segments, normalize_path,
}
use solx_core.Surface.Query.{
  ListOptions, ListSchema, ListSql, desc, sql, place, find_column, join_conditions, find_sort,
  sort_expr, directed, order_parts, join_parts, to_sql,
}
use solx_core.Surface.Query.Fragments.{IsOurs, to_sql-IsOurs}

runs : Unit {0}
unfolding is_whitespace is_control is_forbidden trim_start trim_end trim split validate_segment
    push_segments normalize_path find_column join_conditions find_sort sort_expr directed
    order_parts join_parts to_sql text_eq
runs = tt

abbrev schema : ListSchema
schema = record {
  filterable = codes "type_ref" ∷ codes "author" ∷ [];
  sortable = (codes "path", codes "path,name") ∷ [];
  default_sort = codes "updated_at";
  date_column = some (codes "created_at");
}

abbrev request : ListOptions
request = record {
  path_prefix = some (codes "a/b/");
  limit = none;
  offset = none;
  filter_field = some (codes "author");
  filter_value = some (codes "x");
  sort_by = none;
  sort_order = desc;
  date_after = none;
  date_before = some (codes "2026");
}

abbrev rendered : ListSql
rendered = record {
  where_clause =
      sql (codes " WHERE ")
      ∷ sql (codes "(path=")
      ∷ place 1
      ∷ sql (codes " OR path LIKE ")
      ∷ place 2
      ∷ sql (codes ")")
      ∷ sql (codes " AND ")
      ∷ sql (codes "created_at")
      ∷ sql (codes " <= ")
      ∷ place 3
      ∷ sql (codes " AND ")
      ∷ sql (codes "lower(COALESCE(")
      ∷ sql (codes "author")
      ∷ sql (codes ",'')) LIKE lower(")
      ∷ place 4
      ∷ sql (codes ")")
      ∷ [];
  order_clause = codes " ORDER BY updated_at DESC, path ASC, name ASC";
  binds = codes "/a/b" ∷ codes "/a/b/%" ∷ codes "2026" ∷ codes "%x%" ∷ [];
}

renders : to_sql request schema ≡ ok rendered
unfolding runs
renders = refl

-- An unknown field is dropped, and a sort key names its expression.
falls_back :
    (to_sql
        (record request {
          filter_field = some (codes "1=1");
          path_prefix = none;
          date_before = none;
        })
        schema
      ≡ ok (record {
        where_clause = [];
        order_clause = codes " ORDER BY updated_at DESC, path ASC, name ASC";
        binds = [];
      }))
    × (to_sql (record request { path_prefix = some (codes "a:b") }) schema ≡ err invalid)
    × (sort_expr schema (some (codes "path")) ≡ codes "path,name")
unfolding runs
falls_back = (refl, refl, refl)

to_sql-IsOurs_example : All (IsOurs schema) rendered.where_clause
to_sql-IsOurs_example = to_sql-IsOurs request schema rendered renders
