-- ===== src/Filter/BulkDelete.antt =====
-- `BulkDeleteFilters`, its WHERE clause and its arguments (db/models.rs). A bound on a size or a
-- time is a number; a negative size bound is not modelled.
pub mod Meaning
use simply_storage.Prelude.{
  ℕ, suc, ◌+◌, String, Option, none, some, Bool, true, false, ◌||◌, List, [], ◌∷◌, ◌++◌, map,
  length, is_some,
}
use simply_storage.Error.{AppResult, ok, err, ◌>>=◌}
use simply_storage.Json.{Value}
use simply_storage.Filter.{
  MetadataFilter, SqlText, Piece, lit, index, sql, join, Compiler, new, compile,
}
use simply_storage.Filter.Expr.{Arg, json, number, uuid}

pub record BulkDeleteFilters : Type 0 where
  pub metadata_filters : Option MetadataFilter
  pub created_before : Option ℕ
  pub created_after : Option ℕ
  pub size_min : Option ℕ
  pub size_max : Option ℕ
  pub last_accessed_before : Option ℕ

unfoldable pub has_any_filter : BulkDeleteFilters → Bool
has_any_filter f =
    is_some f.metadata_filters
    || is_some f.created_before
    || is_some f.created_after
    || is_some f.size_min
    || is_some f.size_max
    || is_some f.last_accessed_before

-- The five optional bounds.
pub data Bound : Type 0 where
  created_before created_after size_min size_max last_accessed_before : Bound

abbrev pub bound_text : Bound → ℕ → SqlText
bound_text created_before i = lit "fr.created_at < $" ∷ index i ∷ []
bound_text created_after i = lit "fr.created_at > $" ∷ index i ∷ []
bound_text size_min i = lit "f.size >= $" ∷ index i ∷ []
bound_text size_max i = lit "f.size <= $" ∷ index i ∷ []
bound_text last_accessed_before i =
    lit
      "NOT EXISTS (SELECT 1 FROM file_locations fl WHERE fl.file_id = fr.file_id AND (fl.last_accessed_at IS NULL OR fl.last_accessed_at >= $"
    ∷ index i
    ∷ lit "))"
    ∷ []

-- The columns of the table `files`.
abbrev pub is_of_file : Bound → Bool
is_of_file size_min = true
is_of_file size_max = true
is_of_file _ = false

pub record Clause : Type 0 where
  pub conditions : List SqlText
  pub metadata_params : List Value
  pub needs_files_join : Bool
  pub param_idx : ℕ

unfoldable pub metadata_clause : Option MetadataFilter → ℕ → AppResult Clause
metadata_clause none start_param = ok (record {
  conditions = [];
  metadata_params = [];
  needs_files_join = false;
  param_idx = start_param;
})
metadata_clause (some filter) start_param =
    let (text, compiler) = compile filter (new start_param) in
    do
      clause ← text
      ok (record {
        conditions = clause ∷ [];
        metadata_params = compiler.params;
        needs_files_join = false;
        param_idx = start_param + length compiler.params;
      })

-- `if filters.….is_some() { conditions.push(…); param_idx += 1; … }`
unfoldable pub push : Bound → Option ℕ → Clause → Clause
push bound none c = c
push bound (some _) c = record c {
  conditions = c.conditions ++ bound_text bound c.param_idx ∷ [];
  needs_files_join = c.needs_files_join || is_of_file bound;
  param_idx = c.param_idx + 1;
}

unfoldable pub where_clause : List SqlText → SqlText
where_clause [] = sql "TRUE"
where_clause (c ∷ cs) = join " AND " (c ∷ cs)

unfoldable pub push_bounds : BulkDeleteFilters → Clause → Clause
unfolding push
push_bounds f c = push last_accessed_before f.last_accessed_before (
    push size_max f.size_max (
      push size_min f.size_min
        (push created_after f.created_after (push created_before f.created_before c))))

-- The text of the clause, the values of its metadata filters, whether it reads `files`, and the
-- number of the next placeholder.
abbrev pub finished : Clause → SqlText × List Value × Bool × ℕ
finished c = (where_clause c.conditions, c.metadata_params, c.needs_files_join, c.param_idx)

unfoldable pub build_bulk_delete_clause :
    BulkDeleteFilters → ℕ → AppResult (SqlText × List Value × Bool × ℕ)
unfolding metadata_clause push_bounds where_clause
build_bulk_delete_clause f start_param = do
  c ← metadata_clause f.metadata_filters start_param
  ok (finished (push_bounds f c))

abbrev pub bind : Option ℕ → List Arg
bind none = []
bind (some v) = number v ∷ []

unfoldable pub bind_bulk_delete_args : ℕ → BulkDeleteFilters → List Value → List Arg
bind_bulk_delete_args project_id f metadata_params =
    (((((uuid project_id ∷ map json metadata_params) ++ bind f.created_before)
          ++ bind f.created_after)
        ++ bind f.size_min)
      ++ bind f.size_max)
    ++ bind f.last_accessed_before
