-- ===== src/Tests/Filter.antt =====
-- A metadata filter, compiled and run on a row.
use simply_storage.Prelude.{
  Bool, suc, ℕ, ◌+◌, ◌≤◌, ◌≡◌, none, some, Bool, true, false, List, [], ◌∷◌, ◌++◌, arith, length,
}
use simply_storage.Error.{ok}
use simply_storage.Json.{Value, string}
use simply_storage.Filter.{SqlText, MetadataFilter, and, not, leaf, nil, cons, new, compile}
use simply_storage.Filter.Expr.{Expr, Arg, uuid, render, eval, matches}
use simply_storage.Filter.Compile.{height}
use simply_storage.Filter.Meaning.{args_of, compile_correct}
use simply_storage.Filter.BulkDelete.{
  BulkDeleteFilters, build_bulk_delete_clause, bind_bulk_delete_args,
}
use simply_storage.Filter.BulkDelete.Meaning.{
  Row, Condition, conjunction, eval_where, selects, bulk_delete_clause_correct,
}

abbrev never : Value → Value → Bool
never _ _ = false

abbrev two_keys : MetadataFilter
two_keys = and (cons (leaf "env" (string "prod")) (cons (not (leaf "kind" (string "log"))) nil))

two_keys-height : height two_keys ≤ 32
unfolding height
two_keys-height = omega arith

compile_correct_example :
    let (written, c) = compile two_keys (new 2) in
    (e : Expr) × (written ≡ ok (render e))
    × (c.next_param ≡ 2 + length c.params)
    × ((post : List Arg) (metadata : Value)
        → eval never (uuid 1 ∷ [] ++ (args_of c.params ++ post)) metadata e
          ≡ some (matches never metadata two_keys))
compile_correct_example = compile_correct never two_keys (uuid 1 ∷ []) two_keys-height

abbrev old_logs : BulkDeleteFilters
old_logs = record {
  metadata_filters = some two_keys;
  created_before = some 100;
  created_after = none;
  size_min = some 5;
  size_max = none;
  last_accessed_before = some 90;
}

bulk_delete_clause_correct_example :
    (text : SqlText) × (params : List Value) × (joined : Bool) × (next : ℕ)
    × (build_bulk_delete_clause old_logs 2 ≡ ok (text, params, joined, next))
    × ((conditions : List Condition) × (text ≡ conjunction conditions)
        × ((row : Row)
            → eval_where never (bind_bulk_delete_args 1 old_logs params) row conditions
              ≡ some (selects never old_logs row)))
    × (joined ≡ true)
    × (next ≡ suc (length (bind_bulk_delete_args 1 old_logs params)))
bulk_delete_clause_correct_example = bulk_delete_clause_correct never 1 old_logs two_keys-height
