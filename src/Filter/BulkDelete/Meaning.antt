-- ===== src/Filter/BulkDelete/Meaning.antt =====
-- The WHERE clause of a bulk delete selects the references that the filters mean: each placeholder
-- is bound to the value that was meant for it.
use mathlib.Core.List.{append_assoc, append-nil, map-append}
use simply_storage.Prelude.{
  ℕ, suc, ◌+◌, ◌≤◌, ◌≡◌, refl, Option, none, some, Bool, true, false, not, ◌&&◌, ◌||◌, List, [],
  ◌∷◌, ◌++◌, map, arith, ltb, leb, length, length-append, exists, is_some,
}
use simply_storage.Error.{ok}
use simply_storage.Json.{Value}
use simply_storage.Filter.{MetadataFilter, SqlText, lit, sql, join, new, compile}
use simply_storage.Filter.Expr.{
  Expr, render, Arg, json, number, uuid, bound, as_number, both, eval, matches,
}
use simply_storage.Filter.Compile.{height}
use simply_storage.Filter.Meaning.{length-args_of, get_elem?-append, compile_correct}
use simply_storage.Filter.BulkDelete.{
  BulkDeleteFilters, Bound, created_before, created_after, size_min, size_max, last_accessed_before,
  bound_text, Clause, where_clause, metadata_clause, push, push_bounds, build_bulk_delete_clause,
  bind, bind_bulk_delete_args,
}

-- A file reference as the query sees it, with its file's size and the last accesses of the copies.
pub record Row : Type 0 where
  pub metadata : Value
  pub created_at : ℕ
  pub size : ℕ
  pub accesses : List (Option ℕ)

-- `last_accessed_at IS NULL OR last_accessed_at >= v`
abbrev pub blocks : ℕ → Option ℕ → Bool
blocks v none = true
blocks v (some at) = leb v at

abbrev pub holds : Bound → ℕ → Row → Bool
holds created_before v row = ltb row.created_at v
holds created_after v row = ltb v row.created_at
holds size_min v row = leb v row.size
holds size_max v row = leb row.size v
holds last_accessed_before v row = not (exists (blocks v) row.accesses)

abbrev pub test : Bound → Option ℕ → Row → Bool
test b none row = true
test b (some v) row = holds b v row

abbrev pub IsShallow : Option MetadataFilter → Type 0
IsShallow none = Unit
IsShallow (some f) = height f ≤ 32

pub data Condition : Type 0 where
  on_metadata : Expr → Condition
  on_bound : Bound → ℕ → Condition

abbrev pub condition_text : Condition → SqlText
condition_text (on_metadata e) = render e
condition_text (on_bound b i) = bound_text b i

-- The text of a conjunction: that of nothing is true.
unfoldable pub conjunction : List Condition → SqlText
conjunction [] = sql "TRUE"
conjunction (c ∷ []) = condition_text c
conjunction (c ∷ d ∷ cs) = condition_text c ++ lit " AND " ∷ conjunction (d ∷ cs)

join-conjunction :
    (c : Condition) (cs : List Condition)
    → join " AND " (map condition_text (c ∷ cs)) ≡ conjunction (c ∷ cs)
unfolding join conjunction
join-conjunction c [] = refl
join-conjunction c (d ∷ cs) = rw (join-conjunction d cs) refl

where_clause-conjunction :
    (texts : List SqlText) (cs : List Condition)
    → texts ≡ map condition_text cs
    → where_clause texts ≡ conjunction cs
unfolding where_clause conjunction
where_clause-conjunction texts [] e = rw e refl
where_clause-conjunction texts (c ∷ cs) e = rw e (join-conjunction c cs)

params-push_bounds :
    (f : BulkDeleteFilters) (c : Clause) → (push_bounds f c).metadata_params ≡ c.metadata_params
unfolding push_bounds
params-push_bounds f c = ground arith

join-push_bounds :
    (f : BulkDeleteFilters) (c : Clause)
    → c.needs_files_join ≡ false
    → (push_bounds f c).needs_files_join ≡ (is_some f.size_min || is_some f.size_max)
unfolding push_bounds
join-push_bounds f c h = ground arith

module _ (includes : Value → Value → Bool) where
  abbrev pub eval_condition : List Arg → Row → Condition → Option Bool
  eval_condition args row (on_metadata e) = eval includes args row.metadata e
  eval_condition args row (on_bound b i) = elim (as_number (bound args i)) [
    | none ↦ none
    | some v ↦ some (holds b v row)
  ]

  unfoldable pub eval_where : List Arg → Row → List Condition → Option Bool
  eval_where args row [] = some true
  eval_where args row (c ∷ cs) = both (eval_condition args row c) (eval_where args row cs)

  abbrev pub metadata_test : Option MetadataFilter → Row → Bool
  metadata_test none row = true
  metadata_test (some f) row = matches includes row.metadata f

  -- What the filters mean.
  unfoldable pub selects : BulkDeleteFilters → Row → Bool
  selects f row =
      metadata_test f.metadata_filters row
      && test created_before f.created_before row
      && test created_after f.created_after row
      && test size_min f.size_min row
      && test size_max f.size_max row
      && test last_accessed_before f.last_accessed_before row

  eval_where-append :
      (args : List Arg) (row : Row) (cs ds : List Condition)
      → eval_where args row (cs ++ ds) ≡ both (eval_where args row cs) (eval_where args row ds)
  unfolding eval_where
  eval_where-append args row [] ds = ground arith
  eval_where-append args row (c ∷ cs) ds = ground (arith, eval_where-append args row cs ds)

  -- A clause under construction: the conditions pushed so far, over the arguments bound so far.
  record Built (args : List Arg) (c : Clause) (meaning : Row → Bool) : Type 0 where
    conditions : List Condition
    texts : c.conditions ≡ map condition_text conditions
    next : c.param_idx ≡ suc (length args)
    value :
        (post : List Arg) (row : Row)
        → eval_where (args ++ post) row conditions ≡ some (meaning row)

  push-Built :
      (b : Bound) (o : Option ℕ) (args : List Arg) (c : Clause) (meaning : Row → Bool)
      → Built args c meaning
      → Built (args ++ bind o) (push b o c) (λ row. meaning row && test b o row)
  unfolding push eval_where
  push-Built b none args c meaning h = rw (append-nil args) (record {
    conditions = h.conditions;
    texts = h.texts;
    next = h.next;
    value = λ post row. ground (arith, h.value post row);
  })
  push-Built b (some v) args c meaning h = record {
    conditions = h.conditions ++ on_bound b c.param_idx ∷ [];
    texts = rw (map-append, h.texts) refl;
    next = omega (arith, h.next, length-append args (number v ∷ []));
    value = λ post row. rw (append_assoc args (number v ∷ []) post) (
        ground (
          arith,
          h.next,
          h.value (number v ∷ post) row,
          get_elem?-append args post (number v),
          eval_where-append (args ++ number v ∷ post) row h.conditions
              (on_bound b c.param_idx ∷ []),
        ));
  }

  metadata_clause-Built :
      (project_id : ℕ) (o : Option MetadataFilter)
      → IsShallow o
      → (c : Clause) × (metadata_clause o 2 ≡ ok c)
        × Built (uuid project_id ∷ map json c.metadata_params) c (metadata_test o)
        × (c.needs_files_join ≡ false)
  unfolding metadata_clause eval_where
  metadata_clause-Built project_id none h = (
    record { conditions = []; metadata_params = []; needs_files_join = false; param_idx = 2 },
    refl,
    record { conditions = []; texts = refl; next = refl; value = λ post row. refl },
    refl,
  )
  metadata_clause-Built project_id (some f) h =
      let (e, text, next, value) = compile_correct includes f (uuid project_id ∷ []) h in
      let params = (compile f (new 2)).1.params in
      (
        record {
          conditions = render e ∷ [];
          metadata_params = params;
          needs_files_join = false;
          param_idx = 2 + length params;
        },
        rw text refl,
        record {
          conditions = on_metadata e ∷ [];
          texts = refl;
          next = omega (arith, length-args_of params);
          value = λ post row. ground (arith, value post row.metadata);
        },
        refl,
      )

  -- With metadata filters of at most 32 levels the clause is built. Its text is the conjunction of
  -- conditions that, under the arguments that are bound, hold of a row exactly when the filters
  -- select it, and it asks for the join with `files` exactly when it reads a size.
  pub bulk_delete_clause_correct :
      (project_id : ℕ) (f : BulkDeleteFilters)
      → IsShallow f.metadata_filters
      → (text : SqlText) × (params : List Value) × (joined : Bool) × (next : ℕ)
        × (build_bulk_delete_clause f 2 ≡ ok (text, params, joined, next))
        × ((conditions : List Condition) × (text ≡ conjunction conditions)
            × ((row : Row)
                → eval_where (bind_bulk_delete_args project_id f params) row conditions
                  ≡ some (selects f row)))
        × (joined ≡ (is_some f.size_min || is_some f.size_max))
        × (next ≡ suc (length (bind_bulk_delete_args project_id f params)))
  unfolding build_bulk_delete_clause bind_bulk_delete_args selects
  bulk_delete_clause_correct project_id f h =
      let (c, made, built, plain) = metadata_clause-Built project_id f.metadata_filters h in
      let all = push-Built last_accessed_before f.last_accessed_before _ _ _ (
        push-Built size_max f.size_max _ _ _ (
          push-Built size_min f.size_min _ _ _ (
            push-Built created_after f.created_after _ _ _
              (push-Built created_before f.created_before _ _ _ built)))) in
      let params = params-push_bounds f c in
      (
        where_clause (push_bounds f c).conditions,
        (push_bounds f c).metadata_params,
        (push_bounds f c).needs_files_join,
        (push_bounds f c).param_idx,
        rw made refl,
        (
          all.conditions,
          where_clause-conjunction _ all.conditions (unfold push_bounds in all.texts),
          (λ row. rw params (rw append-nil at (all.value [] row))),
        ),
        join-push_bounds f c plain,
        rw params (unfold push_bounds in all.next),
      )
