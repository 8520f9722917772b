-- ===== src/Filter.antt =====
-- `MetadataFilter` and its compiler to SQL, and the WHERE clause of a bulk delete (db/models.rs).
-- SQL text is a list of pieces: literal text, and the numbers that `format!` prints.
pub mod Expr
pub mod Compile
pub mod Meaning
pub mod BulkDelete
use simply_storage.Prelude.{ℕ, suc, ◌+◌, String, List, [], ◌∷◌, ◌++◌, leb, if◌then◌else◌}
use simply_storage.Error.{AppError, bad_request}
use simply_storage.Error.Action.{Action, pure, raise, require, ◌>>=◌, ◌>>◌}
use simply_storage.Json.{Value, object, member, no_members}

pub data Piece : Type 0 where
  lit : String → Piece
  index : ℕ → Piece

abbrev pub SqlText : Type 0
SqlText = List Piece

abbrev pub sql : String → SqlText
sql s = lit s ∷ []

-- `parts.join(separator)`
unfoldable pub join : String → List SqlText → SqlText
join separator [] = []
join separator (part ∷ []) = part
join separator (part ∷ next ∷ parts) = part ++ (lit separator ∷ join separator (next ∷ parts))

mutual
  pub data MetadataFilter : Type 0 where
    and : Filters → MetadataFilter
    or : Filters → MetadataFilter
    not : MetadataFilter → MetadataFilter
    leaf : String → Value → MetadataFilter

  pub data Filters : Type 0 where
    nil : Filters
    cons : MetadataFilter → Filters → Filters

pub record Compiler : Type 0 where
  pub next_param : ℕ
  pub params : List Value

abbrev pub new : ℕ → Compiler
new start_param = record { next_param = start_param; params = [] }

abbrev pub max_depth : ℕ
max_depth = 32

abbrev pub too_deep : AppError
too_deep = bad_request "Filter nesting too deep (max 32 levels)"

abbrev pub singleton : String → Value → Value
singleton key value = object (member key value no_members)

abbrev pub compile_leaf : String → Value → Action Compiler SqlText
compile_leaf key value c =
    pure (lit "metadata @> $" ∷ index c.next_param ∷ lit "::jsonb" ∷ [])
      (record { next_param = c.next_param + 1; params = c.params ++ singleton key value ∷ [] })

abbrev pub parenthesised : SqlText → SqlText
parenthesised text = lit "(" ∷ (text ++ lit ")" ∷ [])

unfoldable mutual
  pub compile_inner : MetadataFilter → ℕ → Action Compiler SqlText
  compile_inner (leaf key value) depth =
      if leb max_depth depth then raise too_deep else compile_leaf key value
  compile_inner (and nil) depth = if leb max_depth depth then raise too_deep else pure (sql "TRUE")
  compile_inner (and (cons f fs)) depth =
      let parts = compile_all (cons f fs) (depth + 1) in
      if leb max_depth depth
      then raise too_deep
      else do texts ← parts; pure (parenthesised (join " AND " texts))
  compile_inner (or nil) depth = if leb max_depth depth then raise too_deep else pure (sql "FALSE")
  compile_inner (or (cons f fs)) depth =
      let parts = compile_all (cons f fs) (depth + 1) in
      if leb max_depth depth
      then raise too_deep
      else do texts ← parts; pure (parenthesised (join " OR " texts))
  compile_inner (not f) depth =
      let part = compile_inner f (depth + 1) in
      if leb max_depth depth
      then raise too_deep
      else do inner ← part; pure (lit "NOT (" ∷ (inner ++ lit ")" ∷ []))

  -- `iter().map(…).collect::<AppResult<_>>()?`: the first error ends it.
  pub compile_all : Filters → ℕ → Action Compiler (List SqlText)
  compile_all nil depth = pure []
  compile_all (cons f fs) depth = do
    text ← compile_inner f depth
    texts ← compile_all fs depth
    pure (text ∷ texts)

unfoldable pub compile : MetadataFilter → Action Compiler SqlText
unfolding compile_inner
compile filter = compile_inner filter 0
