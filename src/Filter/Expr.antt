-- ===== src/Filter/Expr.antt =====
-- The SQL conditions that the compiler writes, as expressions: their text, and their value on a
-- row, given the values bound to the placeholders $1, $2, ….
use simply_storage.Prelude.{
  ℕ, zero, suc, Option, none, some, Bool, true, false, List, [], ◌∷◌, ◌++◌, ◌&&◌, ◌||◌,
  if◌then◌else◌,
}
use mathlib.Core.Option
use mathlib.Core.Bool
use simply_storage.Json.{Value}
use simply_storage.Filter.{
  SqlText, lit, index, sql, join, parenthesised, MetadataFilter, Filters, and, or, not, leaf, nil,
  cons, singleton,
}

mutual
  pub data Expr : Type 0 where
    contains : ℕ → Expr
    constant : Bool → Expr
    all_of : Exprs → Expr
    any_of : Exprs → Expr
    negation : Expr → Expr

  pub data Exprs : Type 0 where
    none_left : Exprs
    more : Expr → Exprs → Exprs

unfoldable mutual
  pub render : Expr → SqlText
  render (contains i) = lit "metadata @> $" ∷ index i ∷ lit "::jsonb" ∷ []
  render (constant b) = sql (if b then "TRUE" else "FALSE")
  render (all_of es) = parenthesised (join " AND " (render_all es))
  render (any_of es) = parenthesised (join " OR " (render_all es))
  render (negation e) = lit "NOT (" ∷ (render e ++ lit ")" ∷ [])

  pub render_all : Exprs → List SqlText
  render_all none_left = []
  render_all (more e es) = render e ∷ render_all es

-- A value bound to a placeholder: a JSONB value, a number (a size or a time), or a UUID.
pub data Arg : Type 0 where
  json : Value → Arg
  number : ℕ → Arg
  uuid : ℕ → Arg

-- The value bound to $i; the first placeholder is $1.
abbrev pub get_elem? : List Arg → ℕ → Option Arg
get_elem? [] i = none
get_elem? (v ∷ vs) zero = some v
get_elem? (v ∷ vs) (suc i) = get_elem? vs i

abbrev pub bound : List Arg → ℕ → Option Arg
bound args zero = none
bound args (suc i) = get_elem? args i

abbrev pub as_json : Option Arg → Option Value
as_json (some (json v)) = some v
as_json _ = none

abbrev pub as_number : Option Arg → Option ℕ
as_number (some (number n)) = some n
as_number _ = none

abbrev pub both : Option Bool → Option Bool → Option Bool
both (some a) (some b) = some (a && b)
both _ _ = none

abbrev pub either : Option Bool → Option Bool → Option Bool
either (some a) (some b) = some (a || b)
either _ _ = none

-- `@>` is PostgreSQL's; a condition has no value when one of its placeholders is not bound.
module _ (includes : Value → Value → Bool) where
  unfoldable mutual
    pub eval : List Arg → Value → Expr → Option Bool
    eval args metadata (contains i) = Option.map (includes metadata) (as_json (bound args i))
    eval args metadata (constant b) = some b
    eval args metadata (all_of es) = eval_all args metadata es
    eval args metadata (any_of es) = eval_any args metadata es
    eval args metadata (negation e) = Option.map Bool.not (eval args metadata e)

    pub eval_all : List Arg → Value → Exprs → Option Bool
    eval_all args metadata none_left = some true
    eval_all args metadata (more e es) = both (eval args metadata e) (eval_all args metadata es)

    pub eval_any : List Arg → Value → Exprs → Option Bool
    eval_any args metadata none_left = some false
    eval_any args metadata (more e es) = either (eval args metadata e) (eval_any args metadata es)

  -- What a filter means: the specification of the compiler.
  unfoldable mutual
    pub matches : Value → MetadataFilter → Bool
    matches metadata (leaf key value) = includes metadata (singleton key value)
    matches metadata (and fs) = matches_all metadata fs
    matches metadata (or fs) = matches_any metadata fs
    matches metadata (not f) = Bool.not (matches metadata f)

    pub matches_all : Value → Filters → Bool
    matches_all metadata nil = true
    matches_all metadata (cons f fs) = matches metadata f && matches_all metadata fs

    pub matches_any : Value → Filters → Bool
    matches_any metadata nil = false
    matches_any metadata (cons f fs) = matches metadata f || matches_any metadata fs
