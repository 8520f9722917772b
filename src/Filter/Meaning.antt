-- ===== src/Filter/Meaning.antt =====
-- The meaning of what the compiler of metadata filters writes, in a query that binds its parameters.
use simply_storage.Prelude.{
  suc, ◌+◌, ◌≤◌, ◌≡◌, refl, ap, Bool, some, List, [], ◌∷◌, ◌++◌, arith, length, length-append, map,
}
use mathlib.Core.List.{append_assoc, map-append}
use simply_storage.Error.{ok}
use simply_storage.Json.{Value}
use simply_storage.Filter.{MetadataFilter, Filters, and, or, not, leaf, nil, cons, new, compile}
use simply_storage.Filter.Expr.{
  Expr, render, Arg, json, get_elem?, eval, eval_all, eval_any, matches, matches_all, matches_any,
}
use simply_storage.Filter.Compile.{
  height, params_of, params_of_all, expr_of, exprs_of, compile_inner-eq,
}

-- The same values as arguments of the query.
abbrev pub args_of : List Value → List Arg
args_of = map json

pub length-args_of : (vs : List Value) → length (args_of vs) ≡ length vs
length-args_of [] = refl
length-args_of (v ∷ vs) = ap suc (length-args_of vs)

pub get_elem?-append :
    (pre rest : List Arg) (a : Arg) → get_elem? (pre ++ a ∷ rest) (length pre) ≡ some a
get_elem?-append [] rest a = refl
get_elem?-append (x ∷ pre) rest a = get_elem?-append pre rest a

-- The arguments after the first filter, grouped in the two ways that the proof needs.
regroup :
    (pre post : List Arg) (xs ys : List Value)
    → (pre ++ (args_of (xs ++ ys) ++ post) ≡ pre ++ (args_of xs ++ (args_of ys ++ post)))
      × (pre ++ (args_of (xs ++ ys) ++ post) ≡ (pre ++ args_of xs) ++ (args_of ys ++ post))
regroup pre post xs ys = (simp (map-append, append_assoc), simp (map-append, append_assoc))

length_regroup :
    (pre : List Arg) (xs : List Value)
    → suc (length (pre ++ args_of xs)) ≡ suc (length pre) + length xs
length_regroup pre xs = omega (arith, length-append pre (args_of xs), length-args_of xs)

module _ (includes : Value → Value → Bool) (metadata : Value) where
  mutual
    unfolding eval matches params_of expr_of

    eval-expr_of :
        (f : MetadataFilter) (pre post : List Arg)
        → eval includes
            (pre ++ (args_of (params_of f) ++ post))
            metadata
            (expr_of f (suc (length pre)))
          ≡ some (matches includes metadata f)
    eval-expr_of (leaf key value) pre post = rw get_elem?-append
    eval-expr_of (and nil) pre post = refl
    eval-expr_of (and (cons f fs)) pre post = eval_all-exprs_of (cons f fs) pre post
    eval-expr_of (or nil) pre post = refl
    eval-expr_of (or (cons f fs)) pre post = eval_any-exprs_of (cons f fs) pre post
    eval-expr_of (not f) pre post = rw (eval-expr_of f pre post)

    eval_all-exprs_of :
        (fs : Filters) (pre post : List Arg)
        → eval_all includes
            (pre ++ (args_of (params_of_all fs) ++ post))
            metadata
            (exprs_of fs (suc (length pre)))
          ≡ some (matches_all includes metadata fs)
    eval_all-exprs_of nil pre post = refl
    eval_all-exprs_of (cons f fs) pre post = ground (
      arith,
      regroup pre post (params_of f) (params_of_all fs),
      length_regroup pre (params_of f),
      eval-expr_of f pre (args_of (params_of_all fs) ++ post),
      eval_all-exprs_of fs (pre ++ args_of (params_of f)) post,
    )

    eval_any-exprs_of :
        (fs : Filters) (pre post : List Arg)
        → eval_any includes
            (pre ++ (args_of (params_of_all fs) ++ post))
            metadata
            (exprs_of fs (suc (length pre)))
          ≡ some (matches_any includes metadata fs)
    eval_any-exprs_of nil pre post = refl
    eval_any-exprs_of (cons f fs) pre post = ground (
      arith,
      regroup pre post (params_of f) (params_of_all fs),
      length_regroup pre (params_of f),
      eval-expr_of f pre (args_of (params_of_all fs) ++ post),
      eval_any-exprs_of fs (pre ++ args_of (params_of f)) post,
    )

-- A filter of at most 32 levels compiles to the text of a condition. In any query that binds the
-- compiler's parameters right after the `pre` values bound before them, that condition has a
-- value on every row, and it is what the filter means. The compiler goes on with the next number.
pub compile_correct :
    (includes : Value → Value → Bool) (f : MetadataFilter) (pre : List Arg)
    → height f ≤ 32
    → let (text, c) = compile f (new (suc (length pre))) in
      (e : Expr) × (text ≡ ok (render e))
      × (c.next_param ≡ suc (length pre) + length c.params)
      × ((post : List Arg) (metadata : Value)
          → eval includes (pre ++ (args_of c.params ++ post)) metadata e
            ≡ some (matches includes metadata f))
unfolding compile
compile_correct includes f pre h =
    let start = suc (length pre) in
    rw (compile_inner-eq f 0 (new start) (omega arith))
      (expr_of f start, refl, refl, λ post metadata. eval-expr_of includes metadata f pre post)
