-- ===== src/Filter/Compile.antt =====
-- The compiler of metadata filters writes the condition that the filter means, numbers its
-- placeholders in the order of the values to bind, and refuses exactly what nests too deep.
use simply_storage.Prelude.{
  ℕ, suc, ◌+◌, ◌≤◌, ◌<◌, max, ◌≡◌, true, false, List, [], ◌∷◌, ◌++◌, arith, leb, length,
  length-append, Bool-cases, inl, inr, ◌↔◌,
}
use mathlib.Core.List.{append_assoc, append-nil}
use simply_storage.Error.{ok, err}
use simply_storage.Json.{Value}
use simply_storage.Filter.{
  MetadataFilter, Filters, and, or, not, leaf, nil, cons, Compiler, too_deep, singleton,
  compile_inner, compile_all, compile,
}
use simply_storage.Filter.Expr.{
  Expr, Exprs, contains, constant, all_of, any_of, negation, none_left, more, render, render_all,
}

-- The levels of a filter.
unfoldable mutual
  pub height : MetadataFilter → ℕ
  height (leaf key value) = 1
  height (and fs) = suc (height_all fs)
  height (or fs) = suc (height_all fs)
  height (not f) = suc (height f)

  pub height_all : Filters → ℕ
  height_all nil = 0
  height_all (cons f fs) = max (height f) (height_all fs)

-- The values of the leaves, from left to right.
unfoldable mutual
  pub params_of : MetadataFilter → List Value
  params_of (leaf key value) = singleton key value ∷ []
  params_of (and fs) = params_of_all fs
  params_of (or fs) = params_of_all fs
  params_of (not f) = params_of f

  pub params_of_all : Filters → List Value
  params_of_all nil = []
  params_of_all (cons f fs) = params_of f ++ params_of_all fs

abbrev pub count : MetadataFilter → ℕ
count f = length (params_of f)

-- The condition with its placeholders numbered from `start`.
unfoldable mutual
  pub expr_of : MetadataFilter → ℕ → Expr
  expr_of (leaf key value) start = contains start
  expr_of (and nil) start = constant true
  expr_of (and (cons f fs)) start = all_of (exprs_of (cons f fs) start)
  expr_of (or nil) start = constant false
  expr_of (or (cons f fs)) start = any_of (exprs_of (cons f fs) start)
  expr_of (not f) start = negation (expr_of f start)

  pub exprs_of : Filters → ℕ → Exprs
  exprs_of nil start = none_left
  exprs_of (cons f fs) start = more (expr_of f start) (exprs_of fs (start + count f))

-- The compiler after a filter whose leaves hold `values`.
abbrev pub after : Compiler → List Value → Compiler
after c values = record { next_param = c.next_param + length values; params = c.params ++ values }

after-append : (c : Compiler) (xs ys : List Value) → after (after c xs) ys ≡ after c (xs ++ ys)
after-append c xs ys = ground (arith, length-append xs ys, append_assoc c.params xs ys)

after-nil : (c : Compiler) → after c [] ≡ c
after-nil c = ground (arith, append-nil c.params)

mutual
  unfolding compile_inner height params_of expr_of render

  pub compile_inner-eq :
      (f : MetadataFilter) (depth : ℕ) (c : Compiler)
      → depth + height f ≤ 32
      → compile_inner f depth c ≡ (ok (render (expr_of f c.next_param)), after c (params_of f))
  compile_inner-eq (leaf key value) depth c h = ground arith
  compile_inner-eq (and nil) depth c h = ground (arith, after-nil c)
  compile_inner-eq (and (cons f fs)) depth c h =
      ground (arith, compile_all-eq (cons f fs) (depth + 1) c)
  compile_inner-eq (or nil) depth c h = ground (arith, after-nil c)
  compile_inner-eq (or (cons f fs)) depth c h =
      ground (arith, compile_all-eq (cons f fs) (depth + 1) c)
  compile_inner-eq (not f) depth c h = ground (arith, compile_inner-eq f (depth + 1) c)

  compile_all-eq :
      (fs : Filters) (depth : ℕ) (c : Compiler)
      → depth + height_all fs ≤ 32
      → compile_all fs depth c
        ≡ (ok (render_all (exprs_of fs c.next_param)), after c (params_of_all fs))
  compile_all-eq nil depth c h = ground (arith, after-nil c)
  compile_all-eq (cons f fs) depth c h = ground (
    arith,
    compile_inner-eq f depth c,
    compile_all-eq fs depth (after c (params_of f)),
    after-append c (params_of f) (params_of_all fs),
  )

mutual
  unfolding compile_inner height params_of expr_of render

  compile_inner_deep :
      (f : MetadataFilter) (depth : ℕ) (c : Compiler)
      → 32 < depth + height f
      → (compile_inner f depth c).0 ≡ err too_deep
  compile_inner_deep (leaf key value) depth c h = ground arith
  compile_inner_deep (and nil) depth c h = ground arith
  compile_inner_deep (and (cons f fs)) depth c h =
      ground (arith, compile_all_deep (cons f fs) (depth + 1) c)
  compile_inner_deep (or nil) depth c h = ground arith
  compile_inner_deep (or (cons f fs)) depth c h =
      ground (arith, compile_all_deep (cons f fs) (depth + 1) c)
  compile_inner_deep (not f) depth c h = ground (arith, compile_inner_deep f (depth + 1) c)

  compile_all_deep :
      (fs : Filters) (depth : ℕ) (c : Compiler)
      → depth ≤ 32
      → 32 < depth + height_all fs
      → (compile_all fs depth c).0 ≡ err too_deep
  compile_all_deep nil depth c h k = absurd (omega arith)
  compile_all_deep (cons f fs) depth c h k = elim (Bool-cases (leb (depth + height f) 32)) [
    | inl shallow ↦
        ground
          (arith, compile_inner-eq f depth c, compile_all_deep fs depth (after c (params_of f)))
    | inr deep ↦ ground (arith, compile_inner_deep f depth c)
  ]

-- The compiler fails exactly on the filters of more than 32 levels, with a bad request.
pub compile-too_deep :
    (f : MetadataFilter) (c : Compiler) → ((compile f c).0 ≡ err too_deep) ↔ (32 < height f)
unfolding compile
compile-too_deep f c = elim (Bool-cases (leb (height f) 32)) [
  | inl shallow ↦ ((λ e. ground (arith, compile_inner-eq f 0 c)), (λ h. absurd (ground arith)))
  | inr deep ↦ ((λ e. ground arith), (λ h. compile_inner_deep f 0 c (omega arith)))
]
