-- ===== src/Pagination/Cover.antt =====
-- The pages of `PaginationParams` (api/mod.rs), one after the other.
use native.Mathlib.Nat.{zero-add, suc-add, zero-mul, suc-mul}
use simply_storage.Prelude.{
  ℕ, zero, suc, ◌+◌, ◌-◌, ◌*◌, ◌≤◌, ◌≡◌, refl, sym, ap, ◌∙◌, some, List, [], ◌∷◌, ◌++◌, pos, arith,
  max, take, skip, max_i64,
}
use simply_storage.Pagination.{PaginationParams, limit, offset, page_of}

abbrev page_number : ℕ → PaginationParams → PaginationParams
page_number n query = record query { page = some (pos n) }

-- The pages 1 to `n`.
unfoldable pub pages {ℓ} : {A : Type ℓ} → ℕ → PaginationParams → List A → List A
unfolding page_of
pages zero query rows = []
pages (suc n) query rows = pages n query rows ++ page_of (page_number (suc n) query) rows

module _ {ℓ} {A : Type ℓ} where
  take_nil : (n : ℕ) → take n (let xs : List A = [] in xs) ≡ []
  take_nil zero = refl
  take_nil (suc n) = refl

  take-add : (m n : ℕ) (xs : List A) → take (m + n) xs ≡ take m xs ++ take n (skip m xs)
  unfolding skip
  take-add zero n xs = rw zero-add refl
  take-add (suc m) n [] = take_nil (suc m + n) ∙ sym (take_nil n)
  take-add (suc m) n (x ∷ xs) = rw suc-add (ap (λ (ys : List A). x ∷ ys) (take-add m n xs))

limit_bounds : (query : PaginationParams) → (1 ≤ limit query) × (limit query ≤ 1000)
unfolding limit
limit_bounds query = (omega arith, omega arith)

offset-page_number :
    (n : ℕ) (query : PaginationParams)
    → n * limit query ≤ max_i64
    → offset (page_number (suc n) query) ≡ n * limit query
unfolding offset limit
offset-page_number n query h =
    let e : max 1 (suc n) - 1 ≡ n = omega arith in rw e (omega (arith, h))

covered :
    {A : Type 0} (n : ℕ) (query : PaginationParams) (rows : List A)
    → n * limit query ≤ max_i64
    → pages n query rows ≡ take (n * limit query) rows
unfolding pages page_of limit
covered zero query rows h = rw zero-mul refl
covered (suc n) query rows h =
    let less : n * limit query ≤ max_i64 = omega (arith, suc-mul n (limit query), h) in
    rw (covered n query rows less, offset-page_number n query less, suc-mul)
      (sym (take-add (n * limit query) (limit query) rows))

-- Whatever size a request asks for, a page has between 1 and 1000 rows at most, and the pages 1 to
-- `n` of that size are together exactly the first rows, in order, each once, as long as the number
-- of a page times the size is a 64-bit number.
pub pages-cover :
    {A : Type 0} (n : ℕ) (query : PaginationParams) (rows : List A)
    → n * limit query ≤ max_i64
    → (1 ≤ limit query) × (limit query ≤ 1000) × (pages n query rows ≡ take (n * limit query) rows)
pages-cover n query rows h =
    ((limit_bounds query).0, (limit_bounds query).1, covered n query rows h)
