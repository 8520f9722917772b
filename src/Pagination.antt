-- ===== src/Pagination.antt =====
-- `PaginationParams` of api/mod.rs.
pub mod Cover
use simply_storage.Prelude.{
  ℕ, ◌+◌, ◌-◌, ◌*◌, ◌≤◌, ◌<◌, Option, ℤ, pos, unwrap_or, min, at_least_one, saturating, List, take,
  skip,
}

pub record PaginationParams : Type 0 where
  pub page : Option ℤ
  pub per_page : Option ℤ

unfoldable pub limit : PaginationParams → ℕ
limit query = min 1000 (at_least_one (unwrap_or query.per_page (pos 50)))

unfoldable pub offset : PaginationParams → ℕ
unfolding limit
offset query = saturating ((at_least_one (unwrap_or query.page (pos 1)) - 1) * limit query)

-- `LIMIT … OFFSET …`
unfoldable pub page_of {ℓ} : {A : Type ℓ} → PaginationParams → List A → List A
unfolding limit offset
page_of query rows = take (limit query) (skip (offset query) rows)
