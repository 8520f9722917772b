-- ===== src/Backup/Pages.antt =====
-- The pages of `list_backups` of api/backups.rs.
use native.Mathlib.Nat.{lt-div-mul-add, div-mul-le_self}
use simply_storage.Prelude.{
  ℕ, ◌+◌, ◌-◌, ◌*◌, ◌/◌, ◌≤◌, ◌<◌, Option, arith, min, length, skip, length-take, ℤ, pos,
  at_least_one, saturating, unwrap_or, select_where, order_by,
}
use simply_storage.Db.BackupRecord.{BackupRecord, newest_first, matches}
use simply_storage.Db.BackupRecord
use simply_storage.Backup.{Backups}
use simply_storage.Backup.Routes.{list_backups}

-- Rounding a quotient up.
ceil_div :
    (total limit : ℕ)
    → 1 ≤ limit
    → (total ≤ (total + limit - 1) / limit * limit)
      × ((total + limit - 1) / limit * limit < total + limit)
ceil_div total limit h =
    let above : total + limit - 1 < (total + limit - 1) / limit * limit + limit =
      lt-div-mul-add h in
    let below = div-mul-le_self (total + limit - 1) limit in
    (omega (arith, h, above), omega (arith, h, below))

page_size : (n : ℕ) → 1 ≤ n → (1 ≤ min 500 n) × (min 500 n ≤ 500)
page_size n h = (omega (arith, h), omega arith)

-- A page has at most 500 rows and at most as many as it says, whatever the request asks for; its
-- number and its size are at least 1; and the pages that are announced hold all rows with less than
-- a page to spare.
pub list_backups-bounds :
    (config_id : Option ℕ) (page per_page : Option ℤ) (st : Backups)
    → let response = list_backups config_id page per_page st in
      (length response.records ≤ response.per_page)
      × (1 ≤ response.per_page)
      × (response.per_page ≤ 500)
      × (1 ≤ response.page)
      × (response.total ≤ response.total_pages * response.per_page)
      × (response.total_pages * response.per_page < response.total + response.per_page)
unfolding list_backups BackupRecord.list
list_backups-bounds config_id page per_page st =
    let asked = at_least_one (unwrap_or per_page (pos 50)) in
    let (one, most) = page_size asked (omega arith) in
    let pages = ceil_div (BackupRecord.count config_id st.history) (min 500 asked) one in
    let rows =
      skip (saturating ((at_least_one (unwrap_or page (pos 1)) - 1) * min 500 asked))
        (order_by newest_first (select_where (matches config_id) st.history)) in
    (omega (arith, length-take (min 500 asked) rows), one, most, omega arith, pages.0, pages.1)
