-- ===== src/Db/UserStorage.antt =====
-- `UserStorage` of db/models.rs: which storages an administrator has assigned to which users. The
-- pair of user and storage is unique.
use simply_storage.Prelude.{
  ℕ, Bool, ◌&&◌, List, [], ◌∷◌, ◌++◌, ◌==◌, if◌then◌else◌, select_where, delete_where, order_by,
  exists,
}
use simply_storage.Error.{AppResult, ok, err, ensure, conflict, not_found}
use simply_storage.Db.Storage.{Storage}
use simply_storage.Db.Storage.Statements.{newest_first}

pub record UserStorage : Type 0 where
  pub id : ℕ
  pub user_id : ℕ
  pub storage_id : ℕ
  pub created_at : ℕ

abbrev pub is_assignment : ℕ → ℕ → UserStorage → Bool
is_assignment user_id storage_id us = us.user_id == user_id && us.storage_id == storage_id

unfoldable pub create : ℕ → ℕ → ℕ → ℕ → List UserStorage → AppResult UserStorage × List UserStorage
create now id user_id storage_id rows =
    let us : UserStorage = record {
      id = id;
      user_id = user_id;
      storage_id = storage_id;
      created_at = now;
    } in
    if exists (is_assignment user_id storage_id) rows
    then (err (conflict "User is already assigned to this storage"), rows)
    else (ok us, rows ++ us ∷ [])

unfoldable pub delete : ℕ → ℕ → List UserStorage → AppResult (Unit {0}) × List UserStorage
delete user_id storage_id rows = (
  ensure (exists (is_assignment user_id storage_id) rows)
      (not_found "User storage assignment not found"),
  delete_where (is_assignment user_id storage_id) rows,
)

unfoldable pub is_member : ℕ → ℕ → List UserStorage → Bool
is_member user_id storage_id = exists (is_assignment user_id storage_id)

-- The join has one row for a storage.
unfoldable pub list_for_user : ℕ → List UserStorage → List Storage → List Storage
unfolding is_member
list_for_user user_id rows storages =
    order_by newest_first (select_where (λ s. is_member user_id s.id rows) storages)
