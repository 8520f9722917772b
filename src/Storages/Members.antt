-- ===== src/Storages/Members.antt =====
-- api/storages.rs: the files, the containers and the members of a storage, for administrators.
use simply_storage.Prelude.{ℕ, String, Bool, List, ◌==◌, leb, select_where, order_by}
use simply_storage.Error.{AppResult, ok, err, ensure, bad_request, ◌>>=◌, ◌>>◌}
use simply_storage.Db.Storage.{find_storage}
use simply_storage.Db.Location.{FileLocation}
use simply_storage.Db.User.{User, find_by_id}
use simply_storage.Db.UserStorage
use simply_storage.Db.UserStorage.{UserStorage}
use simply_storage.Backend.{Backend}
use simply_storage.Backend.Registry.{get}
use simply_storage.Pagination.{PaginationParams, page_of}
use simply_storage.World.{World}

unfoldable pub list_storage_files : ℕ → PaginationParams → World → AppResult (List FileLocation)
unfolding find_storage page_of
list_storage_files storage_id query w = do
  find_storage storage_id w.storages
  ok (
      page_of query (
        order_by (λ k l. leb l.created_at k.created_at)
          (select_where (λ l. l.storage_id == storage_id) w.locations)))

-- What the client of a backend answers about containers.
pub record ContainerClient : Type 0 where
  pub supports_containers : Backend → Bool
  pub list_containers : Backend → AppResult (List String)
  pub create_container : Backend → String → AppResult (Unit {0})

unfoldable pub list_storage_containers : ContainerClient → ℕ → World → AppResult (List String)
unfolding find_storage get
list_storage_containers client storage_id w = do
  find_storage storage_id w.storages
  backend ← get storage_id w.registry
  ensure (client.supports_containers backend)
      (bad_request "This storage backend does not support container listing")
  client.list_containers backend

unfoldable pub create_storage_container : ContainerClient → ℕ → String → World → AppResult String
unfolding find_storage get
create_storage_container client storage_id name w = do
  find_storage storage_id w.storages
  backend ← get storage_id w.registry
  client.create_container backend name
  ok name

-- The storage and the user are there.
abbrev check_member : ℕ → ℕ → List User → World → AppResult (Unit {0})
check_member storage_id user_id users w = do
  find_storage storage_id w.storages
  find_by_id user_id users
  ok tt

unfoldable pub add_storage_member :
    ℕ → ℕ → ℕ → ℕ → List User → World → List UserStorage → AppResult UserStorage × List UserStorage
unfolding find_storage find_by_id UserStorage.create
add_storage_member now id storage_id user_id users w rows =
    elim (check_member storage_id user_id users w) [
      | err e ↦ (err e, rows)
      | ok _ ↦ UserStorage.create now id user_id storage_id rows
    ]

unfoldable pub remove_storage_member :
    ℕ → ℕ → List UserStorage → AppResult (Unit {0}) × List UserStorage
unfolding UserStorage.delete
remove_storage_member storage_id user_id rows = UserStorage.delete user_id storage_id rows
