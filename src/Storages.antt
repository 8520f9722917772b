-- ===== src/Storages.antt =====
-- api/storages.rs: the requests on storages. A request of an administrator keeps the registry of
-- backends in step with the table.
pub mod Members
pub mod Visible
pub mod Fit
pub mod InStep
use simply_storage.Prelude.{
  ℕ, ◌+◌, String, Option, none, some, Bool, true, false, ◌&&◌, ◌||◌, List, [], ◌∷◌, map, ◌==◌,
  if◌then◌else◌, exists, unwrap_or, length,
}
use simply_storage.Error.{AppError, AppResult, ok, err, ensure, bad_request, forbidden, ◌>>=◌, ◌>>◌}
use simply_storage.Error.Action.{Action}
use simply_storage.Db.Storage.{Storage, UpdateStorage, update, redacted, find_storage}
use simply_storage.Db.Storage.Statements.{CreateStorage, create, list, update_enabled}
use simply_storage.Db.File.{File}
use simply_storage.Db.Location.{FileLocation, is_synced}
use simply_storage.Db.UserStorage.{UserStorage, is_member, list_for_user}
use simply_storage.Backend.{Backend, create_backend}
use simply_storage.Backend.Registry.{Registry, registered, register, unregister}
use simply_storage.Access.{AuthenticatedUser, is_admin}
use simply_storage.World.{World}

module _ (client : Backend → AppResult (Unit {0})) where
  -- The backend of a row is made and registered; a failure is logged only.
  unfoldable pub register_backend : Storage → Registry → Registry
  register_backend s registry =
      registered client s.id (create_backend client s.storage_type s.config) registry

  abbrev invalid : AppResult Backend → AppResult (Unit {0})
  invalid (ok _) = ok tt
  invalid (err _) = err (bad_request "Invalid storage backend configuration: {}")

  -- Before the row is written, a backend is made from what was sent.
  abbrev pub check_config : CreateStorage → AppResult (Unit {0})
  check_config body =
      if unwrap_or body.enabled true
      then invalid (create_backend client body.storage_type body.config)
      else ok tt

  abbrev inserted : Storage × List Storage → World → AppResult Storage × World
  inserted (s, storages) w = (
    ok (redacted s),
    record w {
      storages = storages;
      registry = if s.enabled then register_backend s w.registry else w.registry;
      next_id = w.next_id + 1;
    },
  )

  unfoldable pub create_storage : ℕ → CreateStorage → Action World Storage
  unfolding create register_backend
  create_storage now body w = elim (check_config body) [
    | err e ↦ (err e, w)
    | ok _ ↦ inserted (create now w.next_id body w.storages) w
  ]

  abbrev changed : AppResult Storage × List Storage → World → AppResult Storage × World
  changed (err e, storages) w = (err e, record w { storages = storages })
  changed (ok s, storages) w = (
    ok (redacted s),
    record w {
      storages = storages;
      registry =
          if s.enabled then register_backend s w.registry else (unregister s.id w.registry).1;
    },
  )

  unfoldable pub update_storage : ℕ → UpdateStorage → Action World Storage
  unfolding update register_backend unregister
  update_storage storage_id body w = changed (update storage_id body w.storages) w

abbrev disabled : ℕ → AppResult Storage × List Storage → World → AppResult Storage × World
disabled storage_id (err e, storages) w = (err e, record w { storages = storages })
disabled storage_id (ok s, storages) w = (
  ok (redacted s),
  record w { storages = storages; registry = (unregister storage_id w.registry).1 },
)

unfoldable pub disable_storage : ℕ → Action World Storage
unfolding update_enabled unregister
disable_storage storage_id w = disabled storage_id (update_enabled storage_id false w.storages) w

pub record StorageWithStats : Type 0 where
  pub storage : Storage
  pub file_count : ℕ
  pub used_space : ℕ

-- The sizes of the synced files of a storage: the join of locations and files.
unfoldable pub synced_sizes : ℕ → List FileLocation → List File → List ℕ
synced_sizes storage_id locations [] = []
synced_sizes storage_id locations (f ∷ files) =
    let rest = synced_sizes storage_id locations files in
    if exists (λ l. l.file_id == f.id && l.storage_id == storage_id && is_synced l.status) locations
    then f.size ∷ rest
    else rest

unfoldable pub sum : List ℕ → ℕ
sum [] = 0
sum (n ∷ ns) = n + sum ns

-- The handlers read the statistics of each storage after the storages themselves.
unfoldable pub with_stats : List FileLocation → List File → Storage → StorageWithStats
unfolding synced_sizes sum
with_stats locations files s =
    let sizes = synced_sizes s.id locations files in
    record { storage = redacted s; file_count = length sizes; used_space = sum sizes }

module _ (user : AuthenticatedUser) (rows : List UserStorage) where
  unfoldable pub list_storages : World → List StorageWithStats
  unfolding list list_for_user
  list_storages w =
      map (with_stats w.locations w.files)
        (if is_admin user then list w.storages else list_for_user user.user_id rows w.storages)

  unfoldable pub get_storage : ℕ → World → AppResult StorageWithStats
  unfolding is_member
  get_storage storage_id w = do
    ensure (is_admin user || is_member user.user_id storage_id rows)
        (forbidden "Access denied: not assigned to this storage")
    storage ← find_storage storage_id w.storages
    ok (with_stats w.locations w.files storage)
