-- ===== src/World.antt =====
-- The state that the services share: the tables, the registry of backends, and the calls that have
-- changed a backend, the latest first. `next_id` stands for the generator of UUIDs.
use simply_storage.Prelude.{ℕ, ◌+◌, String, List}
use simply_storage.Error.Action.{Action}
use simply_storage.Error.{AppResult, ok}
use simply_storage.Db.Storage.{Project, Storage, ProjectStorage}
use simply_storage.Db.File.{File, FileReference}
use simply_storage.Db.Location.{FileLocation}
use simply_storage.Db.SyncTask.{SyncTask}
use simply_storage.Db.SharedLink.{SharedLink}
use simply_storage.Backend.{Backend}
use simply_storage.Backend.Registry.{Registry}

-- The bytes of a file.
abbrev pub Bytes : Type 0
Bytes = List ℕ

pub data Effect : Type 0 where
  stored : Backend → String → Bytes → Effect
  removed : Backend → String → Effect

pub record World : Type 0 where
  pub projects : List Project
  pub storages : List Storage
  pub assignments : List ProjectStorage
  pub files : List File
  pub references : List FileReference
  pub locations : List FileLocation
  pub sync_tasks : List SyncTask
  pub shared_links : List SharedLink
  pub registry : Registry
  pub effects : List Effect
  pub next_id : ℕ

-- The id of a new row.
abbrev pub fresh : Action World ℕ
fresh w = (ok w.next_id, record w { next_id = w.next_id + 1 })

-- What lies outside the repository, during one request: how an id prints its first six characters,
-- whether a backend's client can be made, SHA-256 in hexadecimal, and the answers of the backends.
pub record Env : Type 0 where
  pub short_id : ℕ → String
  pub client : Backend → AppResult (Unit {0})
  pub sha256 : Bytes → String
  pub upload : Backend → String → Bytes → AppResult (Unit {0})
  pub download : Backend → String → AppResult Bytes
  pub delete : Backend → String → AppResult (Unit {0})
