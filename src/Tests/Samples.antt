-- ===== src/Tests/Samples.antt =====
-- A project with two local storages, of which one is hot, and the answers of backends.
use simply_storage.Prelude.{ℕ, String, none, true, false, [], ◌∷◌}
use simply_storage.Error.{ok, err, internal}
use simply_storage.Json.{Members, member, no_members, string}
use simply_storage.Db.Storage.{Project, Storage, ProjectStorage}
use simply_storage.Backend.{Backend}
use simply_storage.World.{World, Env}

abbrev pub project : ℕ → String → Project
project id slug = record {
  id = id;
  slug = slug;
  hot_to_cold_days = none;
  name = "Papers";
  created_at = 0;
  owner_id = none;
  deleted_at = none;
}

abbrev pub local_config : Members
local_config = member "path" (string "/data") no_members

abbrev pub local_backend : Backend
local_backend = record { storage_type = "local"; config = local_config }

abbrev pub storage : ℕ → Storage
storage id = record {
  id = id;
  name = "disk";
  storage_type = "local";
  config = local_config;
  is_hot = true;
  project_id = none;
  enabled = true;
  supports_direct_links = false;
  created_at = id;
}

abbrev pub assigned : ℕ → ℕ → ℕ → ProjectStorage
assigned id project_id storage_id = record {
  id = id;
  project_id = project_id;
  storage_id = storage_id;
  container_override = none;
  prefix_override = none;
  is_active = true;
}

-- A project on two storages.
abbrev pub fresh_world : World
fresh_world = record {
  projects = project 1 "docs" ∷ project 2 "media" ∷ [];
  storages = storage 10 ∷ storage 20 ∷ [];
  assignments = assigned 50 1 10 ∷ assigned 51 1 20 ∷ assigned 52 2 10 ∷ [];
  files = [];
  references = [];
  locations = [];
  sync_tasks = [];
  shared_links = [];
  registry = (10, local_backend) ∷ (20, local_backend) ∷ [];
  effects = [];
  next_id = 100;
}

abbrev pub six_letters : ℕ → String
six_letters _ = "0a1b2c"

-- Backends that answer, and backends that fail.
abbrev pub answering : Env
answering = record {
  short_id = six_letters;
  client = λ _. ok tt;
  sha256 = λ _. "abcdef";
  upload = λ _ _ _. ok tt;
  download = λ _ _. ok (1 ∷ 2 ∷ []);
  delete = λ _ _. ok tt;
}

abbrev pub failing : Env
failing = record answering { upload = λ _ _ _. err (internal "disk full") }
