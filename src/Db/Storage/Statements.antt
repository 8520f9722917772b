-- ===== src/Db/Storage/Statements.antt =====
-- The statements on storages of db/models.rs that the administration of storages sends.
use simply_storage.Prelude.{
  ℕ, String, Option, Bool, true, false, List, ◌∷◌, ◌==◌, leb, find, update_where, order_by,
  unwrap_or,
}
use simply_storage.Error.{AppResult, ok_or, not_found}
use simply_storage.Json.{Members}
use simply_storage.Db.Storage.{Storage}

pub record CreateStorage : Type 0 where
  pub name : String
  pub storage_type : String
  pub config : Members
  pub is_hot : Option Bool
  pub project_id : Option ℕ
  pub enabled : Option Bool
  pub supports_direct_links : Option Bool

abbrev pub new_storage : ℕ → ℕ → CreateStorage → Storage
new_storage now id input = record {
  id = id;
  name = input.name;
  storage_type = input.storage_type;
  config = input.config;
  is_hot = unwrap_or input.is_hot true;
  project_id = input.project_id;
  enabled = unwrap_or input.enabled true;
  supports_direct_links = unwrap_or input.supports_direct_links false;
  created_at = now;
}

-- The row, and the table with it.
unfoldable pub create : ℕ → ℕ → CreateStorage → List Storage → Storage × List Storage
create now id input storages = (new_storage now id input, new_storage now id input ∷ storages)

-- `ORDER BY created_at DESC`
abbrev pub newest_first : Storage → Storage → Bool
newest_first s t = leb t.created_at s.created_at

unfoldable pub list : List Storage → List Storage
list = order_by newest_first

abbrev pub has_id : ℕ → Storage → Bool
has_id id s = s.id == id

abbrev pub with_enabled : Bool → Storage → Storage
with_enabled enabled s = record s { enabled = enabled }

unfoldable pub update_enabled : ℕ → Bool → List Storage → AppResult Storage × List Storage
update_enabled id enabled storages =
    let storages' = update_where (has_id id) (with_enabled enabled) storages in
    (ok_or (find (has_id id) storages') (not_found "Storage {} not found"), storages')
