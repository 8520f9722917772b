-- ===== src/Db/ProjectStorage.antt =====
-- The statements on the assignments of storages to projects of db/models.rs. The pair of project
-- and storage is unique.
use simply_storage.Prelude.{
  ℕ, String, Option, none, some, Bool, true, ◌&&◌, not, List, [], ◌∷◌, ◌++◌, ◌==◌, if◌then◌else◌,
  select_where, update_where, delete_where, find, exists, unwrap_or,
}
use simply_storage.Error.{AppResult, ok, err, ensure, not_found, database, unique_violation}
use simply_storage.Db.Storage.{Storage, ProjectStorage}

pub record CreateProjectStorage : Type 0 where
  pub storage_id : ℕ
  pub container_override : Option String
  pub prefix_override : Option String

pub record UpdateProjectStorage : Type 0 where
  pub container_override : Option (Option String)
  pub prefix_override : Option (Option String)
  pub is_active : Option Bool

abbrev pub is_pair : ℕ → ℕ → ProjectStorage → Bool
is_pair project_id storage_id ps = ps.project_id == project_id && ps.storage_id == storage_id

abbrev pub new_assignment : ℕ → ℕ → CreateProjectStorage → ProjectStorage
new_assignment id project_id input = record {
  id = id;
  project_id = project_id;
  storage_id = input.storage_id;
  container_override = input.container_override;
  prefix_override = input.prefix_override;
  is_active = true;
}

unfoldable pub create :
    ℕ
    → ℕ
    → CreateProjectStorage
    → List ProjectStorage
    → AppResult ProjectStorage × List ProjectStorage
create id project_id input rows =
    if exists (is_pair project_id input.storage_id) rows
    then (err (database unique_violation), rows)
    else (ok (new_assignment id project_id input), rows ++ new_assignment id project_id input ∷ [])

abbrev pub changed : UpdateProjectStorage → ProjectStorage → ProjectStorage
changed input current = record current {
  container_override = unwrap_or input.container_override current.container_override;
  prefix_override = unwrap_or input.prefix_override current.prefix_override;
  is_active = unwrap_or input.is_active current.is_active;
}

abbrev pub set_columns : ProjectStorage → ProjectStorage → ProjectStorage
set_columns row ps = record ps {
  container_override = row.container_override;
  prefix_override = row.prefix_override;
  is_active = row.is_active;
}

unfoldable pub update :
    ℕ
    → ℕ
    → UpdateProjectStorage
    → List ProjectStorage
    → AppResult ProjectStorage × List ProjectStorage
update project_id storage_id input rows = elim (find (is_pair project_id storage_id) rows) [
  | none ↦ (err (not_found "Project storage assignment not found"), rows)
  | some current ↦ (
    ok (changed input current),
    update_where (is_pair project_id storage_id) (set_columns (changed input current)) rows,
  )
]

unfoldable pub delete : ℕ → ℕ → List ProjectStorage → AppResult (Unit {0}) × List ProjectStorage
delete project_id storage_id rows = (
  ensure (exists (is_pair project_id storage_id) rows)
      (not_found "Project storage assignment not found"),
  delete_where (is_pair project_id storage_id) rows,
)

-- Enabled storages without an assignment to the project; the order by name is left out.
unfoldable pub list_available_storages : ℕ → List ProjectStorage → List Storage → List Storage
list_available_storages project_id rows storages =
    select_where (λ s. s.enabled && not (exists (is_pair project_id s.id) rows)) storages
