-- ===== src/Projects.antt =====
-- api/projects.rs: projects, their storages and their members, and who may ask for what.
pub mod Distinct
pub mod Members
pub mod Steps
pub mod Histories
pub mod Visible
pub mod Isolated
use simply_storage.Prelude.{
  ℕ, ◌+◌, String, some, ◌&&◌, ◌||◌, List, map, ◌==◌, str_eq, if◌then◌else◌, select_where, exists,
  length, [], ◌∷◌, ◌++◌,
}
use simply_storage.Error.{AppResult, ok, err, ensure, bad_request, forbidden, ◌>>=◌, ◌>>◌}
use simply_storage.Error.Action.{Action}
use simply_storage.Db.Storage.{
  Project, Storage, ProjectStorage, find_project, find_storage, redacted,
}
use simply_storage.Db.File.{File, FileReference}
use simply_storage.Db.Project
use simply_storage.Db.Project.{CreateProject, UpdateProject, list, list_accessible}
use simply_storage.Db.ProjectStorage
use simply_storage.Db.ProjectStorage.{
  CreateProjectStorage, UpdateProjectStorage, list_available_storages,
}
use simply_storage.Db.User.{User, find_by_id}
use simply_storage.Access
use simply_storage.Access.{
  AuthenticatedUser, UserProject, is_admin, is_owner, is_member, require_owner_or_admin,
}
use simply_storage.World.{World}
use simply_storage.Storages.{sum}

pub record Membership : Type 0 where
  pub world : World
  pub members : List UserProject
  pub users : List User

-- The answer of a statement on projects, and the table that it leaves.
abbrev pub with_projects {ℓ} :
    {A : Type ℓ} → AppResult A × List Project → Membership → AppResult A × Membership
with_projects (r, projects) st = (r, record st { world = record st.world { projects = projects } })

abbrev pub with_assignments {ℓ} :
    {A : Type ℓ} → AppResult A × List ProjectStorage → Membership → AppResult A × Membership
with_assignments (r, assignments) st =
    (r, record st { world = record st.world { assignments = assignments } })

abbrev pub with_members {ℓ} :
    {A : Type ℓ} → AppResult A × List UserProject → Membership → AppResult A × Membership
with_members (r, members) st = (r, record st { members = members })

-- The id of the next row is drawn.
abbrev pub drawn : Membership → Membership
drawn st = record st { world = record st.world { next_id = st.world.next_id + 1 } }

pub record ProjectWithStats : Type 0 where
  pub project : Project
  pub file_count : ℕ
  pub total_size : ℕ

-- The sizes of the files that the project refers to, each once.
unfoldable pub project_sizes : ℕ → List FileReference → List File → List ℕ
project_sizes project_id refs [] = []
project_sizes project_id refs (f ∷ files) =
    let rest = project_sizes project_id refs files in
    if exists (λ r. r.file_id == f.id && r.project_id == project_id) refs
    then f.size ∷ rest
    else rest

-- The join of assignments and storages; the order of the answer is left out.
unfoldable pub joined : List ProjectStorage → List Storage → List (ProjectStorage × Storage)
joined [] storages = []
joined (ps ∷ rows) storages =
    map (λ s. (ps, s)) (select_where (λ s. s.id == ps.storage_id) storages) ++ joined rows storages

module _ (user : AuthenticatedUser) where
  unfoldable pub create_project : ℕ → CreateProject → Action Membership Project
  unfolding Project.create
  create_project now body st =
      with_projects (Project.create now st.world.next_id body (some user.user_id) st.world.projects)
        (drawn st)

  unfoldable pub list_projects : Membership → List Project
  unfolding list list_accessible
  list_projects st =
      if is_admin user
      then list st.world.projects
      else list_accessible user.user_id st.members st.world.projects

  -- The project, for an administrator, the owner or a member.
  unfoldable pub readable : ℕ → Membership → AppResult Project
  unfolding find_project is_member
  readable project_id st = do
    project ← find_project project_id st.world.projects
    ensure
        (is_admin user
          || is_owner user project.owner_id
          || is_member user.user_id project_id st.members)
        (forbidden "Access denied: not a member")
    ok project

  unfoldable pub get_project : ℕ → Membership → AppResult ProjectWithStats
  unfolding readable project_sizes sum
  get_project project_id st = do
    project ← readable project_id st
    let sizes = project_sizes project_id st.world.references st.world.files
    ok (record { project = project; file_count = length sizes; total_size = sum sizes })

  unfoldable pub list_project_storages :
      ℕ → Membership → AppResult (List (ProjectStorage × Storage))
  unfolding readable joined
  list_project_storages project_id st = do
    readable project_id st
    ok (
        joined (select_where (λ ps. ps.project_id == project_id) st.world.assignments)
          st.world.storages)

  -- The project, for an administrator or the owner.
  unfoldable pub owned : ℕ → Membership → AppResult Project
  unfolding find_project require_owner_or_admin
  owned project_id st = do
    project ← find_project project_id st.world.projects
    require_owner_or_admin user project.owner_id
    ok project

  unfoldable pub update_project : ℕ → UpdateProject → Action Membership Project
  unfolding owned Project.update
  update_project project_id body st = elim (owned project_id st) [
    | err e ↦ (err e, st)
    | ok _ ↦ with_projects (Project.update project_id body st.world.projects) st
  ]

  unfoldable pub delete_project : ℕ → ℕ → Action Membership (Unit {0})
  unfolding owned Project.delete
  delete_project now project_id st = elim (owned project_id st) [
    | err e ↦ (err e, st)
    | ok _ ↦ with_projects (Project.delete now project_id st.world.projects) st
  ]

  unfoldable pub assign_storage : ℕ → CreateProjectStorage → Action Membership ProjectStorage
  unfolding owned find_storage ProjectStorage.create
  assign_storage project_id body st = elim (owned project_id st) [
    | err e ↦ (err e, st)
    | ok _ ↦ elim (find_storage body.storage_id st.world.storages) [
      | err e ↦ (err e, st)
      | ok _ ↦
          with_assignments
            (ProjectStorage.create st.world.next_id project_id body st.world.assignments) (drawn st)
    ]
  ]

  unfoldable pub update_project_storage :
      ℕ → ℕ → UpdateProjectStorage → Action Membership ProjectStorage
  unfolding owned ProjectStorage.update
  update_project_storage project_id storage_id body st = elim (owned project_id st) [
    | err e ↦ (err e, st)
    | ok _ ↦
        with_assignments (ProjectStorage.update project_id storage_id body st.world.assignments) st
  ]

  unfoldable pub remove_storage_assignment : ℕ → ℕ → Action Membership (Unit {0})
  unfolding owned ProjectStorage.delete
  remove_storage_assignment project_id storage_id st = elim (owned project_id st) [
    | err e ↦ (err e, st)
    | ok _ ↦ with_assignments (ProjectStorage.delete project_id storage_id st.world.assignments) st
  ]

  unfoldable pub list_available : ℕ → Membership → AppResult (List Storage)
  unfolding owned list_available_storages
  list_available project_id st = do
    owned project_id st
    ok (map redacted (list_available_storages project_id st.world.assignments st.world.storages))

-- The requests on members are for administrators.
unfoldable pub validate_member_role : String → AppResult (Unit {0})
validate_member_role role =
    ensure (str_eq role "member" || str_eq role "writer")
      (bad_request "Invalid role '{}': must be 'member' or 'writer'")

abbrev pub check_new_member : ℕ → ℕ → String → Membership → AppResult (Unit {0})
check_new_member project_id user_id role st = do
  find_project project_id st.world.projects
  find_by_id user_id st.users
  validate_member_role role

unfoldable pub add_project_member : ℕ → ℕ → ℕ → String → Action Membership UserProject
unfolding find_project find_by_id validate_member_role Access.create
add_project_member now project_id user_id role st =
    elim (check_new_member project_id user_id role st) [
      | err e ↦ (err e, st)
      | ok _ ↦
          with_members (Access.create now st.world.next_id user_id project_id role st.members)
            (drawn st)
    ]

unfoldable pub update_project_member : ℕ → ℕ → String → Action Membership UserProject
unfolding validate_member_role Access.update_role
update_project_member project_id user_id role st = elim (validate_member_role role) [
  | err e ↦ (err e, st)
  | ok _ ↦ with_members (Access.update_role user_id project_id role st.members) st
]

unfoldable pub remove_project_member : ℕ → ℕ → Action Membership (Unit {0})
unfolding Access.delete
remove_project_member project_id user_id st =
    with_members (Access.delete user_id project_id st.members) st
