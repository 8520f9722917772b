-- ===== src/Access.antt =====
-- Who may read and write projects and files: `AuthenticatedUser` of api/auth.rs, `UserProject` of
-- db/models.rs, and the checks of api/files.rs and api/shared_links.rs.
pub mod Agreement
use simply_storage.Prelude.{
  ℕ, String, Option, none, some, Bool, true, false, ◌&&◌, ◌||◌, not, List, [], ◌∷◌, ◌++◌, ◌==◌,
  str_eq, if◌then◌else◌, find, exists, update_where, delete_where, is_some,
}
use simply_storage.Error.{AppResult, ok, err, ok_or, ensure, forbidden, conflict, not_found}
use simply_storage.Db.Storage.{Project}
use simply_storage.Db.File.{FileReference}

pub record AuthenticatedUser : Type 0 where
  pub user_id : ℕ
  pub role : String

abbrev pub is_admin : AuthenticatedUser → Bool
is_admin user = str_eq user.role "admin"

abbrev pub is_owner : AuthenticatedUser → Option ℕ → Bool
is_owner user none = false
is_owner user (some owner_id) = owner_id == user.user_id

unfoldable pub require_admin : AuthenticatedUser → AppResult (Unit {0})
require_admin user = ensure (is_admin user) (forbidden "Admin access required")

unfoldable pub require_owner_or_admin : AuthenticatedUser → Option ℕ → AppResult (Unit {0})
require_owner_or_admin user owner_id =
    ensure (is_admin user || is_owner user owner_id) (forbidden "Access denied: not the owner")

pub record UserProject : Type 0 where
  pub id : ℕ
  pub user_id : ℕ
  pub project_id : ℕ
  pub role : String
  pub created_at : ℕ

abbrev pub is_membership : ℕ → ℕ → UserProject → Bool
is_membership user_id project_id up = up.user_id == user_id && up.project_id == project_id

-- The pair of user and project is unique.
unfoldable pub create :
    ℕ → ℕ → ℕ → ℕ → String → List UserProject → AppResult UserProject × List UserProject
create now id user_id project_id role members =
    let up : UserProject = record {
      id = id;
      user_id = user_id;
      project_id = project_id;
      role = role;
      created_at = now;
    } in
    if exists (is_membership user_id project_id) members
    then (err (conflict "User is already assigned to this project"), members)
    else (ok up, members ++ up ∷ [])

unfoldable pub delete : ℕ → ℕ → List UserProject → AppResult (Unit {0}) × List UserProject
delete user_id project_id members = (
  ensure (exists (is_membership user_id project_id) members)
      (not_found "User project assignment not found"),
  delete_where (is_membership user_id project_id) members,
)

unfoldable pub update_role :
    ℕ → ℕ → String → List UserProject → AppResult UserProject × List UserProject
update_role user_id project_id role members =
    let members' =
      update_where (is_membership user_id project_id) (λ up. record up { role = role }) members in
    (
      ok_or (find (is_membership user_id project_id) members')
          (not_found "User project assignment not found"),
      members',
    )

abbrev pub role_of : Option UserProject → Option String
role_of none = none
role_of (some up) = some up.role

unfoldable pub get_role : ℕ → ℕ → List UserProject → Option String
get_role user_id project_id members = role_of (find (is_membership user_id project_id) members)

unfoldable pub is_member : ℕ → ℕ → List UserProject → Bool
is_member user_id project_id = exists (is_membership user_id project_id)

abbrev pub is_writer : Option String → Bool
is_writer none = false
is_writer (some role) = str_eq role "writer"

module _ (members : List UserProject) (user : AuthenticatedUser) where
  -- `check_project_access` of api/shared_links.rs
  unfoldable pub check_project_access : Project → AppResult (Unit {0})
  unfolding is_member
  check_project_access project =
      if is_admin user || is_owner user project.owner_id
      then ok tt
      else ensure (is_member user.user_id project.id members)
          (forbidden "Access denied: not a project member")

  unfoldable pub require_project_write_access : Project → AppResult (Unit {0})
  unfolding get_role
  require_project_write_access project =
      if is_admin user || is_owner user project.owner_id
      then ok tt
      else ensure (is_writer (get_role user.user_id project.id members))
          (forbidden "Access denied: writer, owner, or admin access required")

  -- The join of the file's references with the projects that are not deleted.
  abbrev pub in_project : List Project → List FileReference → ℕ → (Project → Bool) → Bool
  in_project projects refs file_id p =
      exists
        (λ r.
          r.file_id == file_id
          && exists (λ q. q.id == r.project_id && not (is_some q.deleted_at) && p q) projects)
        refs

  unfoldable pub check_file_access : List Project → List FileReference → ℕ → AppResult (Unit {0})
  check_file_access projects refs file_id =
      if is_admin user
      then ok tt
      else ensure
          (in_project projects refs file_id
            (λ p. is_owner user p.owner_id || exists (is_membership user.user_id p.id) members))
          (forbidden "Access denied: not a member")

  unfoldable pub check_file_write_access :
      List Project → List FileReference → ℕ → AppResult (Unit {0})
  check_file_write_access projects refs file_id =
      if is_admin user
      then ok tt
      else ensure
          (in_project projects refs file_id (λ p.
            is_owner user p.owner_id
            || exists (λ up. is_membership user.user_id p.id up && str_eq up.role "writer")
                members))
          (forbidden "Access denied: writer, owner, or admin required")
