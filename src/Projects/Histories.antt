-- ===== src/Projects/Histories.antt =====
-- Histories of requests to api/projects.rs: what the tables keep, and what a user who is neither an
-- administrator nor the owner can change.
use simply_storage.Prelude.{ℕ, String, List, [], ◌∷◌}
use simply_storage.Db.Project.{CreateProject, UpdateProject}
use simply_storage.Db.ProjectStorage.{CreateProjectStorage, UpdateProjectStorage}
use simply_storage.Access.{AuthenticatedUser}
use simply_storage.Projects.{
  Membership, create_project, update_project, delete_project, assign_storage,
  update_project_storage, remove_storage_assignment, add_project_member, update_project_member,
  remove_project_member,
}
use simply_storage.Projects.Steps.{
  IsValid, create_project-IsValid, update_project-IsValid, delete_project-IsValid,
  assign_storage-IsValid, update_project_storage-IsValid, remove_storage_assignment-IsValid,
  add_project_member-IsValid, update_project_member-IsValid, remove_project_member-IsValid,
}

-- A request on a project, by a user.
pub data ProjectRequest : Type 0 where
  creates : (now : ℕ) → CreateProject → ProjectRequest
  updates : ℕ → UpdateProject → ProjectRequest
  deletes : (now project_id : ℕ) → ProjectRequest
  assigns : ℕ → CreateProjectStorage → ProjectRequest
  reassigns : (project_id storage_id : ℕ) → UpdateProjectStorage → ProjectRequest
  unassigns : (project_id storage_id : ℕ) → ProjectRequest

-- A request on members, by an administrator.
pub data MemberRequest : Type 0 where
  adds : (now project_id user_id : ℕ) → (role : String) → MemberRequest
  changes : (project_id user_id : ℕ) → (role : String) → MemberRequest
  removes : (project_id user_id : ℕ) → MemberRequest

unfoldable pub after_project_request : AuthenticatedUser → ProjectRequest → Membership → Membership
after_project_request user (creates now body) st = (create_project user now body st).1
after_project_request user (updates id body) st = (update_project user id body st).1
after_project_request user (deletes now id) st = (delete_project user now id st).1
after_project_request user (assigns id body) st = (assign_storage user id body st).1
after_project_request user (reassigns id storage_id body) st =
    (update_project_storage user id storage_id body st).1
after_project_request user (unassigns id storage_id) st =
    (remove_storage_assignment user id storage_id st).1

unfoldable pub after_member_request : MemberRequest → Membership → Membership
after_member_request (adds now project_id user_id role) st =
    (add_project_member now project_id user_id role st).1
after_member_request (changes project_id user_id role) st =
    (update_project_member project_id user_id role st).1
after_member_request (removes project_id user_id) st =
    (remove_project_member project_id user_id st).1

pub data Request : Type 0 where
  on_project : AuthenticatedUser → ProjectRequest → Request
  on_members : MemberRequest → Request

unfoldable pub after : List Request → Membership → Membership
unfolding after_project_request after_member_request
after [] st = st
after (on_project user r ∷ rs) st = after rs (after_project_request user r st)
after (on_members r ∷ rs) st = after rs (after_member_request r st)

project_request-IsValid :
    (user : AuthenticatedUser) (r : ProjectRequest) (st : Membership)
    → IsValid st
    → IsValid (after_project_request user r st)
unfolding after_project_request
project_request-IsValid user (creates now body) st v = create_project-IsValid user now body st v
project_request-IsValid user (updates id body) st v = update_project-IsValid user id body st v
project_request-IsValid user (deletes now id) st v = delete_project-IsValid user now id st v
project_request-IsValid user (assigns id body) st v = assign_storage-IsValid user id body st v
project_request-IsValid user (reassigns id storage_id body) st v =
    update_project_storage-IsValid user id storage_id body st v
project_request-IsValid user (unassigns id storage_id) st v =
    remove_storage_assignment-IsValid user id storage_id st v

member_request-IsValid :
    (r : MemberRequest) (st : Membership) → IsValid st → IsValid (after_member_request r st)
unfolding after_member_request
member_request-IsValid (adds now project_id user_id role) st v =
    add_project_member-IsValid now project_id user_id role st v
member_request-IsValid (changes project_id user_id role) st v =
    update_project_member-IsValid project_id user_id role st v
member_request-IsValid (removes project_id user_id) st v =
    remove_project_member-IsValid project_id user_id st v

-- Whatever users ask for, no two projects have one slug or one id, deleted ones included, no storage
-- is assigned twice to a project, no user is twice a member of one, and every member is a member or
-- a writer.
pub requests-IsValid : (rs : List Request) (st : Membership) → IsValid st → IsValid (after rs st)
unfolding after
requests-IsValid [] st v = v
requests-IsValid (on_project user r ∷ rs) st v =
    requests-IsValid rs _ (project_request-IsValid user r st v)
requests-IsValid (on_members r ∷ rs) st v = requests-IsValid rs _ (member_request-IsValid r st v)
