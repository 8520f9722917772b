-- ===== src/Projects/Steps.antt =====
-- Each request of api/projects.rs keeps what the tables promise.
use simply_storage.Prelude.{
  ℕ, ◌<◌, ◌≡◌, String, arith, eq_iff, ◌⊎◌, inl, inr, str_eq, count_none, All, All-update_where,
  All-imp, Bool-cases,
}
use simply_storage.Error.{ok, Result-cases}
use simply_storage.Db.Storage.{Project, find_storage}
use simply_storage.Db.Project
use simply_storage.Db.Project.{CreateProject, UpdateProject, has_id}
use simply_storage.Db.ProjectStorage.{CreateProjectStorage, UpdateProjectStorage}
use simply_storage.Access.{AuthenticatedUser}
use simply_storage.Projects.{
  Membership, owned, create_project, update_project, delete_project, assign_storage,
  update_project_storage, remove_storage_assignment, validate_member_role, check_new_member,
  add_project_member, update_project_member, remove_project_member,
}
use simply_storage.Projects.Distinct.{
  create-AreBelow, update-AreBelow, DistinctProjects, DistinctPairs, create-DistinctProjects,
  update-DistinctProjects, delete-DistinctProjects, create-DistinctPairs, update-DistinctPairs,
  delete-DistinctPairs,
}
use simply_storage.Projects.Members.{
  GoodMembers, create-GoodMembers, update_role-GoodMembers, delete-GoodMembers,
}

pub record IsValid (st : Membership) : Type 0 where
  pub below : All (λ (p : Project). p.id < st.world.next_id) st.world.projects
  pub projects : DistinctProjects st.world.projects
  pub pairs : DistinctPairs st.world.assignments
  pub members : GoodMembers st.members

pub update_project-IsValid :
    (user : AuthenticatedUser) (id : ℕ) (body : UpdateProject) (st : Membership)
    → IsValid st
    → IsValid (update_project user id body st).1
unfolding update_project
update_project-IsValid user id body st v = elim (Result-cases (owned user id st)) [
  | inr (x, e) ↦ rw (e, update_project) v
  | inl (p, e) ↦
      rw (e, update_project)
        (record {
          below = update-AreBelow st.world.next_id id body st.world.projects v.below;
          projects = update-DistinctProjects id body st.world.projects v.projects;
          pairs = v.pairs;
          members = v.members;
        })
]

pub delete_project-IsValid :
    (user : AuthenticatedUser) (now id : ℕ) (st : Membership)
    → IsValid st
    → IsValid (delete_project user now id st).1
unfolding delete_project Project.delete
delete_project-IsValid user now id st v = elim (Result-cases (owned user id st)) [
  | inr (x, e) ↦ rw (e, delete_project) v
  | inl (p, e) ↦
      rw (e, delete_project)
        (record {
          below =
              All-update_where (λ (p : Project). p.id < st.world.next_id) _ _ st.world.projects
                (λ p b. b) v.below;
          projects = delete-DistinctProjects now id st.world.projects v.projects;
          pairs = v.pairs;
          members = v.members;
        })
]

pub update_project_storage-IsValid :
    (user : AuthenticatedUser) (id storage_id : ℕ) (body : UpdateProjectStorage) (st : Membership)
    → IsValid st
    → IsValid (update_project_storage user id storage_id body st).1
unfolding update_project_storage
update_project_storage-IsValid user id storage_id body st v =
    elim (Result-cases (owned user id st)) [
      | inr (x, e) ↦ rw (e, update_project_storage) v
      | inl (p, e) ↦
          rw (e, update_project_storage)
            (record {
              pairs = update-DistinctPairs id storage_id body st.world.assignments v.pairs;
              below = v.below;
              projects = v.projects;
              members = v.members;
            })
    ]

pub remove_storage_assignment-IsValid :
    (user : AuthenticatedUser) (id storage_id : ℕ) (st : Membership)
    → IsValid st
    → IsValid (remove_storage_assignment user id storage_id st).1
unfolding remove_storage_assignment
remove_storage_assignment-IsValid user id storage_id st v = elim (Result-cases (owned user id st)) [
  | inr (x, e) ↦ rw (e, remove_storage_assignment) v
  | inl (p, e) ↦
      rw (e, remove_storage_assignment)
        (record {
          pairs = delete-DistinctPairs id storage_id st.world.assignments v.pairs;
          below = v.below;
          projects = v.projects;
          members = v.members;
        })
]

pub assign_storage-IsValid :
    (user : AuthenticatedUser) (id : ℕ) (body : CreateProjectStorage) (st : Membership)
    → IsValid st
    → IsValid (assign_storage user id body st).1
unfolding assign_storage
assign_storage-IsValid user id body st v = elim (Result-cases (owned user id st)) [
  | inr (x, e) ↦ rw (e, assign_storage) v
  | inl (p, e) ↦ elim (Result-cases (find_storage body.storage_id st.world.storages)) [
    | inr (x, f) ↦ rw (e, f, assign_storage) v
    | inl (s, f) ↦
        rw (e, f, assign_storage)
          (record {
            below = All-imp (λ (p : Project) b. omega (arith, b)) st.world.projects v.below;
            pairs = create-DistinctPairs st.world.next_id id body st.world.assignments v.pairs;
            projects = v.projects;
            members = v.members;
          })
  ]
]

pub create_project-IsValid :
    (user : AuthenticatedUser) (now : ℕ) (body : CreateProject) (st : Membership)
    → IsValid st
    → IsValid (create_project user now body st).1
unfolding create_project
create_project-IsValid user now body st v = record {
  below = create-AreBelow now st.world.next_id body _ st.world.projects v.below;
  projects =
      create-DistinctProjects now st.world.next_id body _ st.world.projects
        (count_none (has_id st.world.next_id) st.world.projects
          (All-imp (λ (p : Project) b. ground (arith, b)) st.world.projects v.below))
        v.projects;
  pairs = v.pairs;
  members = v.members;
}

valid_role :
    (role : String) (u : Unit {0})
    → validate_member_role role ≡ ok u
    → (role ≡ "member") ⊎ (role ≡ "writer")
unfolding validate_member_role
valid_role role u h = elim (Bool-cases (str_eq role "member")) [
  | inl e ↦ inl (ground (arith, e, eq_iff role "member"))
  | inr e ↦ inr (ground (arith, e, h, eq_iff role "writer"))
]

new_member_role :
    (project_id user_id : ℕ) (role : String) (st : Membership) (u : Unit {0})
    → check_new_member project_id user_id role st ≡ ok u
    → validate_member_role role ≡ ok u
new_member_role project_id user_id role st u h = ground (arith, h)

pub add_project_member-IsValid :
    (now project_id user_id : ℕ) (role : String) (st : Membership)
    → IsValid st
    → IsValid (add_project_member now project_id user_id role st).1
unfolding add_project_member
add_project_member-IsValid now project_id user_id role st v =
    elim (Result-cases (check_new_member project_id user_id role st)) [
      | inr (x, e) ↦ rw (e, add_project_member) v
      | inl (u, e) ↦
          rw (e, add_project_member)
            (record {
              below = All-imp (λ (p : Project) b. omega (arith, b)) st.world.projects v.below;
              projects = v.projects;
              pairs = v.pairs;
              members =
                  create-GoodMembers now st.world.next_id user_id project_id role st.members
                    (valid_role role u (new_member_role project_id user_id role st u e)) v.members;
            })
    ]

pub update_project_member-IsValid :
    (project_id user_id : ℕ) (role : String) (st : Membership)
    → IsValid st
    → IsValid (update_project_member project_id user_id role st).1
unfolding update_project_member
update_project_member-IsValid project_id user_id role st v =
    elim (Result-cases (validate_member_role role)) [
      | inr (x, e) ↦ rw (e, update_project_member) v
      | inl (u, e) ↦
          rw (e, update_project_member)
            (record {
              below = v.below;
              projects = v.projects;
              pairs = v.pairs;
              members =
                  update_role-GoodMembers user_id project_id role st.members (valid_role role u e)
                    v.members;
            })
    ]

pub remove_project_member-IsValid :
    (project_id user_id : ℕ) (st : Membership)
    → IsValid st
    → IsValid (remove_project_member project_id user_id st).1
unfolding remove_project_member
remove_project_member-IsValid project_id user_id st v = record {
  below = v.below;
  projects = v.projects;
  pairs = v.pairs;
  members = delete-GoodMembers user_id project_id st.members v.members;
}
