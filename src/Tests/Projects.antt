-- ===== src/Tests/Projects.antt =====
-- An administrator, an owner and a stranger, and requests of theirs.
use simply_storage.Prelude.{◌≡◌, refl, some, none, List, [], ◌∷◌, arith, exists, count_where}
use simply_storage.Db.Storage.{Project}
use simply_storage.Db.Project.{CreateProject, UpdateProject}
use simply_storage.Access.{AuthenticatedUser}
use simply_storage.Projects.{Membership}
use simply_storage.Projects.Steps.{IsValid}
use simply_storage.Projects.Histories.{
  Request, ProjectRequest, MemberRequest, after, after_project_request, requests-IsValid,
}
use simply_storage.Projects.Histories
use simply_storage.Projects.Visible.{request_refused}
use simply_storage.Tests.Samples.{fresh_world, project}

abbrev docs : Project
docs = record (project 1 "docs") { owner_id = some 8 }

abbrev start : Membership
start = record {
  world = record fresh_world { projects = docs ∷ []; assignments = [] };
  members = [];
  users = [];
}

abbrev owner : AuthenticatedUser
owner = record { user_id = 8; role = "user" }

abbrev stranger : AuthenticatedUser
stranger = record { user_id = 9; role = "user" }

start-IsValid : IsValid start
unfolding count_where
start-IsValid = record {
  below = (omega arith, tt);
  projects = ((λ id. ground arith), (λ slug. ground arith));
  pairs = λ p s. omega arith;
  members = ((λ u p. omega arith), tt);
}

abbrev same_slug : CreateProject
same_slug = record { name = "More"; slug = "docs"; hot_to_cold_days = none }

abbrev renaming : UpdateProject
renaming = record { name = some "Old"; slug = some "old"; hot_to_cold_days = none }

abbrev requests : List Request
requests =
    Histories.on_project owner (Histories.updates 1 renaming)
    ∷ Histories.on_project stranger (Histories.creates 50 same_slug)
    ∷ Histories.on_members (Histories.adds 51 1 9 "writer")
    ∷ []

requests-IsValid_example : IsValid (after requests start)
requests-IsValid_example = requests-IsValid requests start start-IsValid

request_refused_example :
    after_project_request stranger (Histories.updates 1 renaming) start ≡ start
unfolding exists
request_refused_example =
    request_refused stranger (Histories.updates 1 renaming) 1 start refl refl refl
