-- ===== src/Tests/Isolation.antt =====
-- Two projects that their owner creates and assigns to one storage.
use simply_storage.Prelude.{
  ◌≢◌, refl, none, some, String, List, [], ◌∷◌, arith, find, exists, count_where, starts_with_space,
  has_space,
}
use simply_storage.Error.{ok}
use simply_storage.Json.{get, insert, string}
use simply_storage.Db.Storage.{find_project, find_storage, find_for_project_and_storage}
use simply_storage.Db.Project
use simply_storage.Db.Project.{CreateProject, new_project}
use simply_storage.Db.ProjectStorage
use simply_storage.Db.ProjectStorage.{CreateProjectStorage, new_assignment}
use simply_storage.Access.{AuthenticatedUser, require_owner_or_admin}
use simply_storage.Backend.{Backend, create_backend, required_keys, require_keys}
use simply_storage.Resolver.{
  resolve_project_backend, container_key, apply_container_to_config, container_value,
  effective_container, trim_end_slashes,
}
use simply_storage.Projects.{Membership, create_project, assign_storage, owned}
use simply_storage.Projects.Steps.{IsValid}
use simply_storage.Projects.Histories
use simply_storage.Projects.Histories.{Request, after, after_project_request}
use simply_storage.Projects.Isolated.{backends_differ_after}
use simply_storage.Tests.Samples.{fresh_world, local_backend, local_config, six_letters, storage}

abbrev docs : Backend
docs = record local_backend { config = insert "path" (string "/data/docs-0a1b2c") local_config }

abbrev media : Backend
media = record local_backend { config = insert "path" (string "/data/media-0a1b2c") local_config }

abbrev start : Membership
start = record {
  world = record fresh_world { projects = []; assignments = [] };
  members = [];
  users = [];
}

start-IsValid : IsValid start
unfolding count_where
start-IsValid = record {
  below = tt;
  projects = ((λ id. omega arith), (λ slug. omega arith));
  pairs = λ p s. omega arith;
  members = ((λ u p. omega arith), tt);
}

abbrev owner : AuthenticatedUser
owner = record { user_id = 8; role = "user" }

abbrev called : String → CreateProject
called slug = record { name = "Papers"; slug = slug; hot_to_cold_days = none }

abbrev plain : CreateProjectStorage
plain = record { storage_id = 10; container_override = none; prefix_override = none }

abbrev requests : List Request
requests =
    Histories.on_project owner (Histories.creates 5 (called "docs"))
    ∷ Histories.on_project owner (Histories.creates 6 (called "media"))
    ∷ Histories.on_project owner (Histories.assigns 100 plain)
    ∷ Histories.on_project owner (Histories.assigns 101 plain)
    ∷ []

backends_differ_after_example : get "path" docs.config ≢ get "path" media.config
unfolding find_project find_storage find_for_project_and_storage find exists require_owner_or_admin
    Project.create ProjectStorage.create owned create_project assign_storage after_project_request
    after container_key resolve_project_backend create_backend apply_container_to_config
    container_value effective_container trim_end_slashes starts_with_space has_space required_keys
    require_keys get insert
backends_differ_after_example =
    backends_differ_after requests start six_letters (λ _. ok tt) (storage 10)
      (new_project 5 100 (called "docs") (some 8)) (new_project 6 101 (called "media") (some 8))
      (new_assignment 102 100 plain) (new_assignment 103 101 plain) 100 101 "path" docs media
      start-IsValid (λ _. refl) (λ e. omega (arith, e)) refl refl refl refl refl refl refl
      (refl, refl) (refl, refl) refl refl
