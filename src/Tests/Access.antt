-- ===== src/Tests/Access.antt =====
-- A reader of one project and a file of it.
use simply_storage.Prelude.{◌≡◌, refl, List, [], ◌∷◌, arith}
use simply_storage.Json.{null}
use simply_storage.Db.File.{FileReference}
use simply_storage.Access.{
  AuthenticatedUser, UserProject, check_project_access, require_project_write_access,
  check_file_access, check_file_write_access,
}
use simply_storage.Access.Agreement.{IsUnique, roles, is_ok, some_project, check_file-agrees}
use simply_storage.Tests.Samples.{fresh_world}

abbrev reader : AuthenticatedUser
reader = record { user_id = 9; role = "user" }

abbrev members : List UserProject
members = record { id = 1; user_id = 9; project_id = 1; role = "reader"; created_at = 0 } ∷ []

abbrev refs : List FileReference
refs =
    record {
      id = 5;
      file_id = 3;
      project_id = 1;
      original_name = "a";
      metadata = null;
      created_at = 4;
    }
    ∷ []

members-IsUnique : IsUnique members
unfolding roles
members-IsUnique user_id project_id = ground arith

check_file-agrees_example :
    (is_ok (check_file_access members reader fresh_world.projects refs 3)
      ≡ some_project members reader fresh_world.projects refs 3
          (λ p. is_ok (check_project_access members reader p)))
    × (is_ok (check_file_write_access members reader fresh_world.projects refs 3)
        ≡ some_project members reader fresh_world.projects refs 3
            (λ p. is_ok (require_project_write_access members reader p)))
check_file-agrees_example =
    check_file-agrees members reader fresh_world.projects refs 3 refl members-IsUnique
