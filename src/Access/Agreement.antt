-- ===== src/Access/Agreement.antt =====
-- The checks on files are SQL, those on projects are Rust; they agree.
use simply_storage.Prelude.{
  ℕ, ◌+◌, ◌≤◌, ◌≡◌, refl, none, Bool, true, false, ◌&&◌, not, List, [], ◌∷◌, ◌==◌, arith, str_eq,
  if◌then◌else◌, find, exists, is_some, ap, ◌∙◌,
}
use simply_storage.Error.{AppResult, ok, err, ensure}
use simply_storage.Db.Storage.{Project}
use simply_storage.Db.File.{FileReference}
use simply_storage.Access.{
  AuthenticatedUser, UserProject, is_admin, is_membership, is_writer, get_role, is_member,
  check_project_access, require_project_write_access, in_project, check_file_access,
  check_file_write_access,
}

unfoldable pub roles : ℕ → ℕ → List UserProject → ℕ
roles user_id project_id [] = 0
roles user_id project_id (up ∷ members) =
    (if is_membership user_id project_id up then 1 else 0) + roles user_id project_id members

-- A user has at most one role in a project.
abbrev pub IsUnique : List UserProject → Type 0
IsUnique members = (user_id project_id : ℕ) → roles user_id project_id members ≤ 1

abbrev pub is_ok {ℓ} : {A : Type ℓ} → AppResult A → Bool
is_ok (ok _) = true
is_ok (err _) = false

is_ok-ensure : (b : Bool) (e : _) → is_ok (ensure b e) ≡ b
is_ok-ensure true e = refl
is_ok-ensure false e = refl

roles-none :
    (user_id project_id : ℕ) (members : List UserProject)
    → roles user_id project_id members ≤ 0
    → (exists (λ up. is_membership user_id project_id up && str_eq up.role "writer") members
        ≡ false)
      × (find (is_membership user_id project_id) members ≡ none)
unfolding roles exists find
roles-none user_id project_id [] h = (refl, refl)
roles-none user_id project_id (up ∷ members) h =
    ground (arith, roles-none user_id project_id members)

-- With one role at most, the first row found is the one that EXISTS looks for.
writer-get_role :
    (user_id project_id : ℕ) (members : List UserProject)
    → roles user_id project_id members ≤ 1
    → exists (λ up. is_membership user_id project_id up && str_eq up.role "writer") members
      ≡ is_writer (get_role user_id project_id members)
unfolding roles exists find get_role
writer-get_role user_id project_id [] h = refl
writer-get_role user_id project_id (up ∷ members) h =
    ground
      (arith, writer-get_role user_id project_id members, roles-none user_id project_id members)

exists-same {ℓ} :
    {A : Type ℓ} (p q : A → Bool) (xs : List A) → ((x : A) → p x ≡ q x) → exists p xs ≡ exists q xs
unfolding exists
exists-same p q [] h = refl
exists-same p q (x ∷ xs) h = rw (h x, exists-same p q xs h) refl

module _ (members : List UserProject) (user : AuthenticatedUser) (projects : List Project)
    (refs : List FileReference) (file_id : ℕ) where
  -- Some project that is not deleted refers to the file and passes the test.
  abbrev pub some_project : (Project → Bool) → Bool
  some_project = in_project members user projects refs file_id

  in_project-same :
      (p q : Project → Bool) → ((x : Project) → p x ≡ q x) → some_project p ≡ some_project q
  in_project-same p q h = exists-same _ _ refs (λ r.
      ap (λ b. r.file_id == file_id && b)
        (exists-same _ _ projects
          (λ x. ap (λ b. x.id == r.project_id && not (is_some x.deleted_at) && b) (h x))))

  -- A user who is no admin may read a file exactly when some live project with the file may be read,
  -- and may write it exactly when some live project with it may be written, provided that nobody
  -- has two roles in one project.
  pub check_file-agrees :
      is_admin user ≡ false
      → IsUnique members
      → (is_ok (check_file_access members user projects refs file_id)
          ≡ some_project (λ p. is_ok (check_project_access members user p)))
        × (is_ok (check_file_write_access members user projects refs file_id)
            ≡ some_project (λ p. is_ok (require_project_write_access members user p)))
  unfolding check_file_access check_file_write_access check_project_access
      require_project_write_access is_member
  check_file-agrees no_admin unique = (
    rw (no_admin, check_file_access) (is_ok-ensure _ _ ∙ in_project-same _ _ (λ p. ground arith)),
    rw (no_admin, check_file_write_access)
        (is_ok-ensure _ _
          ∙ in_project-same _ _ (λ p.
            ground (arith, writer-get_role user.user_id p.id members, unique user.user_id p.id))),
  )
