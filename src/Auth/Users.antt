-- ===== src/Auth/Users.antt =====
-- What an administrator changes of an account (api/auth_routes.rs).
use simply_storage.Prelude.{
  ℕ, String, Option, none, some, ◌&&◌, ◌||◌, not, List, ◌==◌, str_eq, select_where, is_some,
}
use simply_storage.Error.{AppResult, ok, err, ensure, bad_request, conflict, ◌>>=◌, ◌>>◌}
use simply_storage.Error.Action.{Action}
use simply_storage.Db.Storage.{Project}
use simply_storage.Db.SharedLink.{delete_by_user}
use simply_storage.Db.User.{
  User, find_by_id, delete, update_role, update_password_hash, delete_by_user_id, owns,
}
use simply_storage.FileService.{is_empty}
use simply_storage.Auth.{Accounts, AuthService, check_password, check_role, hashed}

-- `Project::list_for_owner`, the order aside: projects that are deleted do not count.
unfoldable pub list_for_owner : ℕ → List Project → List Project
list_for_owner owner_id = select_where (λ p. not (is_some p.deleted_at) && owns owner_id p)

abbrev pub check_deletion : ℕ → ℕ → Accounts → AppResult (Unit {0})
check_deletion admin_id user_id st = do
  ensure (not (user_id == admin_id)) (bad_request "Cannot delete your own account")
  ensure (is_empty (list_for_owner user_id st.world.projects))
      (conflict "Cannot delete user: they own {} project(s) ({}). Reassign ownership first.")

-- The links and the tokens go first.
abbrev pub without_sessions : ℕ → Accounts → Accounts
without_sessions user_id st = record st {
  tokens = delete_by_user_id user_id st.tokens;
  world = record st.world { shared_links = delete_by_user user_id st.world.shared_links };
}

abbrev drop_user : ℕ → Action Accounts (Unit {0})
drop_user user_id st =
    let (r, users) = delete st.world.projects user_id st.users in (r, record st { users = users })

unfoldable pub delete_user : ℕ → ℕ → Action Accounts (Unit {0})
unfolding list_for_owner delete_by_user delete_by_user_id delete
delete_user admin_id user_id st = elim (check_deletion admin_id user_id st) [
  | err e ↦ (err e, st)
  | ok _ ↦ drop_user user_id (without_sessions user_id st)
]

pub record UpdateUserRequest : Type 0 where
  pub role : Option String
  pub password : Option String

abbrev when_some {ℓ κ} :
    {A : Type ℓ} {B : Type κ} → (A → AppResult B) → Option A → AppResult (Option B)
when_some f none = ok none
when_some f (some a) = do b ← f a; ok (some b)

module _ (service : AuthService) where
  abbrev pub check_new_role : ℕ → ℕ → String → AppResult (Unit {0})
  check_new_role admin_id user_id role = do
    check_role role
    ensure (not (user_id == admin_id && not (str_eq role "admin")))
        (bad_request "Cannot demote your own admin account")

  abbrev new_hash : String → AppResult String
  new_hash password = do check_password password; hashed service password

  -- The user before, and the hash of a new password.
  unfoldable pub check_change :
      ℕ → ℕ → UpdateUserRequest → List User → AppResult (User × Option String)
  unfolding find_by_id
  check_change admin_id user_id body users = do
    ensure (is_some body.role || is_some body.password)
        (bad_request "At least one of 'role' or 'password' must be provided")
    user ← find_by_id user_id users
    when_some (check_new_role admin_id user_id) body.role
    password_hash ← when_some new_hash body.password
    ok (user, password_hash)

  abbrev pub with_role : ℕ → ℕ → Option String → List User → List User
  with_role now user_id none users = users
  with_role now user_id (some role) users = (update_role now user_id role users).1

  abbrev pub with_password : ℕ → ℕ → Option String → List User → List User
  with_password now user_id none users = users
  with_password now user_id (some hash) users = (update_password_hash now user_id hash users).1

  -- The transaction: both changes, and all refresh tokens of the user go.
  unfoldable pub update_user : ℕ → ℕ → ℕ → UpdateUserRequest → Action Accounts User
  unfolding check_change update_role update_password_hash delete_by_user_id find_by_id
  update_user now admin_id user_id body st = elim (check_change admin_id user_id body st.users) [
    | err e ↦ (err e, st)
    | ok (user, password_hash) ↦
        let users =
          with_password now user_id password_hash (with_role now user_id body.role st.users) in
        (
          find_by_id user_id users,
          record st { users = users; tokens = delete_by_user_id user_id st.tokens },
        )
  ]
