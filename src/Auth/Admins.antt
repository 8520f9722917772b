-- ===== src/Auth/Admins.antt =====
-- An administrator (api/auth_routes.rs) stays one, and what a deletion that the database refuses has
-- already done.
use simply_storage.Prelude.{
  ℕ, ◌≡◌, refl, ap, ◌∙◌, String, Option, none, some, Bool, true, false, ◌&&◌, List, [], ◌∷◌, arith,
  eq_iff, if◌then◌else◌, ◌==◌, find, exists, update_where, delete_where, count_where, Bool-cases,
  inl, inr,
}
use simply_storage.Error.{SqlError, ok, err, database, Result-cases}
use simply_storage.Db.Storage.{Project}
use simply_storage.Db.SharedLink.{delete_by_user}
use simply_storage.Db.User.{
  User, RefreshToken, has_id, owns, delete, update_role, update_password_hash, delete_by_user_id,
}
use simply_storage.Auth.{Accounts, AuthService}
use simply_storage.Auth.Users.{
  UpdateUserRequest, list_for_owner, check_deletion, check_change, with_role, with_password,
  delete_user, update_user,
}

-- The account exists and is an administrator's.
abbrev pub IsAdmin : ℕ → List User → Type 0
IsAdmin id users = (u : User) × (find (has_id id) users ≡ some u) × (u.role ≡ "admin")

find-update :
    (id k : ℕ) (f : User → User) (users : List User) (u : User)
    → ((v : User) → (f v).id ≡ v.id)
    → find (has_id id) users ≡ some u
    → find (has_id id) (update_where (has_id k) f users) ≡ some (if id == k then f u else u)
unfolding find update_where
find-update id k f [] u keeps e = cc
find-update id k f (v ∷ users) u keeps e =
    ground (arith, e, keeps v, find-update id k f users u keeps)

find-delete :
    (id k : ℕ) (users : List User)
    → (id == k) ≡ false
    → find (has_id id) (delete_where (has_id k) users) ≡ find (has_id id) users
unfolding find delete_where
find-delete id k [] h = refl
find-delete id k (v ∷ users) h = ground (arith, h, find-delete id k users)

count-deleted : {A : Type 0} (p : A → Bool) (xs : List A) → count_where p (delete_where p xs) ≡ 0
unfolding count_where delete_where
count-deleted p [] = refl
count-deleted p (x ∷ xs) = ground (arith, count-deleted p xs)

-- A change of a row that keeps administrators.
update-IsAdmin :
    (id k : ℕ) (f : User → User) (users : List User)
    → ((v : User) → (f v).id ≡ v.id)
    → (k ≡ id → (v : User) → v.role ≡ "admin" → (f v).role ≡ "admin")
    → IsAdmin id users
    → IsAdmin id (update_where (has_id k) f users)
update-IsAdmin id k f users keeps good (u, found, admin) = elim (Bool-cases (id == k)) [
  | inl e ↦ (
    f u,
    find-update id k f users u keeps found ∙ ap some (rw e refl),
    good (ground (arith, e)) u admin,
  )
  | inr e ↦ (u, find-update id k f users u keeps found ∙ ap some (rw e refl), admin)
]

module _ (service : AuthService) where
  with_role-IsAdmin :
      (now admin_id user_id : ℕ) (role : Option String) (users : List User)
      → ((r : String) → role ≡ some r → user_id ≡ admin_id → r ≡ "admin")
      → IsAdmin admin_id users
      → IsAdmin admin_id (with_role service now user_id role users)
  unfolding update_role
  with_role-IsAdmin now admin_id user_id none users allowed admin = admin
  with_role-IsAdmin now admin_id user_id (some role) users allowed admin =
      update-IsAdmin admin_id user_id _ users (λ v. refl) (λ e v h. allowed role refl e) admin

  with_password-IsAdmin :
      (now admin_id user_id : ℕ) (hash : Option String) (users : List User)
      → IsAdmin admin_id users
      → IsAdmin admin_id (with_password service now user_id hash users)
  unfolding update_password_hash
  with_password-IsAdmin now admin_id user_id none users admin = admin
  with_password-IsAdmin now admin_id user_id (some hash) users admin =
      update-IsAdmin admin_id user_id _ users (λ v. refl) (λ e v h. h) admin

  -- An administrator may not take away their own role.
  check_change_role :
      (admin_id user_id : ℕ) (body : UpdateUserRequest) (users : List User)
      (found : User × Option String) (role : String)
      → check_change service admin_id user_id body users ≡ ok found
      → body.role ≡ some role
      → user_id ≡ admin_id
      → role ≡ "admin"
  unfolding check_change
  check_change_role admin_id user_id body users found role h e same =
      ground (arith, h, e, same, eq_iff role "admin")

  update_user-IsAdmin :
      (now admin_id user_id : ℕ) (body : UpdateUserRequest) (st : Accounts)
      → IsAdmin admin_id st.users
      → IsAdmin admin_id (update_user service now admin_id user_id body st).1.users
  unfolding update_user
  update_user-IsAdmin now admin_id user_id body st admin =
      elim (Result-cases (check_change service admin_id user_id body st.users)) [
        | inl (found, e) ↦
            rw (e, update_user)
              (with_password-IsAdmin now admin_id user_id found.1 _ (
                with_role-IsAdmin now admin_id user_id body.role st.users
                  (λ r given same.
                    check_change_role admin_id user_id body st.users found r e given same)
                  admin))
        | inr (x, e) ↦ rw (e, update_user) admin
      ]

check_deletion_other :
    (admin_id user_id : ℕ) (st : Accounts)
    → check_deletion admin_id user_id st ≡ ok tt
    → (admin_id == user_id) ≡ false
check_deletion_other admin_id user_id st h = ground (arith, h)

delete-IsAdmin :
    (projects : List Project) (id k : ℕ) (users : List User)
    → (id == k) ≡ false
    → IsAdmin id users
    → IsAdmin id (delete projects k users).1
unfolding delete
delete-IsAdmin projects id k users other (u, found, admin) =
    elim (Bool-cases (exists (has_id k) users && exists (owns k) projects)) [
      | inl e ↦ rw e (u, found, admin)
      | inr e ↦ rw e (u, find-delete id k users other ∙ found, admin)
    ]

delete_user-IsAdmin :
    (admin_id user_id : ℕ) (st : Accounts)
    → IsAdmin admin_id st.users
    → IsAdmin admin_id (delete_user admin_id user_id st).1.users
unfolding delete_user
delete_user-IsAdmin admin_id user_id st admin =
    elim (Result-cases (check_deletion admin_id user_id st)) [
      | inl (u, e) ↦
          rw (e, delete_user)
            (delete-IsAdmin st.world.projects admin_id user_id st.users
              (check_deletion_other admin_id user_id st e) admin)
      | inr (x, e) ↦ rw (e, delete_user) admin
    ]

-- An administrator who changes or deletes an account, their own or another, stays an administrator
-- with an account, whatever is asked.
pub user_requests-IsAdmin :
    (service : AuthService) (now admin_id user_id : ℕ) (body : UpdateUserRequest) (st : Accounts)
    → IsAdmin admin_id st.users
    → IsAdmin admin_id (update_user service now admin_id user_id body st).1.users
      × IsAdmin admin_id (delete_user admin_id user_id st).1.users
user_requests-IsAdmin service now admin_id user_id body st admin = (
  update_user-IsAdmin service now admin_id user_id body st admin,
  delete_user-IsAdmin admin_id user_id st admin,
)

-- Another user who owns projects of which all have been deleted passes the test for owned projects,
-- but the database refuses the deletion: the answer is a server error, the account is still there,
-- and its sessions and its shared links are gone.
pub delete_user_refused :
    (admin_id user_id : ℕ) (st : Accounts)
    → (user_id == admin_id) ≡ false
    → exists (has_id user_id) st.users ≡ true
    → exists (owns user_id) st.world.projects ≡ true
    → list_for_owner user_id st.world.projects ≡ []
    → let (r, st') = delete_user admin_id user_id st in
      ((e : SqlError) × (r ≡ err (database e)))
      × (st'.users ≡ st.users)
      × (count_where (λ (t : RefreshToken). t.user_id == user_id) st'.tokens ≡ 0)
      × (st'.world.shared_links ≡ delete_by_user user_id st.world.shared_links)
unfolding delete_user delete delete_by_user_id
delete_user_refused admin_id user_id st other there owned live =
    rw (other, live, there, owned, delete_user)
      ((_, refl), refl, count-deleted (λ (t : RefreshToken). t.user_id == user_id) st.tokens, refl)
