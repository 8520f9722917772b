-- ===== src/Db/User.antt =====
-- `User` and `RefreshToken` of db/models.rs: accounts, and the hashes of their refresh tokens.
use simply_storage.Prelude.{
  ℕ, String, Option, none, some, Bool, false, ◌&&◌, List, [], ◌∷◌, ◌++◌, ◌==◌, leb, ltb, str_eq,
  if◌then◌else◌, update_where, delete_where, order_by, find, exists, length,
}
use simply_storage.Error.{
  AppResult, SqlError, ok, err, ok_or, not_found, database, unique_violation, other,
}
use simply_storage.Db.Storage.{Project}

pub record User : Type 0 where
  pub id : ℕ
  pub username : String
  pub password_hash : String
  pub role : String
  pub created_at : ℕ
  pub updated_at : ℕ

pub record CreateUser : Type 0 where
  pub username : String
  pub password_hash : String
  pub role : String

abbrev pub new_user : ℕ → ℕ → CreateUser → User
new_user now id input = record {
  id = id;
  username = input.username;
  password_hash = input.password_hash;
  role = input.role;
  created_at = now;
  updated_at = now;
}

abbrev pub has_username : String → User → Bool
has_username username u = str_eq u.username username

-- A username is unique.
unfoldable pub create : ℕ → ℕ → CreateUser → List User → AppResult User × List User
create now id input users =
    let user = new_user now id input in
    if exists (has_username input.username) users
    then (err (database unique_violation), users)
    else (ok user, users ++ user ∷ [])

abbrev pub has_id : ℕ → User → Bool
has_id id u = u.id == id

unfoldable pub find_by_id : ℕ → List User → AppResult User
find_by_id id users = ok_or (find (has_id id) users) (not_found "User {} not found")

unfoldable pub find_by_username : String → List User → Option User
find_by_username username users = find (has_username username) users

unfoldable pub list : List User → List User
list users = order_by (λ u v. leb u.created_at v.created_at) users

abbrev pub owns : ℕ → Project → Bool
owns user_id p = elim p.owner_id [ none ↦ false | some owner_id ↦ owner_id == user_id ]

abbrev owned_error : SqlError
owned_error = other "update or delete on table \"users\" violates foreign key constraint"

-- A row of `projects`, deleted or not, that refers to the user as its owner forbids the deletion.
unfoldable pub delete : List Project → ℕ → List User → AppResult (Unit {0}) × List User
delete projects id users =
    if exists (has_id id) users && exists (owns id) projects
    then (err (database owned_error), users)
    else (
      if exists (has_id id) users then ok tt else err (not_found "User {} not found"),
      delete_where (has_id id) users,
    )

abbrev pub count : List User → ℕ
count users = length users

unfoldable pub update_role : ℕ → ℕ → String → List User → AppResult User × List User
unfolding find_by_id
update_role now id role users =
    let users' = update_where (has_id id) (λ u. record u { role = role; updated_at = now }) users in
    (find_by_id id users', users')

unfoldable pub update_password_hash : ℕ → ℕ → String → List User → AppResult User × List User
unfolding find_by_id
update_password_hash now id hash users =
    let users' =
      update_where (has_id id) (λ u. record u { password_hash = hash; updated_at = now }) users in
    (find_by_id id users', users')

pub record RefreshToken : Type 0 where
  pub id : ℕ
  pub user_id : ℕ
  pub token_hash : String
  pub expires_at : ℕ
  pub created_at : ℕ

pub record CreateRefreshToken : Type 0 where
  pub user_id : ℕ
  pub token_hash : String
  pub expires_at : ℕ

abbrev pub new_token : ℕ → ℕ → CreateRefreshToken → RefreshToken
new_token now id input = record {
  id = id;
  user_id = input.user_id;
  token_hash = input.token_hash;
  expires_at = input.expires_at;
  created_at = now;
}

abbrev pub has_hash : String → RefreshToken → Bool
has_hash hash t = str_eq t.token_hash hash

abbrev pub is_good : ℕ → String → RefreshToken → Bool
is_good now hash t = has_hash hash t && ltb now t.expires_at

unfoldable pub find_by_hash : ℕ → String → List RefreshToken → Option RefreshToken
find_by_hash now hash tokens = find (is_good now hash) tokens

unfoldable pub delete_by_user_id : ℕ → List RefreshToken → List RefreshToken
delete_by_user_id user_id tokens = delete_where (λ t. t.user_id == user_id) tokens

-- The deleted row is the answer.
unfoldable pub consume_by_hash :
    ℕ → String → List RefreshToken → Option RefreshToken × List RefreshToken
consume_by_hash now hash tokens =
    (find (is_good now hash) tokens, delete_where (is_good now hash) tokens)

unfoldable pub delete_by_hash : String → List RefreshToken → List RefreshToken
delete_by_hash hash tokens = delete_where (has_hash hash) tokens

unfoldable pub delete_expired : ℕ → List RefreshToken → List RefreshToken
delete_expired now tokens = delete_where (λ t. leb t.expires_at now) tokens
