-- ===== src/Auth.antt =====
-- services/auth_service.rs and api/auth_routes.rs: accounts, logins and refresh tokens. Password
-- hashing, access tokens (JWT) and the hash of a refresh token come from outside.
pub mod Users
pub mod SingleUse
pub mod Admins
use Prim.Native.Char.{Char, code}
use Prim.Native.String
use Prim.Native.String.{len}
use simply_storage.Prelude.{
  ℕ, ◌+◌, String, Option, none, some, Bool, true, false, ◌&&◌, ◌||◌, not, List, [], ◌∷◌, ◌==◌, leb,
  ltb, str_eq, if◌then◌else◌, select_where, delete_where, update_where, order_by, is_some,
}
use simply_storage.Error.{
  AppError, AppResult, ok, err, ok_or, ensure, bad_request, unauthorized, conflict, internal,
  not_found, database, unique_violation, is_unique_violation, ◌>>=◌, ◌>>◌,
}
use simply_storage.Error.Action.{Action}
use simply_storage.Db.Storage.{Project}
use simply_storage.Db.SharedLink.{delete_by_user}
use simply_storage.Db.User.{
  User, RefreshToken, CreateRefreshToken, new_token, create, find_by_id, find_by_username, delete,
  update_role, update_password_hash, delete_by_user_id, consume_by_hash, delete_by_hash, owns,
}
use simply_storage.FileService.{is_empty}
use simply_storage.World.{World}

pub record Accounts : Type 0 where
  pub users : List User
  pub tokens : List RefreshToken
  pub world : World

-- The libraries: no answer is a failure.
pub record AuthService : Type 0 where
  pub hash_password : String → Option String
  pub verify_password : String → String → Bool
  pub access_token : ℕ → String → Option String
  pub hash_refresh_token : String → String
  pub refresh_token_ttl_secs : ℕ

-- `char::is_whitespace`
abbrev is_whitespace : ℕ → Bool
is_whitespace c =
    (leb 9 c && leb c 13)
    || c == 32
    || c == 133
    || c == 160
    || c == 5760
    || (leb 8192 c && leb c 8202)
    || c == 8232
    || c == 8233
    || c == 8239
    || c == 8287
    || c == 12288

unfoldable pub trim_start : String → String
trim_start String.[] = ""
trim_start (String.◌∷◌ c s) =
    let rest = trim_start s in if is_whitespace (code c) then rest else String.◌∷◌ c s

abbrev put_unless_blank : Char → String → String
put_unless_blank c String.[] = if is_whitespace (code c) then "" else String.◌∷◌ c ""
put_unless_blank c (String.◌∷◌ d s) = String.◌∷◌ c (String.◌∷◌ d s)

unfoldable pub trim_end : String → String
trim_end String.[] = ""
trim_end (String.◌∷◌ c s) = put_unless_blank c (trim_end s)

abbrev is_username_char : ℕ → Bool
is_username_char c =
    (leb b'a' c && leb c b'z')
    || (leb b'A' c && leb c b'Z')
    || (leb b'0' c && leb c b'9')
    || c == b'_'
    || c == b'-'
    || c == b'.'

unfoldable pub is_username : String → Bool
is_username String.[] = true
is_username (String.◌∷◌ c s) = is_username_char (code c) && is_username s

pub record CreateUserRequest : Type 0 where
  pub username : String
  pub password : String
  pub role : String

abbrev pub check_password : String → AppResult (Unit {0})
check_password password = do
  ensure (leb 6 (len password)) (bad_request "Password must be at least 6 characters")
  ensure (leb (len password) 1024) (bad_request "Password must not exceed 1024 characters")

abbrev pub check_role : String → AppResult (Unit {0})
check_role role =
    ensure (str_eq role "admin" || str_eq role "user")
      (bad_request "Role must be 'admin' or 'user'")

-- The trimmed name.
unfoldable pub check_user : CreateUserRequest → AppResult String
unfolding trim_start trim_end is_username
check_user body = do
  ensure (not (str_eq body.username "" || str_eq body.password ""))
      (bad_request "Username and password are required")
  let username = trim_end (trim_start body.username)
  ensure (leb 3 (len username) && leb (len username) 64)
      (bad_request "Username must be between 3 and 64 characters")
  ensure (is_username username)
      (bad_request "Username may only contain letters, digits, underscores, hyphens, and dots")
  check_password body.password
  check_role body.role
  ok username

module _ (service : AuthService) where
  abbrev pub hashed : String → AppResult String
  hashed password = ok_or (service.hash_password password) (internal "Failed to hash password: {}")

  abbrev as_conflict : AppResult User → AppResult User
  as_conflict (ok user) = ok user
  as_conflict (err e) =
      err (if is_unique_violation e then conflict "Username already exists" else e)

  -- The name and the hash of the password.
  abbrev checked_user : CreateUserRequest → AppResult (String × String)
  checked_user body = do
    username ← check_user body
    password_hash ← hashed body.password
    ok (username, password_hash)

  unfoldable pub create_user : ℕ → CreateUserRequest → Action Accounts User
  unfolding check_user create
  create_user now body st = elim (checked_user body) [
    | err e ↦ (err e, st)
    | ok (username, password_hash) ↦
        let (r, users) =
          create now st.world.next_id
            (record { username = username; password_hash = password_hash; role = body.role })
            st.users in
        (
          as_conflict r,
          record st { users = users; world = record st.world { next_id = st.world.next_id + 1 } },
        )
  ]

  -- The access token and the refresh token.
  abbrev Tokens : Type 0
  Tokens = String × String

  -- `refresh_token` is drawn at random.
  abbrev stored : ℕ → String → User → String → Action Accounts Tokens
  stored now refresh_token user access_token st = (
    ok (access_token, refresh_token),
    record st {
      tokens =
          new_token now st.world.next_id (record {
            user_id = user.id;
            token_hash = service.hash_refresh_token refresh_token;
            expires_at = now + service.refresh_token_ttl_secs;
          })
          ∷ st.tokens;
      world = record st.world { next_id = st.world.next_id + 1 };
    },
  )

  abbrev issue : ℕ → String → User → Action Accounts Tokens
  issue now refresh_token user st = elim (service.access_token user.id user.role) [
    | none ↦ (err (internal "Failed to generate access token: {}"), st)
    | some access_token ↦ stored now refresh_token user access_token st
  ]

  unfoldable pub authenticate : String → String → List User → AppResult User
  unfolding find_by_username
  authenticate username password users = do
    user ← ok_or (find_by_username username users) (unauthorized "Invalid username or password")
    ensure (service.verify_password password user.password_hash)
        (unauthorized "Invalid username or password")
    ok user

  unfoldable pub login : ℕ → String → String → String → Action Accounts Tokens
  unfolding authenticate
  login now refresh_token username password st = elim (authenticate username password st.users) [
    | err e ↦ (err e, st)
    | ok user ↦ issue now refresh_token user st
  ]

  -- An account that has been deleted answers 401.
  abbrev account_gone : AppError → AppError
  account_gone (not_found _) = unauthorized "Account no longer exists"
  account_gone e = e

  abbrev renewed : ℕ → String → Option RefreshToken → Action Accounts Tokens
  renewed now refresh_token none st = (err (unauthorized "Invalid or expired refresh token"), st)
  renewed now refresh_token (some token) st = elim (find_by_id token.user_id st.users) [
    | err e ↦ (err (account_gone e), st)
    | ok user ↦ issue now refresh_token user st
  ]

  unfoldable pub refresh : ℕ → String → String → Action Accounts Tokens
  unfolding consume_by_hash find_by_id
  refresh now new_refresh_token refresh_token st =
      let (token, tokens) =
        consume_by_hash now (service.hash_refresh_token refresh_token) st.tokens in
      renewed now new_refresh_token token (record st { tokens = tokens })

  unfoldable pub logout : String → Accounts → Accounts
  unfolding delete_by_hash
  logout refresh_token st = record st {
    tokens = delete_by_hash (service.hash_refresh_token refresh_token) st.tokens;
  }
