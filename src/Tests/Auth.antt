-- ===== src/Tests/Auth.antt =====
-- An administrator and a user with a session and a deleted project.
use simply_storage.Prelude.{
  ℕ, ◌≤◌, ◌≡◌, refl, String, none, some, List, [], ◌∷◌, arith, count_where, str_eq, eq_iff, ◌==◌,
  exists, select_where,
}
use simply_storage.Error.{err, SqlError, database}
use simply_storage.Db.Storage.{Project}
use simply_storage.Db.SharedLink.{delete_by_user}
use simply_storage.Db.User.{User, RefreshToken, has_hash}
use simply_storage.Auth.{Accounts, AuthService}
use simply_storage.Auth.Users.{UpdateUserRequest, delete_user, list_for_owner}
use simply_storage.Auth.SingleUse.{Request, renews, renewals, renewals-le}
use simply_storage.Auth.Admins.{delete_user_refused}
use simply_storage.Tests.Samples.{fresh_world}

-- A hash and a token that are the text itself.
abbrev plain : AuthService
plain = record {
  hash_password = λ p. some p;
  verify_password = λ p h. str_eq p h;
  access_token = λ id role. some "jwt";
  hash_refresh_token = λ t. t;
  refresh_token_ttl_secs = 100;
}

abbrev account : ℕ → String → String → User
account id name role = record {
  id = id;
  username = name;
  password_hash = "secret";
  role = role;
  created_at = 0;
  updated_at = 0;
}

abbrev deleted_project : Project
deleted_project = record {
  id = 1;
  slug = "docs";
  owner_id = some 8;
  hot_to_cold_days = none;
  name = "Papers";
  created_at = 0;
  deleted_at = some 40;
}

abbrev session : RefreshToken
session = record { id = 3; user_id = 8; token_hash = "t"; expires_at = 90; created_at = 0 }

abbrev accounts : Accounts
accounts = record {
  users = account 9 "root" "admin" ∷ account 8 "ann" "user" ∷ [];
  tokens = session ∷ [];
  world = record fresh_world { projects = deleted_project ∷ [] };
}

abbrev twice : List Request
twice = renews 50 "u" "t" ∷ renews 51 "v" "t" ∷ []

renewals-le_example : renewals plain "t" twice accounts ≤ count_where (has_hash "t") accounts.tokens
renewals-le_example =
    renewals-le plain "t" twice accounts
      (ground (arith, eq_iff "u" "t"), (ground (arith, eq_iff "v" "t"), tt))

abbrev demotion : UpdateUserRequest
demotion = record { role = some "user"; password = none }

delete_user_refused_example :
    let (r, st') = delete_user 9 8 accounts in
    ((e : SqlError) × (r ≡ err (database e)))
    × (st'.users ≡ accounts.users)
    × (count_where (λ (t : RefreshToken). t.user_id == 8) st'.tokens ≡ 0)
    × (st'.world.shared_links ≡ delete_by_user 8 accounts.world.shared_links)
unfolding exists list_for_owner select_where
delete_user_refused_example = delete_user_refused 9 8 accounts refl refl refl refl
