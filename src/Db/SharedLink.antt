-- ===== src/Db/SharedLink.antt =====
-- `SharedLink` of db/models.rs. The token, the id and the hash of the password come from outside; a
-- limit of downloads is not negative.
pub mod Limit
use simply_storage.Prelude.{
  ℕ, ◌+◌, String, Option, none, some, Bool, true, false, ◌&&◌, not, List, [], ◌∷◌, ◌++◌, ◌==◌,
  str_eq, leb, ltb, if◌then◌else◌, select_where, update_where, delete_where, order_by, find, exists,
  is_some,
}
use simply_storage.Error.{AppResult, ok, err, ok_or, not_found, ◌>>=◌}

pub record SharedLink : Type 0 where
  pub id : ℕ
  pub token : String
  pub file_id : ℕ
  pub project_id : ℕ
  pub original_name : String
  pub created_by : ℕ
  pub password_hash : Option String
  pub expires_at : Option ℕ
  pub max_downloads : Option ℕ
  pub download_count : ℕ
  pub last_accessed_at : Option ℕ
  pub is_active : Bool
  pub created_at : ℕ

abbrev pub password_protected : SharedLink → Bool
password_protected link = is_some link.password_hash

pub record CreateSharedLink : Type 0 where
  pub file_id : ℕ
  pub project_id : ℕ
  pub original_name : String
  pub created_by : ℕ
  pub password : Option String
  pub expires_at : Option ℕ
  pub max_downloads : Option ℕ

unfoldable pub new_link : ℕ → ℕ → String → Option String → CreateSharedLink → SharedLink
new_link now id token password_hash input = record {
  id = id;
  token = token;
  file_id = input.file_id;
  project_id = input.project_id;
  original_name = input.original_name;
  created_by = input.created_by;
  password_hash = password_hash;
  expires_at = input.expires_at;
  max_downloads = input.max_downloads;
  download_count = 0;
  last_accessed_at = none;
  is_active = true;
  created_at = now;
}

abbrev hash_given : (String → AppResult String) → Option String → AppResult (Option String)
hash_given hash_password none = ok none
hash_given hash_password (some pw) = do hash ← hash_password pw; ok (some hash)

abbrev inserted :
    ℕ
    → ℕ
    → String
    → CreateSharedLink
    → List SharedLink
    → AppResult (Option String)
    → AppResult SharedLink × List SharedLink
inserted now id token input links (err e) = (err e, links)
inserted now id token input links (ok password_hash) =
    let link = new_link now id token password_hash input in (ok link, links ++ link ∷ [])

-- `hash_password` is Argon2 with the salt of this call, `token` the 16 random bytes in base64url.
unfoldable pub create :
    ℕ
    → ℕ
    → String
    → (String → AppResult String)
    → CreateSharedLink
    → List SharedLink
    → AppResult SharedLink × List SharedLink
unfolding new_link
create now id token hash_password input links =
    inserted now id token input links (hash_given hash_password input.password)

unfoldable pub find_by_token : String → List SharedLink → AppResult SharedLink
find_by_token token links =
    ok_or (find (λ l. str_eq l.token token) links) (not_found "Shared link not found")

abbrev pub has_id : ℕ → SharedLink → Bool
has_id id l = l.id == id

unfoldable pub find_by_id : ℕ → List SharedLink → AppResult SharedLink
find_by_id id links = ok_or (find (has_id id) links) (not_found "Shared link {} not found")

unfoldable pub list_by_project : ℕ → List SharedLink → List SharedLink
list_by_project project_id links =
    order_by (λ k l. leb l.created_at k.created_at)
      (select_where (λ l. l.project_id == project_id) links)

abbrev pub below_limit : Option ℕ → ℕ → Bool
below_limit none count = true
below_limit (some limit) count = ltb count limit

abbrev pub may_increment : ℕ → SharedLink → Bool
may_increment id l = has_id id l && below_limit l.max_downloads l.download_count

abbrev pub incremented : ℕ → SharedLink → SharedLink
incremented now l = record l { download_count = l.download_count + 1; last_accessed_at = some now }

-- Whether a row was changed.
unfoldable pub increment_download_count : ℕ → ℕ → List SharedLink → Bool × List SharedLink
increment_download_count now id links =
    (exists (may_increment id) links, update_where (may_increment id) (incremented now) links)

unfoldable pub deactivate : ℕ → List SharedLink → AppResult SharedLink × List SharedLink
unfolding find_by_id
deactivate id links =
    let links' = update_where (has_id id) (λ l. record l { is_active = false }) links in
    (find_by_id id links', links')

unfoldable pub delete : ℕ → List SharedLink → AppResult (Unit {0}) × List SharedLink
delete id links = (
  if exists (has_id id) links then ok tt else err (not_found "Shared link {} not found"),
  delete_where (has_id id) links,
)

unfoldable pub delete_by_user : ℕ → List SharedLink → List SharedLink
delete_by_user user_id = delete_where (λ l. l.created_by == user_id)
