-- ===== src/SharedLink.antt =====
-- services/shared_link_service.rs: links to a file for clients without an account.
pub mod Token
pub mod Download
use simply_storage.Prelude.{
  ℕ, ◌+◌, String, Option, none, some, Bool, true, false, ◌&&◌, ◌||◌, not, List, [], ◌∷◌, map,
  str_eq, ltb, ◌==◌, if◌then◌else◌, select_where, is_some,
}
use simply_storage.Error.{
  AppError, AppResult, ok, err, ok_or, ensure, not_found, bad_request, forbidden, unauthorized,
  internal, ◌>>=◌, ◌>>◌,
}
use simply_storage.Error.Action
use simply_storage.Error.Action.{Action, lift, gets, modify, pure, raise}
use simply_storage.Db.File.{
  File, FileReference, find_by_id, find_by_file_id, find_by_file_and_project,
}
use simply_storage.Db.Location.{FileLocation, find_for_file, touch_accessed}
use simply_storage.Db.SharedLink.{
  CreateSharedLink, find_by_token, increment_download_count, deactivate, list_by_project,
}
use simply_storage.Db.SharedLink
use simply_storage.World.{World, Env, Bytes, fresh}
use simply_storage.FileService.{is_empty}
use simply_storage.FileService.Download.{download_from}

pub record SharedLinkInfo : Type 0 where
  pub file_name : String
  pub file_size : ℕ
  pub content_type : String
  pub password_required : Bool
  pub expires_at : Option ℕ

pub record SharedLinkDownloadResult : Type 0 where
  pub content : Bytes
  pub content_type : String
  pub file_name : String
  pub file_id : ℕ
  pub project_id : ℕ
  pub storage_id : ℕ
  pub file_size : ℕ

pub record DownloadTokenClaims : Type 0 where
  pub sub : String
  pub link_id : String
  pub exp : ℕ

pub record CreateSharedLinkInput : Type 0 where
  pub file_id : ℕ
  pub project_id : ℕ
  pub user_id : ℕ
  pub password : Option String
  pub expires_at : Option ℕ
  pub max_downloads : Option ℕ

-- What the service uses of other crates: `Uuid::to_string`, the JWT library with the service's key,
-- and Argon2.
pub record Crypto : Type 0 where
  pub to_text : ℕ → String
  pub encode : DownloadTokenClaims → AppResult String
  -- `decode` at a time, when the signature and the expiry are good.
  pub decode : ℕ → String → Option DownloadTokenClaims
  pub hash_password : String → AppResult String
  pub check_password : String → String → Bool

abbrev pub download_token_ttl_secs : ℕ
download_token_ttl_secs = 300

abbrev pub is_past : ℕ → Option ℕ → Bool
is_past now none = false
is_past now (some expires_at) = ltb expires_at now

unfoldable pub validate_link_accessible : ℕ → SharedLink.SharedLink → AppResult (Unit {0})
validate_link_accessible now link =
    if not link.is_active
    then err (not_found "Shared link not found")
    else if is_past now link.expires_at
    then err (not_found "Shared link not found")
    else ok tt

unfoldable pub create_link :
    Crypto → ℕ → String → CreateSharedLinkInput → Action World SharedLink.SharedLink
create_link crypto now token input w = elim (find_by_id input.file_id w.files) [
  | err e ↦ (err e, w)
  | ok file ↦ elim (find_by_file_and_project input.file_id input.project_id w.references) [
    | [] ↦ (err (not_found "File not found in this project"), w)
    | ref ∷ _ ↦
        let (r, links) =
          SharedLink.create now w.next_id token crypto.hash_password
            (record {
              file_id = file.id;
              project_id = input.project_id;
              original_name = ref.original_name;
              created_by = input.user_id;
              password = input.password;
              expires_at = input.expires_at;
              max_downloads = input.max_downloads;
            })
            w.shared_links in
        (r, record w { shared_links = links; next_id = w.next_id + 1 })
  ]
]

unfoldable pub get_link_info : ℕ → String → World → AppResult SharedLinkInfo
unfolding validate_link_accessible
get_link_info now token w = do
  link ← find_by_token token w.shared_links
  validate_link_accessible now link
  file ← find_by_id link.file_id w.files
  ok (record {
    file_name = link.original_name;
    file_size = file.size;
    content_type = file.content_type;
    password_required = is_some link.password_hash;
    expires_at = link.expires_at;
  })

module _ (crypto : Crypto) (now : ℕ) where
  unfoldable pub generate_download_token : String → ℕ → AppResult String
  generate_download_token token link_id = crypto.encode (record {
    sub = token;
    link_id = crypto.to_text link_id;
    exp = now + download_token_ttl_secs;
  })

  unfoldable pub verify_password : String → String → World → AppResult String
  unfolding generate_download_token validate_link_accessible
  verify_password token password w = do
    link ← find_by_token token w.shared_links
    validate_link_accessible now link
    hash ← ok_or link.password_hash (bad_request "This link is not password-protected")
    ensure (crypto.check_password password hash) (forbidden "Wrong password")
    generate_download_token link.token link.id

  unfoldable pub validate_download_token : String → String → ℕ → AppResult (Unit {0})
  validate_download_token dl_token expected_token expected_link_id = do
    claims ← ok_or (crypto.decode now dl_token) (unauthorized "Invalid or expired download token")
    ensure
        (str_eq claims.sub expected_token
          && str_eq claims.link_id (crypto.to_text expected_link_id))
        (unauthorized "Download token does not match this link")

  abbrev is_reached : Option ℕ → ℕ → Bool
  is_reached none count = false
  is_reached (some limit) count = not (ltb count limit)

  abbrev pub check_token : Option String → SharedLink.SharedLink → AppResult (Unit {0})
  check_token none link = err (unauthorized "Download token required for password-protected links")
  check_token (some given) link = validate_download_token given link.token link.id

  -- The checks before anything is downloaded, on the row that was read.
  unfoldable pub authorise : Option String → SharedLink.SharedLink → AppResult (Unit {0})
  unfolding validate_link_accessible validate_download_token
  authorise dl_token link = do
    validate_link_accessible now link
    if is_some link.password_hash then check_token dl_token link else ok tt
    ensure (not (is_reached link.max_downloads link.download_count))
        (forbidden "Download limit reached")

  module _ (env : Env) where
    -- Only the references of the link's project are used to find backends.
    unfoldable pub fetch : SharedLink.SharedLink → World → AppResult (File × FileLocation × Bytes)
    fetch link w = do
      file ← find_by_id link.file_id w.files
      let locations = find_for_file link.file_id w.storages w.locations
      ensure (not (is_empty locations)) (not_found "File not available for download")
      let refs =
          select_where (λ r. r.project_id == link.project_id)
            (find_by_file_id link.file_id w.references)
      (location, content) ←
          ok_or (download_from env w (map (λ r. r.project_id) refs) locations)
            (internal "All storage locations failed for file {}")
      ok (file, location, content)

    -- What is read before the download is counted.
    unfoldable pub prepare :
        String
        → Option String
        → World
        → AppResult (SharedLink.SharedLink × (File × FileLocation × Bytes))
    unfolding authorise fetch
    prepare token dl_token w = do
      link ← find_by_token token w.shared_links
      authorise dl_token link
      found ← fetch link w
      ok (link, found)

    -- The download is counted; `meanwhile` is what other requests did to the links since this one
    -- read its link.
    unfoldable pub count_download :
        (List SharedLink.SharedLink → List SharedLink.SharedLink)
        → SharedLink.SharedLink
        → File × FileLocation × Bytes
        → Action World SharedLinkDownloadResult
    count_download meanwhile link (file, location, content) w =
        let (counted, links) = increment_download_count now link.id (meanwhile w.shared_links) in
        (
          if counted
              then ok (record {
                content = content;
                content_type = file.content_type;
                file_name = link.original_name;
                file_id = link.file_id;
                project_id = link.project_id;
                storage_id = location.storage_id;
                file_size = file.size;
              })
              else err (forbidden "Download limit reached"),
          record w { locations = touch_accessed now location.id w.locations; shared_links = links },
        )

    unfoldable pub download_via_link :
        (List SharedLink.SharedLink → List SharedLink.SharedLink)
        → String
        → Option String
        → Action World SharedLinkDownloadResult
    unfolding prepare count_download
    download_via_link meanwhile token dl_token w = elim (prepare token dl_token w) [
      | err e ↦ (err e, w)
      | ok (link, found) ↦ count_download meanwhile link found w
    ]

abbrev pub list_links : ℕ → World → List SharedLink.SharedLink
list_links project_id w = list_by_project project_id w.shared_links

unfoldable pub deactivate_link : ℕ → ℕ → String → Action World SharedLink.SharedLink
deactivate_link link_id user_id user_role w = elim (SharedLink.find_by_id link_id w.shared_links) [
  | err e ↦ (err e, w)
  | ok link ↦
      if not (str_eq user_role "admin") && not (link.created_by == user_id)
      then (err (forbidden "Only the link creator or an admin can deactivate this link"), w)
      else (let (r, links) = deactivate link_id w.shared_links in
          (r, record w { shared_links = links }))
]
