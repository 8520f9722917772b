-- ===== src/FileRoutes/Links.antt =====
-- Signed links to files of local storages: `generate_temp_url` of storage/local.rs, and the request
-- `download_local_temp` of api/files.rs, which needs no account.
use Prim.Native.String.{◌++◌ as str_append}
use simply_storage.Prelude.{
  Option, none, some, decimal, ℕ, ◌+◌, ◌≤◌, ◌≡◌, ap, ◌∙◌, String, Bool, false, ◌&&◌, List, arith,
  eq_iff, str_eq, if◌then◌else◌, ◌==◌, leb, ltb, find, exists, inl, inr,
}
use simply_storage.Error.{
  AppResult, ok, err, ensure, ok_or, unauthorized, bad_request, not_found, Result-cases, ◌>>=◌,
  ◌>>◌,
}
use simply_storage.Error.Action.{Action}
use simply_storage.Db.Storage.{Storage}
use simply_storage.Db.File.{find_by_id}
use simply_storage.Db.Location.{FileLocation, is_synced, touch_accessed}
use simply_storage.Backend.{Backend}
use simply_storage.Backend.Registry.{get}
use simply_storage.World.{World, Env, Bytes}

-- The query of a link.
pub record Link : Type 0 where
  pub path : String
  pub expires : ℕ
  pub sig : String

-- `hmac` is the hexadecimal HMAC-SHA256 of a message under the server's secret.
module _ (hmac : String → String) where
  unfoldable pub sign_token : String → ℕ → String
  unfolding decimal
  sign_token path expires_at = hmac (str_append path (str_append ":" (decimal expires_at)))

  -- `encode` is `urlencoding::encode`.
  unfoldable pub generate_temp_url : (String → String) → ℕ → String → ℕ → String
  unfolding sign_token decimal
  generate_temp_url encode now path expires_in =
      let expires_at = now + expires_in in
      str_append "/download/local?path=" (
        str_append (encode path) (
          str_append "&expires="
            (str_append (decimal expires_at) (str_append "&sig=" (sign_token path expires_at)))))

  unfoldable pub verify_temp_url : ℕ → String → ℕ → String → Bool
  unfolding sign_token
  verify_temp_url now path expires_at signature =
      if ltb expires_at now then false else str_eq (sign_token path expires_at) signature

  -- The expiry comes first. The message is written here once more.
  unfoldable pub check_link : ℕ → Link → AppResult (Unit {0})
  unfolding decimal
  check_link now query = do
    ensure (leb now query.expires) (unauthorized "Download link has expired")
    let message = str_append query.path (str_append ":" (decimal query.expires))
    ensure (str_eq (hmac message) query.sig) (unauthorized "Invalid download link signature")

  abbrev is_local : List Storage → FileLocation → Bool
  is_local storages l =
      exists (λ s. s.id == l.storage_id && s.enabled && str_eq s.storage_type "local") storages

  -- The row that the query finds first; its order is the database's.
  abbrev is_served : List Storage → String → FileLocation → Bool
  is_served storages path l =
      str_eq l.storage_path path && is_synced l.status && is_local storages l

  -- The location, and what the backend of its storage in the registry answers.
  unfoldable pub find_served : Env → ℕ → Link → World → AppResult (FileLocation × Bytes)
  unfolding check_link get
  find_served env now query w = do
    check_link now query
    location ←
        ok_or (find (is_served w.storages query.path) w.locations) (not_found "File not found")
    backend ← get location.storage_id w.registry
    content ← env.download backend query.path
    ok (location, content)

  unfoldable pub download_local_temp : Env → ℕ → Link → Action World (String × Bytes)
  unfolding find_served find_by_id touch_accessed
  download_local_temp env now query w = elim (find_served env now query w) [
    | err e ↦ (err e, w)
    | ok (location, content) ↦ elim (find_by_id location.file_id w.files) [
      | err e ↦ (err e, w)
      | ok file ↦ (
        ok (file.content_type, content),
        record w { locations = touch_accessed now location.id w.locations },
      )
    ]
  ]

  -- What the server reads from the URL of a link.
  abbrev pub link_to : ℕ → String → ℕ → Link
  link_to made path expires_in = record {
    path = path;
    expires = made + expires_in;
    sig = sign_token path (made + expires_in);
  }

  -- The test of a URL whose query is read by `parse`.
  abbrev pub followed : (String → Option Link) → ℕ → String → AppResult (Unit {0})
  followed parse now url = elim (parse url) [
    | none ↦ err (bad_request "Failed to deserialize query string")
    | some query ↦ check_link now query
  ]

  check_link_ok :
      (now : ℕ) (query : Link) (u : Unit {0})
      → check_link now query ≡ ok u
      → (now ≤ query.expires) × (query.sig ≡ sign_token query.path query.expires)
  unfolding check_link sign_token
  check_link_ok now query u h =
      ground (arith, h, eq_iff (sign_token query.path query.expires) query.sig)

  abbrev pub IsSigned : Env → ℕ → Link → World → Bytes → Type 0
  IsSigned env now query w content =
      (now ≤ query.expires)
      × (query.sig ≡ sign_token query.path query.expires)
      × ((storage_id : ℕ) × (backend : Backend) × (get storage_id w.registry ≡ ok backend)
          × (env.download backend query.path ≡ ok content))

  find_served_ok :
      (env : Env) (now : ℕ) (query : Link) (w : World) (location : FileLocation) (content : Bytes)
      → find_served env now query w ≡ ok (location, content)
      → IsSigned env now query w content
  unfolding find_served
  find_served_ok env now query w location content h =
      let row =
        ok_or (find (is_served w.storages query.path) w.locations) (not_found "File not found") in
      elim (Result-cases (check_link now query)) [
        | inr (x, e) ↦ absurd (ground (arith, e, h))
        | inl (u, c) ↦ elim (Result-cases row) [
          | inr (x, e) ↦ absurd (ground (arith, c, e, h))
          | inl (l, f) ↦ elim (Result-cases (get l.storage_id w.registry)) [
            | inr (x, e) ↦ absurd (ground (arith, c, f, e, h))
            | inl (b, g) ↦ elim (Result-cases (env.download b query.path)) [
              | inr (x, e) ↦ absurd (ground (arith, c, f, g, e, h))
              | inl (r, d) ↦
                  let same : r ≡ content = ground (arith, c, f, g, d, h) in
                  let (in_time, signed) = check_link_ok now query u c in
                  (in_time, signed, (l.storage_id, b, g, d ∙ ap ok same))
            ]
          ]
        ]
      ]

  -- An answer to a link was signed for its path and its expiry, has not expired, and comes from the
  -- backend that the registry has for a storage, whatever container the project has.
  pub download_local_temp-IsSigned :
      (env : Env) (now : ℕ) (query : Link) (w : World) (content_type : String) (content : Bytes)
      → (download_local_temp env now query w).0 ≡ ok (content_type, content)
      → IsSigned env now query w content
  unfolding download_local_temp
  download_local_temp-IsSigned env now query w content_type content h =
      elim (Result-cases (find_served env now query w)) [
        | inl ((location, read), e) ↦
            let same : read ≡ content = ground (arith, e, h) in
            find_served_ok env now query w location content
              (e ∙ ap (λ (c : Bytes). ok (location, c)) same)
        | inr (x, e) ↦ absurd (ground (arith, e, h))
      ]
