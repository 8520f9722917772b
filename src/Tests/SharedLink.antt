-- ===== src/Tests/SharedLink.antt =====
-- A link with a password and a limit of one download.
use text.Mathlib.TextPositions.{eq_refl}
use simply_storage.Prelude.{
  ℕ, zero, suc, ap, ◌+◌, ◌≤◌, ◌≡◌, ◌≢◌, refl, sym, ◌∙◌, String, none, some, true, ◌&&◌, List, [],
  ◌∷◌, find, exists, str_eq, eq_iff, leb, if◌then◌else◌, ◌==◌, arith, select_where, order_by, max,
}
use simply_storage.Error.{ok, err, internal, unauthorized}
use simply_storage.Json.{null, get, insert}
use simply_storage.Db.File.{File, FileReference, find_by_id, find_by_file_id}
use simply_storage.Db.Location.{FileLocation, synced, find_for_file}
use simply_storage.Db.Storage.{find_project, find_storage, find_for_project_and_storage}
use simply_storage.Db.SharedLink.{find_by_token, increment_download_count}
use simply_storage.Db.SharedLink
use simply_storage.Db.SharedLink.Limit.{Statement, increment, remove, switch_off, served, served-le}
use simply_storage.Backend.{create_backend, required_keys, require_keys}
use simply_storage.Resolver.{
  resolve_project_backend, container_key, apply_container_to_config, container_value,
  effective_container, trim_end_slashes, project_backends, resolve_backends_for_location,
}
use simply_storage.FileService.Download.{download_from, download_first}
use simply_storage.World.{World}
use simply_storage.SharedLink.{
  Crypto, DownloadTokenClaims, SharedLinkDownloadResult, verify_password, validate_download_token,
  validate_link_accessible, generate_download_token, download_via_link, authorise, fetch, prepare,
  count_download,
}
use simply_storage.SharedLink.Token.{IsFaithful, verify_password-validate_download_token}
use simply_storage.SharedLink.Download.{IsAuthorised, download_via_link-IsAuthorised}
use simply_storage.Tests.Samples.{fresh_world, answering}

abbrev tally : ℕ → String
tally zero = ""
tally (suc n) = String.◌∷◌ "l" (tally n)

abbrev size : String → ℕ
size String.[] = 0
size (String.◌∷◌ _ s) = suc (size s)

size-tally : (n : ℕ) → size (tally n) ≡ n
size-tally zero = refl
size-tally (suc n) = ap suc (size-tally n)

tally-inj : (i j : ℕ) → tally i ≡ tally j → i ≡ j
tally-inj i j h = sym (size-tally i) ∙ ap size h ∙ size-tally j

abbrev claims : DownloadTokenClaims
claims = record { sub = "tok"; link_id = tally 1; exp = 400 }

-- A signer that knows one token.
abbrev signer : Crypto
signer = record {
  to_text = tally;
  encode = λ c.
      if str_eq c.sub "tok" && str_eq c.link_id (tally 1) && c.exp == 400
      then ok "jwt"
      else err (internal "no key");
  decode = λ now t. if str_eq t "jwt" && leb now 400 then some claims else none;
  hash_password = λ pw. ok pw;
  check_password = str_eq;
}

abbrev link : SharedLink.SharedLink
link = record {
  id = 1;
  token = "tok";
  file_id = 3;
  project_id = 1;
  original_name = "letter.txt";
  created_by = 9;
  password_hash = some "secret";
  expires_at = some 1000;
  max_downloads = some 1;
  download_count = 0;
  last_accessed_at = none;
  is_active = true;
  created_at = 50;
}

abbrev letter : File
letter = record {
  id = 3;
  hash_sha256 = "abcdef";
  size = 2;
  content_type = "text/plain";
  created_at = 4;
}

abbrev letter_ref : FileReference
letter_ref = record {
  id = 5;
  file_id = 3;
  project_id = 1;
  original_name = "letter.txt";
  metadata = null;
  created_at = 4;
}

abbrev letter_at : FileLocation
letter_at = record {
  id = 4;
  file_id = 3;
  storage_id = 10;
  storage_path = "ab/cd/abcdef";
  status = synced;
  synced_at = some 2;
  last_accessed_at = none;
  created_at = 2;
}

abbrev shared : World
shared = record fresh_world {
  files = letter ∷ [];
  references = letter_ref ∷ [];
  locations = letter_at ∷ [];
  shared_links = link ∷ [];
}

signer-IsFaithful : IsFaithful signer
signer-IsFaithful c now t e h =
    ground
      (arith, e, h, eq_iff c.sub "tok", eq_iff c.link_id (tally 1), eq_iff t "jwt", eq_refl "jwt")

verify_password-validate_download_token_example :
    (validate_download_token signer 350 "jwt" "tok" 1 ≡ ok tt)
    × ((other : ℕ) (t : String)
        → other ≢ 1
        → validate_download_token signer 350 "jwt" t other
          ≡ err (unauthorized "Download token does not match this link"))
unfolding find_by_token find verify_password validate_link_accessible generate_download_token
verify_password-validate_download_token_example =
    verify_password-validate_download_token signer 100 350 "tok" "secret" "jwt" shared link
      signer-IsFaithful tally-inj refl refl (omega arith)

abbrev result : SharedLinkDownloadResult
result = record {
  content = 1 ∷ 2 ∷ [];
  content_type = "text/plain";
  file_name = "letter.txt";
  file_id = 3;
  project_id = 1;
  storage_id = 10;
  file_size = 2;
}

download_via_link-IsAuthorised_example :
    (l : SharedLink.SharedLink) × (find_by_token "tok" shared.shared_links ≡ ok l)
    × IsAuthorised signer 350 (some "jwt") l
    × ((increment_download_count 350 l.id shared.shared_links).0 ≡ true)
    × ((download_via_link signer 350 answering (λ ls. ls) "tok" (some "jwt") shared).1.shared_links
        ≡ (increment_download_count 350 l.id shared.shared_links).1)
unfolding download_via_link find_by_token find increment_download_count exists authorise fetch
    prepare count_download validate_link_accessible validate_download_token find_by_id
    find_by_file_id find_for_file select_where order_by download_from download_first find_project
    find_storage find_for_project_and_storage container_key resolve_project_backend create_backend
    apply_container_to_config container_value effective_container trim_end_slashes required_keys
    require_keys get insert project_backends resolve_backends_for_location
download_via_link-IsAuthorised_example =
    download_via_link-IsAuthorised signer 350 answering (λ ls. ls) "tok" (some "jwt") shared result
      refl

abbrev history : List Statement
history = increment 60 1 ∷ switch_off 1 ∷ increment 70 1 ∷ remove 1 ∷ []

served-le_example : 0 + served 1 history (link ∷ []) ≤ max 0 1
served-le_example =
    served-le 1 1 0 history (link ∷ []) (tt, (tt, (tt, (tt, tt)))) ((λ _. (refl, omega arith)), tt)
