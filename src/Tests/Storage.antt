-- ===== src/Tests/Storage.antt =====
-- A storage with a credential, updated by a client that saw it redacted.
use simply_storage.Prelude.{none, some, true, ◌≡◌, refl}
use simply_storage.Json.{Members, string, member, no_members, get, insert, contains_key}
use simply_storage.Db.Storage.{Storage, UpdateStorage, redacted, updated}
use simply_storage.Db.Storage.Credentials.{update-redacted}

abbrev secret_store : Storage
secret_store = record {
  id = 1;
  name = "amazon";
  storage_type = "s3";
  config = member "bucket" (string "b") (member "secret_access_key" (string "k") no_members);
  is_hot = true;
  project_id = none;
  enabled = true;
  supports_direct_links = true;
  created_at = 0;
}

abbrev send : Members → UpdateStorage
send config = record {
  name = none;
  storage_type = none;
  config = some config;
  is_hot = none;
  project_id = none;
  enabled = none;
  supports_direct_links = none;
}

redacted_secret : get "secret_access_key" (redacted secret_store).config ≡ some (string "***")
unfolding redacted get insert contains_key
redacted_secret = refl

update-redacted_example :
    get "secret_access_key" (updated (send (redacted secret_store).config) secret_store).config
    ≡ get "secret_access_key" secret_store.config
update-redacted_example =
    update-redacted "secret_access_key" (send (redacted secret_store).config) secret_store refl
