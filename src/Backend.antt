-- ===== src/Backend.antt =====
-- storage/registry.rs: building a backend from a storage's type and configuration, and the registry
-- of backends by storage id. A backend is known by the type and the configuration that it is built
-- from. The registry's lock makes each of its operations one step.
pub mod Registry
pub mod Local
use Prim.Native.String.{◌++◌ as str_append}
use simply_storage.Prelude.{
  String, Option, none, some, List, [], ◌∷◌, Bool, true, false, str_eq, if◌then◌else◌, ◌≡◌, arith,
  trim,
}
use simply_storage.Error.{AppError, AppResult, ok, err, bad_request, ◌>>=◌, ◌>>◌}
use simply_storage.Json.{Members, string, get, insert, as_str}

pub record Backend : Type 0 where
  pub storage_type : String
  pub config : Members

-- `config[key].as_str().ok_or_else(…)?` for each key in turn.
abbrev key_missing : String → String → String
key_missing storage_type key = str_append storage_type (
    str_append " storage requires '"
      (str_append key (if str_eq storage_type "local" then "' config" else "'")))

unfoldable pub require_keys : String → List String → Members → AppResult (Unit {0})
require_keys storage_type [] config = ok tt
require_keys storage_type (key ∷ keys) config = elim (as_str (get key config)) [
  | none ↦ err (bad_request (key_missing storage_type key))
  | some _ ↦ require_keys storage_type keys config
]

-- The keys that a type cannot do without; `none` is a type that the match does not know. Samba is
-- refused, as it is without its cargo feature, which is off by default.
unfoldable pub required_keys : String → Option (List String)
required_keys storage_type =
    if str_eq storage_type "local"
    then some ("path" ∷ [])
    else if str_eq storage_type "s3"
    then some ("access_key_id" ∷ "secret_access_key" ∷ [])
    else if str_eq storage_type "azure"
    then some ("account_name" ∷ "account_key" ∷ [])
    else if str_eq storage_type "gcs"
    then some ("client_email" ∷ "private_key_pem" ∷ [])
    else if str_eq storage_type "hetzner"
    then some ("host" ∷ "username" ∷ "password" ∷ [])
    else if str_eq storage_type "ftp"
    then some ("host" ∷ "username" ∷ "password" ∷ [])
    else if str_eq storage_type "sftp"
    then some ("host" ∷ "username" ∷ "password" ∷ [])
    else none

unfoldable pub no_such_type : String → AppError
no_such_type storage_type =
    if str_eq storage_type "samba"
    then bad_request "Samba storage requires the 'samba' feature to be enabled at compile time"
    else bad_request "Unsupported storage type: {}"

-- `config[key].as_str().map(|s| s.trim())`, where the configuration has the text.
unfoldable pub trim_key : String → Members → Members
unfolding trim
trim_key key config = elim (as_str (get key config)) [
  | none ↦ config
  | some text ↦ insert key (string (trim text)) config
]

-- The configuration as the backend has it: the names of buckets and containers are trimmed, as are
-- the address and the region of S3. A private key is cleaned by the client.
unfoldable pub trimmed : String → Members → Members
unfolding trim_key
trimmed storage_type config =
    if str_eq storage_type "s3"
    then trim_key "bucket" (trim_key "region" (trim_key "endpoint_url" config))
    else if str_eq storage_type "azure"
    then trim_key "container" config
    else if str_eq storage_type "gcs"
    then trim_key "bucket" config
    else config

abbrev pub backend_of : String → Members → Backend
backend_of storage_type config = record {
  storage_type = storage_type;
  config = trimmed storage_type config;
}

-- `client` is what the constructor of the backend's client answers: those of Azure and Google
-- decode a key and may fail.
module _ (client : Backend → AppResult (Unit {0})) where
  unfoldable pub create_backend : String → Members → AppResult Backend
  unfolding required_keys no_such_type trimmed
  create_backend storage_type config = elim (required_keys storage_type) [
    | none ↦ err (no_such_type storage_type)
    | some keys ↦ do
      require_keys storage_type keys config
      client (backend_of storage_type config)
      ok (backend_of storage_type config)
  ]

  -- A backend that is made has the type that it was asked for, and the trimmed configuration.
  pub create_backend-ok :
      (storage_type : String) (config : Members) (b : Backend)
      → create_backend storage_type config ≡ ok b
      → b ≡ backend_of storage_type config
  unfolding create_backend
  create_backend-ok storage_type config b h = ground arith
