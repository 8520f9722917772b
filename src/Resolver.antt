-- ===== src/Resolver.antt =====
-- services/backend_resolver.rs: which container of a storage a project uses, and the backend for it.

pub mod Isolation
use Prim.Native.Char.{Char, code}
use Prim.Native.String.{◌++◌ as str_append}
use Prim.Native.String
use simply_storage.Prelude.{
  ℕ, String, Option, none, some, Bool, true, false, ◌&&◌, ◌||◌, List, [], ◌∷◌, ◌++◌, ◌==◌, str_eq,
  if◌then◌else◌, unwrap_or,
}
use simply_storage.Error.{AppResult, ok, err, ◌>>=◌}
use simply_storage.Json.{Members, Value, string, get, insert, as_str}
use simply_storage.Db.Storage.{
  Project, Storage, ProjectStorage, find_project, find_storage, find_for_project_and_storage,
}
use simply_storage.Backend.{Backend, create_backend}
use simply_storage.Backend.Registry.{Registry}
use simply_storage.Backend.Registry

-- `trim_end_matches('/')`
abbrev pub put_unless_slash : Char → String → String
put_unless_slash c String.[] = if code c == b'/' then "" else String.◌∷◌ c ""
put_unless_slash c (String.◌∷◌ d s) = String.◌∷◌ c (String.◌∷◌ d s)

unfoldable pub trim_end_slashes : String → String
trim_end_slashes String.[] = ""
trim_end_slashes (String.◌∷◌ c s) = put_unless_slash c (trim_end_slashes s)

-- `format!("{}/{}", base, container)`
abbrev pub join_path : String → String → String
join_path base container = str_append base (str_append "/" container)

-- The member of the configuration that names the container, for the types that have one.
unfoldable pub container_key : String → Option String
container_key storage_type =
    if str_eq storage_type "s3" || str_eq storage_type "gcs"
    then some "bucket"
    else if str_eq storage_type "azure"
    then some "container"
    else if str_eq storage_type "local"
    then some "path"
    else if str_eq storage_type "hetzner"
        || str_eq storage_type "ftp"
        || str_eq storage_type "sftp"
        || str_eq storage_type "samba"
    then some "base_path"
    else none

-- What is written there.
unfoldable pub container_value : String → Members → String → String
unfolding trim_end_slashes
container_value key config container =
    if str_eq key "path"
    then join_path (trim_end_slashes (unwrap_or (as_str (get "path" config)) "/data")) container
    else if str_eq key "base_path"
    then (let base = unwrap_or (as_str (get "base_path" config)) "" in
        if str_eq base "" then container else join_path (trim_end_slashes base) container)
    else container

unfoldable pub apply_container_to_config : Members → String → String → Members
unfolding container_key container_value
apply_container_to_config config storage_type container = elim (container_key storage_type) [
  | none ↦ config
  | some key ↦ insert key (string (container_value key config container)) config
]

abbrev pub with_prefix : Option ProjectStorage → Members → Members
with_prefix none config = config
with_prefix (some ps) config = elim ps.prefix_override [
  | none ↦ config
  | some prefix ↦ insert "prefix" (string prefix) config
]

-- `short_id` is the first six characters of an id as `Uuid` prints it.
module _ (short_id : ℕ → String) where
  abbrev derived_container : String → ℕ → String
  derived_container slug id = str_append slug (str_append "-" (short_id id))

  unfoldable pub effective_container : Project → Option ProjectStorage → String
  effective_container project none = project.slug
  effective_container project (some ps) = elim ps.container_override [
    | none ↦ derived_container project.slug ps.id
    | some override_name ↦
        if str_eq override_name "" then derived_container project.slug ps.id else override_name
  ]

  module _ (client : Backend → AppResult (Unit {0})) where
    -- Creating the container, whose failure is only logged, is left out.
    unfoldable pub resolve_project_backend :
        List Project → List ProjectStorage → Storage → ℕ → AppResult Backend
    resolve_project_backend projects assignments storage project_id = do
      project ← find_project project_id projects
      let assignment = find_for_project_and_storage project_id storage.id assignments
      let container = effective_container project assignment
      create_backend client storage.storage_type (
          with_prefix assignment
            (apply_container_to_config storage.config storage.storage_type container))

    abbrev put_ok : AppResult Backend → List Backend → List Backend
    put_ok (ok b) rest = b ∷ rest
    put_ok (err _) rest = rest

    -- The backends of the projects that refer to the file; those that fail are left out.
    unfoldable pub project_backends :
        List Project → List ProjectStorage → Storage → List ℕ → List Backend
    project_backends projects assignments storage [] = []
    project_backends projects assignments storage (p ∷ ps) =
        put_ok (resolve_project_backend projects assignments storage p)
          (project_backends projects assignments storage ps)

    abbrev if_empty : List Backend → AppResult Backend → List Backend
    if_empty [] fallback = put_ok fallback []
    if_empty (b ∷ bs) fallback = b ∷ bs

    -- `project_ids` are those of the file's references.
    unfoldable pub resolve_backends_for_location :
        List Project → List ProjectStorage → List Storage → Registry → ℕ → List ℕ → List Backend
    unfolding project_backends
    resolve_backends_for_location projects assignments storages registry storage_id project_ids =
        if_empty
          (elim (find_storage storage_id storages) [
            | err _ ↦ []
            | ok storage ↦ project_backends projects assignments storage project_ids
          ])
          (Registry.get storage_id registry)
