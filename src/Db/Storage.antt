-- ===== src/Db/Storage.antt =====
-- `Project`, `Storage` and `ProjectStorage` of db/models.rs, as far as files and their copies need
-- them. A storage's configuration is a JSON object.
pub mod Credentials
pub mod Statements
use simply_storage.Prelude.{
  ℕ, String, Option, none, some, Bool, true, false, ◌&&◌, not, List, leb, ltb, ◌==◌, if◌then◌else◌,
  select_where, update_where, order_by, find, exists, [], ◌∷◌, str_eq, unwrap_or, is_some,
}
use simply_storage.Error.{AppResult, ok, err, ok_or, not_found}
use simply_storage.Json.{Members, Value, string, get, insert, contains_key}

pub record Project : Type 0 where
  pub id : ℕ
  pub name : String
  pub slug : String
  pub owner_id : Option ℕ
  pub hot_to_cold_days : Option ℕ
  pub created_at : ℕ
  pub deleted_at : Option ℕ

pub record Storage : Type 0 where
  pub id : ℕ
  pub name : String
  pub storage_type : String
  pub config : Members
  pub is_hot : Bool
  pub project_id : Option ℕ
  pub enabled : Bool
  pub supports_direct_links : Bool
  pub created_at : ℕ

pub record ProjectStorage : Type 0 where
  pub id : ℕ
  pub project_id : ℕ
  pub storage_id : ℕ
  pub container_override : Option String
  pub prefix_override : Option String
  pub is_active : Bool

unfoldable pub find_project : ℕ → List Project → AppResult Project
find_project id projects =
    ok_or (find (λ p. p.id == id && not (is_some p.deleted_at)) projects)
      (not_found "Project {} not found")

unfoldable pub find_for_project_and_storage : ℕ → ℕ → List ProjectStorage → Option ProjectStorage
find_for_project_and_storage project_id storage_id =
    find (λ ps. ps.project_id == project_id && ps.storage_id == storage_id)

unfoldable pub find_storage : ℕ → List Storage → AppResult Storage
find_storage id storages =
    ok_or (find (λ s. s.id == id) storages) (not_found "Storage {} not found")

-- `ORDER BY is_hot DESC, created_at DESC`
abbrev pub hot_then_new : Storage → Storage → Bool
hot_then_new s t =
    if s.is_hot
    then (if t.is_hot then leb t.created_at s.created_at else true)
    else (if t.is_hot then false else leb t.created_at s.created_at)

abbrev pub is_assigned : ℕ → List ProjectStorage → Storage → Bool
is_assigned project_id assignments s =
    exists (λ ps. ps.storage_id == s.id && ps.project_id == project_id && ps.is_active) assignments

-- The join has one row for a storage, since the pair of project and storage is unique.
unfoldable pub list_for_project : ℕ → List ProjectStorage → List Storage → List Storage
list_for_project project_id assignments storages =
    order_by hot_then_new
      (select_where (λ s. is_assigned project_id assignments s && s.enabled) storages)

abbrev pub sensitive_config_keys : List String
sensitive_config_keys = "secret_access_key" ∷ "account_key" ∷ "password" ∷ "private_key_pem" ∷ []

abbrev pub redacted_mark : Value
redacted_mark = string "***"

unfoldable pub redact_keys : List String → Members → Members
redact_keys [] config = config
redact_keys (key ∷ keys) config =
    redact_keys keys (if contains_key key config then insert key redacted_mark config else config)

unfoldable pub redacted : Storage → Storage
unfolding redact_keys
redacted s = record s { config = redact_keys sensitive_config_keys s.config }

-- The field was not sent, or was sent as the redaction mark.
abbrev pub should_preserve : Option Value → Bool
should_preserve none = true
should_preserve (some (string val)) = str_eq val "***"
should_preserve (some _) = false

-- One round of the loop over the sensitive keys; `current` is the configuration in the table.
unfoldable pub preserve_key : String → Members → Members → Members
preserve_key key current merged =
    if should_preserve (get key merged)
    then elim (get key current) [ none ↦ merged | some original ↦ insert key original merged ]
    else merged

unfoldable pub merge_config : List String → Members → Members → Members
unfolding preserve_key
merge_config [] current merged = merged
merge_config (key ∷ keys) current merged =
    merge_config keys current (preserve_key key current merged)

pub record UpdateStorage : Type 0 where
  pub name : Option String
  pub storage_type : Option String
  pub config : Option Members
  pub is_hot : Option Bool
  pub project_id : Option (Option ℕ)
  pub enabled : Option Bool
  pub supports_direct_links : Option Bool

unfoldable pub updated : UpdateStorage → Storage → Storage
unfolding merge_config
updated input current = record current {
  name = unwrap_or input.name current.name;
  storage_type = unwrap_or input.storage_type current.storage_type;
  config = elim input.config [
    | none ↦ current.config
    | some config ↦ merge_config sensitive_config_keys current.config config
  ];
  is_hot = unwrap_or input.is_hot current.is_hot;
  project_id = unwrap_or input.project_id current.project_id;
  enabled = unwrap_or input.enabled current.enabled;
  supports_direct_links = unwrap_or input.supports_direct_links current.supports_direct_links;
}

-- The UPDATE writes the columns computed from the row that was read first.
unfoldable pub update : ℕ → UpdateStorage → List Storage → AppResult Storage × List Storage
unfolding updated find_storage
update id input storages = elim (find_storage id storages) [
  | err e ↦ (err e, storages)
  | ok current ↦ (
    ok (updated input current),
    update_where (λ s. s.id == id)
        (λ s. record (updated input current) { created_at = s.created_at }) storages,
  )
]
