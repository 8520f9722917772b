-- ===== src/Db/Location.antt =====
-- `FileLocation` of db/models.rs: which storage holds a copy of which file. The table has a unique
-- constraint on the pair of file and storage.
pub mod Unique
use simply_storage.Prelude.{
  ℕ, String, Option, none, some, Bool, true, false, ◌&&◌, List, [], ◌∷◌, ◌++◌, leb, ◌==◌,
  if◌then◌else◌, select_where, update_where, order_by, find, exists,
}
use simply_storage.Error.{
  AppResult, ok, err, ok_or, AppError, not_found, database, SqlError, unique_violation,
}
use simply_storage.Db.Storage.{Storage}

-- The text column `status`, by the values that the code writes.
pub data LocationStatus : Type 0 where
  pending synced archived restoring : LocationStatus

abbrev pub is_synced : LocationStatus → Bool
is_synced synced = true
is_synced _ = false

abbrev pub is_archived : LocationStatus → Bool
is_archived archived = true
is_archived _ = false

pub record FileLocation : Type 0 where
  pub id : ℕ
  pub file_id : ℕ
  pub storage_id : ℕ
  pub storage_path : String
  pub status : LocationStatus
  pub synced_at : Option ℕ
  pub last_accessed_at : Option ℕ
  pub created_at : ℕ

pub record CreateFileLocation : Type 0 where
  pub file_id : ℕ
  pub storage_id : ℕ
  pub storage_path : String
  pub status : LocationStatus

abbrev pub is_at : ℕ → ℕ → FileLocation → Bool
is_at file_id storage_id l = l.file_id == file_id && l.storage_id == storage_id

abbrev pub new_location : ℕ → ℕ → CreateFileLocation → FileLocation
new_location now id input = record {
  id = id;
  file_id = input.file_id;
  storage_id = input.storage_id;
  storage_path = input.storage_path;
  status = input.status;
  synced_at = if is_synced input.status then some now else none;
  last_accessed_at = none;
  created_at = now;
}

-- The INSERT fails on the unique constraint when the pair has a row already.
unfoldable pub create :
    ℕ → ℕ → CreateFileLocation → List FileLocation → AppResult FileLocation × List FileLocation
create now id input locations =
    if exists (is_at input.file_id input.storage_id) locations
    then (err (database unique_violation), locations)
    else (ok (new_location now id input), locations ++ new_location now id input ∷ [])

abbrev nulls_last : Option ℕ → Option ℕ → Bool
nulls_last none none = true
nulls_last none (some _) = false
nulls_last (some _) none = true
nulls_last (some a) (some b) = leb b a

abbrev storage_is : (Storage → Bool) → List Storage → FileLocation → Bool
storage_is p storages l = exists (λ s. s.id == l.storage_id && p s) storages

abbrev pub on_hot : List Storage → FileLocation → Bool
on_hot = storage_is (λ s. s.is_hot)

abbrev pub on_enabled : List Storage → FileLocation → Bool
on_enabled = storage_is (λ s. s.enabled)

-- `ORDER BY s.is_hot DESC, fl.last_accessed_at DESC NULLS LAST`
abbrev pub hot_then_recent : List Storage → FileLocation → FileLocation → Bool
hot_then_recent storages k l =
    if on_hot storages k
    then (if on_hot storages l then nulls_last k.last_accessed_at l.last_accessed_at else true)
    else (if on_hot storages l then false else nulls_last k.last_accessed_at l.last_accessed_at)

unfoldable pub find_for_file : ℕ → List Storage → List FileLocation → List FileLocation
find_for_file file_id storages locations = order_by (hot_then_recent storages) (
    select_where (λ l. l.file_id == file_id && on_enabled storages l && is_synced l.status)
      locations)

unfoldable pub find_all_for_file : ℕ → List FileLocation → List FileLocation
find_all_for_file file_id locations =
    order_by (λ k l. leb l.created_at k.created_at)
      (select_where (λ l. l.file_id == file_id) locations)

abbrev pub with_status : ℕ → LocationStatus → FileLocation → FileLocation
with_status now status l = record l {
  status = status;
  synced_at = if is_synced status then some now else l.synced_at;
}

unfoldable pub update_status :
    ℕ → ℕ → LocationStatus → List FileLocation → AppResult FileLocation × List FileLocation
update_status now id status locations =
    let locations' = update_where (λ l. l.id == id) (with_status now status) locations in
    (ok_or (find (λ l. l.id == id) locations') (not_found "File location {} not found"), locations')

unfoldable pub update_status_by_file_and_storage :
    ℕ → ℕ → ℕ → LocationStatus → List FileLocation → AppResult FileLocation × List FileLocation
update_status_by_file_and_storage now file_id storage_id status locations =
    let locations' = update_where (is_at file_id storage_id) (with_status now status) locations in
    (
      ok_or (find (is_at file_id storage_id) locations')
          (not_found "File location not found for file {} on storage {}"),
      locations',
    )

unfoldable pub touch_accessed : ℕ → ℕ → List FileLocation → List FileLocation
touch_accessed now id =
    update_where (λ l. l.id == id) (λ l. record l { last_accessed_at = some now })
