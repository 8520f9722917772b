-- ===== src/Db/UploadSession.antt =====
-- `UploadSession` of db/models.rs. The path of the temporary file, `{uploads_dir}/{id}.part`, stands
-- for the id in it. Sizes and offsets are not negative.
use simply_storage.Prelude.{
  ℕ, String, Option, none, some, Bool, true, false, ◌&&◌, List, [], ◌∷◌, ◌++◌, ◌==◌, ltb, leb, take,
  select_where, update_where, delete_where, order_by, find,
}
use simply_storage.Error.{AppResult, ok_or, not_found}
use simply_storage.Json.{Value}

pub data SessionStatus : Type 0 where
  in_progress completed aborted : SessionStatus

abbrev pub is_in_progress : SessionStatus → Bool
is_in_progress in_progress = true
is_in_progress _ = false

pub record UploadSession : Type 0 where
  pub id : ℕ
  pub project_id : ℕ
  pub user_id : ℕ
  pub original_name : String
  pub content_type : String
  pub total_size : ℕ
  pub offset_bytes : ℕ
  pub temp_path : ℕ
  pub metadata : Value
  pub status : SessionStatus
  pub created_at : ℕ
  pub updated_at : ℕ
  pub expires_at : ℕ

pub record CreateUploadSession : Type 0 where
  pub project_id : ℕ
  pub user_id : ℕ
  pub original_name : String
  pub content_type : String
  pub total_size : ℕ
  pub temp_path : ℕ
  pub metadata : Value
  pub expires_at : ℕ

abbrev pub new_session : ℕ → ℕ → CreateUploadSession → UploadSession
new_session now id input = record {
  id = id;
  project_id = input.project_id;
  user_id = input.user_id;
  original_name = input.original_name;
  content_type = input.content_type;
  total_size = input.total_size;
  offset_bytes = 0;
  temp_path = input.temp_path;
  metadata = input.metadata;
  status = in_progress;
  created_at = now;
  updated_at = now;
  expires_at = input.expires_at;
}

unfoldable pub create :
    ℕ → ℕ → CreateUploadSession → List UploadSession → UploadSession × List UploadSession
create now id input sessions = (new_session now id input, sessions ++ new_session now id input ∷ [])

abbrev pub has_id : ℕ → UploadSession → Bool
has_id id s = s.id == id

unfoldable pub find_by_id : ℕ → List UploadSession → AppResult UploadSession
find_by_id id sessions = ok_or (find (has_id id) sessions) (not_found "Upload session {} not found")

abbrev pub is_at_offset : ℕ → ℕ → UploadSession → Bool
is_at_offset id expected_offset s =
    has_id id s && s.offset_bytes == expected_offset && is_in_progress s.status

-- `RETURNING *`: the row after the update, if there is one.
unfoldable pub advance_offset :
    ℕ → ℕ → ℕ → ℕ → List UploadSession → Option UploadSession × List UploadSession
advance_offset now id expected_offset new_offset sessions =
    let advanced : UploadSession → UploadSession =
      λ s. record s { offset_bytes = new_offset; updated_at = now } in
    (
      elim (find (is_at_offset id expected_offset) sessions) [
        | none ↦ none
        | some s ↦ some (advanced s)
      ],
      update_where (is_at_offset id expected_offset) advanced sessions,
    )

unfoldable pub mark_status : ℕ → ℕ → SessionStatus → List UploadSession → List UploadSession
mark_status now id status =
    update_where (has_id id) (λ s. record s { status = status; updated_at = now })

unfoldable pub delete : ℕ → List UploadSession → List UploadSession
delete id = delete_where (has_id id)

unfoldable pub find_expired : ℕ → ℕ → List UploadSession → List UploadSession
find_expired now limit sessions = take limit (
    order_by (λ s t. leb s.expires_at t.expires_at)
      (select_where (λ s. ltb s.expires_at now && is_in_progress s.status) sessions))

abbrev is_terminal : SessionStatus → Bool
is_terminal in_progress = false
is_terminal _ = true

unfoldable pub prune_terminal : ℕ → List UploadSession → List UploadSession
prune_terminal older_than = delete_where (λ s. is_terminal s.status && ltb s.updated_at older_than)
