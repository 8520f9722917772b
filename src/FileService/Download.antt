-- ===== src/FileService/Download.antt =====
-- Downloads of services/file_service.rs: the locations and their backends are tried in turn.
use simply_storage.Prelude.{ℕ, String, Option, none, some, not, List, [], ◌∷◌, map}
use simply_storage.Error.{ok, err, not_found, internal, ok_or}
use simply_storage.Error.Action.{Action, pure, lift, gets, modify, require, ◌>>=◌, ◌>>◌}
use simply_storage.Db.File.{File, FileReference, find_by_id, find_by_file_id}
use simply_storage.Db.Location.{FileLocation, find_for_file, touch_accessed}
use simply_storage.Backend.{Backend}
use simply_storage.Resolver.{resolve_backends_for_location}
use simply_storage.World.{World, Env, Bytes}
use simply_storage.FileService.{is_empty}

pub record DownloadResult : Type 0 where
  pub content : Bytes
  pub file : File
  pub content_type : String
  pub original_name : Option String

abbrev pub first_name : List FileReference → Option String
first_name [] = none
first_name (r ∷ _) = some r.original_name

module _ (env : Env) where
  -- The first backend that answers.
  unfoldable pub download_first : String → List Backend → Option Bytes
  download_first path [] = none
  download_first path (b ∷ bs) =
      let rest = download_first path bs in
      elim (env.download b path) [ ok content ↦ some content | err _ ↦ rest ]

  abbrev backends_for : World → List ℕ → FileLocation → List Backend
  backends_for w project_ids loc =
      resolve_backends_for_location env.short_id env.client w.projects w.assignments w.storages
        w.registry loc.storage_id project_ids

  -- The first location whose storage answers, and what it answers.
  unfoldable pub download_from : World → List ℕ → List FileLocation → Option (FileLocation × Bytes)
  unfolding download_first
  download_from w project_ids [] = none
  download_from w project_ids (loc ∷ locs) =
      let rest = download_from w project_ids locs in
      elim (download_first loc.storage_path (backends_for w project_ids loc)) [
        | some content ↦ some (loc, content)
        | none ↦ rest
      ]

  unfoldable pub download_file : ℕ → ℕ → Action World DownloadResult
  unfolding download_from
  download_file now file_id = do
    file ← λ w. (find_by_id file_id w.files, w)
    locations ← gets (λ w. find_for_file file_id w.storages w.locations)
    require (not (is_empty locations)) (not_found "No available storage locations for file {}")
    refs ← gets (λ w. find_by_file_id file_id w.references)
    found ← gets (λ w. download_from w (map (λ r. r.project_id) refs) locations)
    (loc, content) ← lift (ok_or found (internal "All storage locations failed for file {}"))
    modify (λ w. record w { locations = touch_accessed now loc.id w.locations })
    pure (record {
      content = content;
      file = file;
      content_type = file.content_type;
      original_name = first_name refs;
    })
