-- ===== src/Tests/Storages.antt =====
-- Two storages of which one is changed to a configuration without a path.
use simply_storage.Prelude.{
  ℕ, ◌≤◌, ◌*◌, ◌≡◌, refl, none, some, List, [], ◌∷◌, arith, pos, find, take, Bool-cases, inl, inr,
  ◌==◌,
}
use simply_storage.Error.{ok, bad_request}
use simply_storage.Json.{no_members, get, insert}
use simply_storage.Db.Storage.{UpdateStorage, updated, merge_config, preserve_key, redacted}
use simply_storage.Db.Storage.Statements.{CreateStorage, has_id}
use simply_storage.Backend.{required_keys, require_keys, create_backend}
use simply_storage.Backend.Registry
use simply_storage.Backend.Registry.{lookup}
use simply_storage.Pagination.{PaginationParams, limit}
use simply_storage.Pagination.Cover.{pages, pages-cover}
use simply_storage.Storages.{update_storage}
use simply_storage.Storages.InStep.{
  StorageRequest, creates, updates, disables, after, IsInStep, storage_requests-IsInStep,
  update_storage_stale,
}
use simply_storage.World.{World}
use simply_storage.Tests.Samples.{fresh_world, storage, local_backend, local_config}

abbrev one_storage : World
one_storage = record fresh_world { storages = storage 10 ∷ []; registry = (10, local_backend) ∷ [] }

one_storage-IsInStep : IsInStep (λ _. ok tt) one_storage
unfolding lookup find required_keys require_keys create_backend get
one_storage-IsInStep = record {
  below = (omega arith, tt);
  fits = λ id. elim (Bool-cases (10 == id)) [ inl e ↦ rw e refl | inr e ↦ rw e refl ];
}

abbrev without_path : UpdateStorage
without_path = record {
  name = none;
  storage_type = none;
  config = some no_members;
  is_hot = none;
  project_id = none;
  enabled = none;
  supports_direct_links = none;
}

abbrev another : CreateStorage
another = record {
  name = "disk";
  storage_type = "local";
  config = local_config;
  is_hot = none;
  project_id = none;
  enabled = none;
  supports_direct_links = none;
}

abbrev requests : List StorageRequest
requests = creates 5 another ∷ updates 10 without_path ∷ disables 100 ∷ []

storage_requests-IsInStep_example : IsInStep (λ _. ok tt) (after (λ _. ok tt) requests one_storage)
storage_requests-IsInStep_example =
    storage_requests-IsInStep (λ _. ok tt) requests one_storage one_storage-IsInStep

update_storage_stale_example :
    let (r, w') = update_storage (λ _. ok tt) 10 without_path one_storage in
    (r ≡ ok (redacted (updated without_path (storage 10))))
    × (find (has_id 10) w'.storages ≡ some (updated without_path (storage 10)))
    × (Registry.get 10 w'.registry ≡ ok local_backend)
unfolding find required_keys require_keys create_backend get updated merge_config preserve_key
    insert
update_storage_stale_example =
    update_storage_stale (λ _. ok tt) 10 without_path one_storage (storage 10) local_backend
      (bad_request "local storage requires 'path' config") one_storage-IsInStep refl refl refl refl
      refl

abbrev by_two : PaginationParams
by_two = record { page = none; per_page = some (pos 2) }

abbrev letters : List ℕ
letters = 1 ∷ 2 ∷ 3 ∷ 4 ∷ 5 ∷ []

pages-cover_example :
    (1 ≤ limit by_two)
    × (limit by_two ≤ 1000)
    × (pages 2 by_two letters ≡ take (2 * limit by_two) letters)
unfolding limit
pages-cover_example = pages-cover 2 by_two letters (omega arith)
