-- ===== src/FileRoutes/Enrich.antt =====
-- `enrich_file_references` of api/files.rs: how far a file has come to the storages of a project.
use simply_storage.Prelude.{
  ℕ, ◌≤◌, ◌<◌, ◌≡◌, refl, String, Option, none, some, Bool, true, false, ◌↔◌, List, [], ◌∷◌, map,
  arith, eq_iff, if◌then◌else◌, ◌==◌, ltb, leb, length, find, count_where, Bool-cases, inl, inr,
  All,
}
use simply_storage.Error.{AppResult, ok, err}
use simply_storage.Db.Storage.{Storage, list_for_project}
use simply_storage.Db.File.{FileReference, find_by_id}
use simply_storage.Db.Location.{
  FileLocation, LocationStatus, pending, synced, archived, restoring, is_synced, find_all_for_file,
}
use simply_storage.World.{World}

pub record StorageSyncDetail : Type 0 where
  pub storage_id : ℕ
  pub storage_name : String
  pub storage_type : String
  pub status : String
  pub storage_path : Option String
  pub supports_direct_links : Bool
  pub is_hot : Bool
  pub synced_at : Option ℕ

pub record FileReferenceWithSync : Type 0 where
  pub file_ref : FileReference
  pub file_size : ℕ
  pub sync_status : String
  pub synced_storages : ℕ
  pub total_storages : ℕ
  pub sync_details : List StorageSyncDetail

abbrev status_text : LocationStatus → String
status_text pending = "pending"
status_text synced = "synced"
status_text archived = "archived"
status_text restoring = "restoring"

-- The location that counts for a storage.
abbrev location_at : List FileLocation → Storage → Option FileLocation
location_at locations s = find (λ l. l.storage_id == s.id) locations

abbrev detail : Storage → Option FileLocation → StorageSyncDetail
detail s none = record {
  storage_id = s.id;
  storage_name = s.name;
  storage_type = s.storage_type;
  status = "not_synced";
  storage_path = none;
  supports_direct_links = s.supports_direct_links;
  is_hot = s.is_hot;
  synced_at = none;
}
detail s (some l) = record {
  storage_id = s.id;
  storage_name = s.name;
  storage_type = s.storage_type;
  status = status_text l.status;
  storage_path = some l.storage_path;
  supports_direct_links = s.supports_direct_links;
  is_hot = s.is_hot;
  synced_at = l.synced_at;
}

abbrev pub counts_as_synced : Option FileLocation → Bool
counts_as_synced none = false
counts_as_synced (some l) = is_synced l.status

unfoldable pub status_of : ℕ → ℕ → String
status_of synced_count total =
    if total == 0
    then "no_storage"
    else if leb total synced_count
    then "synced"
    else if ltb 0 synced_count
    then "partial"
    else "pending"

abbrev size_of {ℓ} : {A : Type ℓ} → (A → ℕ) → AppResult A → ℕ
size_of size (ok a) = size a
size_of size (err _) = 0

unfoldable pub enriched : World → List Storage → FileReference → FileReferenceWithSync
unfolding find_by_id find_all_for_file status_of
enriched w storages r =
    let locations = find_all_for_file r.file_id w.locations in
    let count = count_where (λ s. counts_as_synced (location_at locations s)) storages in
    record {
      file_ref = r;
      file_size = size_of (λ f. f.size) (find_by_id r.file_id w.files);
      sync_status = status_of count (length storages);
      synced_storages = count;
      total_storages = length storages;
      sync_details = map (λ s. detail s (location_at locations s)) storages;
    }

unfoldable pub enrich_file_references : ℕ → List FileReference → World → List FileReferenceWithSync
unfolding list_for_project enriched
enrich_file_references project_id refs w =
    map (enriched w (list_for_project project_id w.assignments w.storages)) refs

-- The status of a storage that the answer gives.
abbrev pub Says : String → StorageSyncDetail → Type 0
Says text d = d.status ≡ text

status_text_synced :
    (status : LocationStatus) → (is_synced status ≡ true) ↔ (status_text status ≡ "synced")
status_text_synced pending = ((λ h. cc), (λ h. ground (arith, h, eq_iff "pending" "synced")))
status_text_synced synced = ((λ h. refl), (λ h. refl))
status_text_synced archived = ((λ h. cc), (λ h. ground (arith, h, eq_iff "archived" "synced")))
status_text_synced restoring = ((λ h. cc), (λ h. ground (arith, h, eq_iff "restoring" "synced")))

detail-Says :
    (s : Storage) (o : Option FileLocation)
    → (counts_as_synced o ≡ true) ↔ Says "synced" (detail s o)
detail-Says s none = ((λ h. cc), (λ h. ground (arith, h, eq_iff "not_synced" "synced")))
detail-Says s (some l) = status_text_synced l.status

count-le-length : {A : Type 0} (p : A → Bool) (xs : List A) → count_where p xs ≤ length xs
unfolding count_where
count-le-length p [] = omega arith
count-le-length p (x ∷ xs) = ground (arith, count-le-length p xs)

abbrev details : List FileLocation → List Storage → List StorageSyncDetail
details locations storages = map (λ s. detail s (location_at locations s)) storages

abbrev synced_count : List FileLocation → List Storage → ℕ
synced_count locations storages =
    count_where (λ s. counts_as_synced (location_at locations s)) storages

details-All :
    (locations : List FileLocation) (storages : List Storage)
    → length storages ≤ synced_count locations storages
    → All (Says "synced") (details locations storages)
unfolding count_where
details-All locations [] h = tt
details-All locations (s ∷ storages) h =
    let rest = count-le-length (λ t. counts_as_synced (location_at locations t)) storages in
    elim (Bool-cases (counts_as_synced (location_at locations s))) [
      | inl e ↦ (
        (detail-Says s (location_at locations s)).0 e,
        details-All locations storages (ground (arith, e, h)),
      )
      | inr e ↦ absurd (ground (arith, e, h, rest))
    ]

count-details :
    (locations : List FileLocation) (storages : List Storage)
    → All (Says "synced") (details locations storages)
    → length storages ≤ synced_count locations storages
unfolding count_where
count-details locations [] h = omega arith
count-details locations (s ∷ storages) h =
    rw ((detail-Says s (location_at locations s)).1 h.0)
      (omega (arith, count-details locations storages h.1))

status_of-synced : (n total : ℕ) → (status_of n total ≡ "synced") ↔ ((0 < total) × (total ≤ n))
unfolding status_of
status_of-synced n total = (
  (λ h. ground (
    arith,
    h,
    eq_iff "no_storage" "synced",
    eq_iff "partial" "synced",
    eq_iff "pending" "synced",
  )),
  (λ h. ground (arith, h.0, h.1)),
)

status_of-none : (n total : ℕ) → (status_of n total ≡ "no_storage") ↔ (total ≡ 0)
unfolding status_of
status_of-none n total = (
  (λ h. ground (
    arith,
    h,
    eq_iff "synced" "no_storage",
    eq_iff "partial" "no_storage",
    eq_iff "pending" "no_storage",
  )),
  (λ h. rw h refl),
)

-- The answer for a reference is `synced` exactly when the project has a storage that counts and the
-- answer says of each one that it is synced; `no_storage` exactly when none counts; and the number
-- of synced storages is at most that of all.
pub enriched-status :
    (r : FileReference) (storages : List Storage) (w : World)
    → let e = enriched w storages r in
      ((e.sync_status ≡ "synced") ↔ ((0 < e.total_storages) × All (Says "synced") e.sync_details))
      × ((e.sync_status ≡ "no_storage") ↔ (e.total_storages ≡ 0))
      × (e.synced_storages ≤ e.total_storages)
unfolding enriched
enriched-status r storages w =
    let locations = find_all_for_file r.file_id w.locations in
    let n = synced_count locations storages in
    (
      (
        (λ h.
            let (some_, all) = (status_of-synced n (length storages)).0 h in
            (some_, details-All locations storages all)),
        (λ h. (status_of-synced n (length storages)).1 (h.0, count-details locations storages h.1)),
      ),
      status_of-none n (length storages),
      count-le-length (λ s. counts_as_synced (location_at locations s)) storages,
    )
