-- ===== src/Backend/Registry.antt =====
-- `StorageRegistry` of storage/registry.rs: a hash map from storage ids to backends.
use simply_storage.Prelude.{
  ℕ, ◌≡◌, refl, Option, none, some, Bool, false, List, [], ◌∷◌, map, arith, ◌==◌, leb,
  if◌then◌else◌, is_some, order_by, select_where,
}
use simply_storage.Error.{AppResult, ok, err, ok_or, not_found}
use simply_storage.Db.Storage.{Storage}
use simply_storage.Backend.{Backend, create_backend}

abbrev pub Registry : Type 0
Registry = List (ℕ × Backend)

unfoldable pub lookup : ℕ → Registry → Option Backend
lookup id [] = none
lookup id ((i, b) ∷ rest) = if i == id then some b else lookup id rest

unfoldable pub register : ℕ → Backend → Registry → Registry
register id backend [] = (id, backend) ∷ []
register id backend ((i, b) ∷ rest) =
    if i == id then (id, backend) ∷ rest else (i, b) ∷ register id backend rest

unfoldable pub without : ℕ → Registry → Registry
without id [] = []
without id ((i, b) ∷ rest) = if i == id then without id rest else (i, b) ∷ without id rest

-- The removed backend, and the registry without it.
unfoldable pub unregister : ℕ → Registry → Option Backend × Registry
unfolding lookup without
unregister id registry = (lookup id registry, without id registry)

unfoldable pub get : ℕ → Registry → AppResult Backend
unfolding lookup
get id registry = ok_or (lookup id registry) (not_found "Storage backend not found: {}")

unfoldable pub contains : ℕ → Registry → Bool
unfolding lookup
contains id registry = is_some (lookup id registry)

abbrev pub list_ids : Registry → List ℕ
list_ids = map (λ e. e.0)

-- `list_enabled`: the newest storage first.
unfoldable pub list_enabled : List Storage → List Storage
list_enabled storages =
    order_by (λ s t. leb t.created_at s.created_at) (select_where (λ s. s.enabled) storages)

module _ (client : Backend → AppResult (Unit {0})) where
  -- A storage whose backend cannot be built is skipped.
  abbrev pub registered : ℕ → AppResult Backend → Registry → Registry
  registered id (ok backend) registry = register id backend registry
  registered id (err _) registry = registry

  unfoldable pub load_each : List Storage → Registry → Registry
  load_each [] registry = registry
  load_each (s ∷ storages) registry =
      load_each storages (registered s.id (create_backend client s.storage_type s.config) registry)

  unfoldable pub load_backends_from_db : List Storage → Registry → Registry
  unfolding list_enabled load_each
  load_backends_from_db storages = load_each (list_enabled storages)

pub lookup-register :
    (id k : ℕ) (backend : Backend) (registry : Registry)
    → lookup k (register id backend registry)
      ≡ (if id == k then some backend else lookup k registry)
unfolding lookup register
lookup-register id k backend [] = refl
lookup-register id k backend ((i, b) ∷ rest) = ground (arith, lookup-register id k backend rest)

pub lookup-without :
    (id k : ℕ) (registry : Registry)
    → lookup k (without id registry) ≡ (if id == k then none else lookup k registry)
unfolding lookup without
lookup-without id k [] = ground arith
lookup-without id k ((i, b) ∷ rest) = ground (arith, lookup-without id k rest)

-- A backend is found under an id after `register` and `unregister` exactly as in a map: the last
-- one registered there since it was removed.
pub get-register-unregister :
    (id j k : ℕ) (backend : Backend) (registry : Registry)
    → (get k (register id backend registry) ≡ (if id == k then ok backend else get k registry))
      × (get k (unregister j registry).1
          ≡ (if j == k then err (not_found "Storage backend not found: {}") else get k registry))
      × ((unregister j registry).0 ≡ none → contains j registry ≡ false)
unfolding get unregister contains
get-register-unregister id j k backend registry =
    (rw lookup-register (ground arith), rw lookup-without (ground arith), (λ e. rw e refl))
