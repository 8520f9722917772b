-- ===== src/Storages/InStep.antt =====
-- The registry of backends and the table of storages under requests of administrators
-- (api/storages.rs).
use simply_storage.Prelude.{
  ℕ, ◌<◌, ◌≡◌, refl, sym, ap, ◌∙◌, subst, none, some, true, false, List, [], ◌∷◌, arith, ◌==◌, find,
  update_where, find-update_where, find-some, update_none, Option-cases, inl, inr, All, All-imp,
}
use simply_storage.Error.{AppError, AppResult, ok, err, not_found, ok_or, Result-cases}
use simply_storage.Db.Storage.{Storage, UpdateStorage, find_storage, update, updated, redacted}
use simply_storage.Db.Storage.Statements.{
  CreateStorage, new_storage, has_id, create, update_enabled, with_enabled,
}
use simply_storage.Backend.{Backend}
use simply_storage.Backend.Registry.{without, get}
use simply_storage.Storages.{
  register_backend, check_config, create_storage, update_storage, disable_storage,
}
use simply_storage.World.{World}
use simply_storage.Storages.Fit.{built, FitsAll, stepped, put-FitsAll, new-FitsAll}

pub data StorageRequest : Type 0 where
  creates : (now : ℕ) → CreateStorage → StorageRequest
  updates : ℕ → UpdateStorage → StorageRequest
  disables : ℕ → StorageRequest

module _ (client : Backend → AppResult (Unit {0})) where
  -- Ids are drawn in order, and the registry fits the table.
  pub record IsInStep (w : World) : Type 0 where
    pub below : All (λ (s : Storage). s.id < w.next_id) w.storages
    pub fits : FitsAll client w.storages w.registry

  update-find :
      (id k : ℕ) (f : Storage → Storage) (storages : List Storage)
      → ((s : Storage) → has_id k s ≡ true → (f s).id ≡ s.id)
      → (k == id) ≡ false
      → find (has_id id) (update_where (has_id k) f storages) ≡ find (has_id id) storages
  unfolding find update_where
  update-find id k f [] keeps other = refl
  update-find id k f (s ∷ storages) keeps other =
      ground (arith, other, keeps s, update-find id k f storages keeps)

  All-below :
      (n k : ℕ) (f : Storage → Storage) (storages : List Storage)
      → ((s : Storage) → has_id k s ≡ true → (f s).id ≡ s.id)
      → All (λ (s : Storage). s.id < n) storages
      → All (λ (s : Storage). s.id < n) (update_where (has_id k) f storages)
  unfolding update_where
  All-below n k f [] keeps h = tt
  All-below n k f (s ∷ storages) keeps h =
      ground (arith, h, keeps s, All-below n k f storages keeps h.1)

  find_below :
      (n : ℕ) (storages : List Storage)
      → All (λ (s : Storage). s.id < n) storages
      → find (has_id n) storages ≡ none
  unfolding find
  find_below n [] h = refl
  find_below n (s ∷ storages) h = ground (arith, h, find_below n storages)

  -- A row with the id `k` that the request changes by `f`.
  change-IsInStep :
      (k : ℕ) (f : Storage → Storage) (s : Storage) (w : World)
      → find (has_id k) w.storages ≡ some s
      → ((s : Storage) → has_id k s ≡ true → (f s).id ≡ s.id)
      → IsInStep w
      → IsInStep (record w {
        storages = update_where (has_id k) f w.storages;
        registry = stepped client (f s) w.registry;
      })
  change-IsInStep k f s w found keeps good =
      let here : has_id k s ≡ true = find-some (has_id k) w.storages s found in
      let same : (f s).id ≡ k = ground (arith, here, keeps s) in
      record {
        below = All-below w.next_id k f w.storages keeps good.below;
        fits =
            put-FitsAll client (f s) w.storages (update_where (has_id k) f w.storages) w.registry
              (subst (λ n. find (has_id n) (update_where (has_id k) f w.storages) ≡ some (f s))
                (sym same)
                (find-update_where (has_id k) (has_id k) f w.storages (λ a h. rw (keeps a h) refl)
                  ∙ rw (found, here) refl))
              (λ id other. update-find id k f w.storages keeps (rw (← same) other)) good.fits;
      }

  create_storage-IsInStep :
      (now : ℕ) (body : CreateStorage) (w : World)
      → IsInStep w
      → IsInStep (create_storage client now body w).1
  unfolding create_storage create
  create_storage-IsInStep now body w good = elim (Result-cases (check_config client body)) [
    | inl (u, e) ↦
        rw (e, create_storage)
          (record {
            below =
                (omega arith, All-imp (λ (s : Storage) h. omega (arith, h)) w.storages good.below);
            fits =
                new-FitsAll client (new_storage now w.next_id body) w.storages w.registry
                  (find_below w.next_id w.storages good.below) good.fits;
          })
    | inr (x, e) ↦ rw (e, create_storage) good
  ]

  update_missing :
      (id : ℕ) (body : UpdateStorage) (storages : List Storage)
      → find (has_id id) storages ≡ none
      → update id body storages ≡ (err (not_found "Storage {} not found"), storages)
  unfolding update find_storage
  update_missing id body storages missing = rw (missing, update) refl

  update_found :
      (id : ℕ) (body : UpdateStorage) (storages : List Storage) (s : Storage)
      → find (has_id id) storages ≡ some s
      → update id body storages ≡ (
        ok (updated body s),
        update_where
            (has_id id)
            (λ t. record (updated body s) { created_at = t.created_at })
            storages,
      )
  unfolding update find_storage
  update_found id body storages s found = rw (found, update) refl

  updated_found :
      (id : ℕ) (body : UpdateStorage) (storages : List Storage) (s : Storage)
      → find (has_id id) storages ≡ some s
      → find (has_id id) (
          update_where
            (has_id id)
            (λ t. record (updated body s) { created_at = t.created_at })
            storages)
        ≡ some (updated body s)
  unfolding updated
  updated_found id body storages s found =
      find-update_where (has_id id) (has_id id)
        (λ t. record (updated body s) { created_at = t.created_at }) storages
        (λ t h. ground (arith, h, find-some (has_id id) storages s found))
      ∙ rw (found, find-some (has_id id) storages s found) refl

  update_storage-IsInStep :
      (id : ℕ) (body : UpdateStorage) (w : World)
      → IsInStep w
      → IsInStep (update_storage client id body w).1
  unfolding update_storage updated
  update_storage-IsInStep id body w good = elim (Option-cases (find (has_id id) w.storages)) [
    | inl missing ↦ rw (update_missing id body w.storages missing, update_storage) good
    | inr (s, found) ↦
        rw (update_found id body w.storages s found, update_storage)
          (change-IsInStep id (λ t. record (updated body s) { created_at = t.created_at }) s w found
            (λ t h. ground (arith, h, find-some (has_id id) w.storages s found)) good)
  ]

  disable_storage-IsInStep : (id : ℕ) (w : World) → IsInStep w → IsInStep (disable_storage id w).1
  unfolding disable_storage update_enabled
  disable_storage-IsInStep id w good = elim (Option-cases (find (has_id id) w.storages)) [
    | inl none_there ↦
        rw
          (
            update_none (has_id id) (with_enabled false) w.storages none_there,
            none_there,
            disable_storage,
          )
          good
    | inr (s, found) ↦
        rw
          (
            find-update_where (has_id id) (has_id id) (with_enabled false) w.storages (λ a h. refl),
            found,
            disable_storage,
          )
          (subst
            (λ k. IsInStep (record w {
              storages = update_where (has_id id) (with_enabled false) w.storages;
              registry = without k w.registry;
            }))
            (let e : s.id ≡ id = ground (arith, find-some (has_id id) w.storages s found) in e)
            (change-IsInStep id (with_enabled false) s w found (λ a h. refl) good))
  ]

  abbrev answered : StorageRequest → World → World
  answered (creates now body) w = (create_storage client now body w).1
  answered (updates id body) w = (update_storage client id body w).1
  answered (disables id) w = (disable_storage id w).1

  unfoldable pub after : List StorageRequest → World → World
  after [] w = w
  after (r ∷ rs) w = after rs (answered r w)

  -- After every history of requests to create, change and disable storages, the registry has no
  -- backend for an id without an enabled row, and for every enabled row whose backend can be made
  -- it has the backend of the row as it is now.
  pub storage_requests-IsInStep :
      (rs : List StorageRequest) (w : World) → IsInStep w → IsInStep (after rs w)
  unfolding after
  storage_requests-IsInStep [] w good = good
  storage_requests-IsInStep (creates now body ∷ rs) w good =
      storage_requests-IsInStep rs _ (create_storage-IsInStep now body w good)
  storage_requests-IsInStep (updates id body ∷ rs) w good =
      storage_requests-IsInStep rs _ (update_storage-IsInStep id body w good)
  storage_requests-IsInStep (disables id ∷ rs) w good =
      storage_requests-IsInStep rs _ (disable_storage-IsInStep id w good)

  -- A change of an enabled storage to a configuration from which no backend can be made is written
  -- and answered as a success, and the backend of the old configuration goes on serving.
  pub update_storage_stale :
      (id : ℕ) (body : UpdateStorage) (w : World) (s : Storage) (b : Backend) (e : AppError)
      → IsInStep w
      → find (has_id id) w.storages ≡ some s
      → s.enabled ≡ true
      → built client s ≡ ok b
      → (updated body s).enabled ≡ true
      → built client (updated body s) ≡ err e
      → let (r, w') = update_storage client id body w in
        (r ≡ ok (redacted (updated body s)))
        × (find (has_id id) w'.storages ≡ some (updated body s))
        × (get id w'.registry ≡ ok b)
  unfolding update_storage register_backend get
  update_storage_stale id body w s b e good found on made on' fails =
      rw (update_found id body w.storages s found, update_storage)
        (
          refl,
          updated_found id body w.storages s found,
          rw (on', fails)
              (ap (λ o. ok_or o (not_found "Storage backend not found: {}"))
                (rw (found, on, made) at (good.fits id))),
        )
