-- ===== src/FileService/BulkDelete/Physical.antt =====
-- Which stored objects a bulk delete removes (services/file_service.rs).
use mathlib.Core.List.{append_assoc}
use simply_storage.Prelude.{
  ℕ, ◌≡◌, refl, sym, ap, ◌∙◌, some, Bool, true, false, List, [], ◌∷◌, ◌++◌, arith, All-append, ◌==◌,
  All, length, Bool-cases, inl, inr, subst,
}
use simply_storage.Error.{AppResult, ok, err, Result-cases}
use simply_storage.Json.{Value}
use simply_storage.Db.Location.{FileLocation}
use simply_storage.Backend.{Backend}
use simply_storage.Backend.Registry.{Registry, lookup}
use simply_storage.Backend.Registry
use simply_storage.Filter.BulkDelete.{BulkDeleteFilters, build_bulk_delete_clause}
use simply_storage.World.{World, Env, Effect, stored, removed}
use simply_storage.FileService.BulkDelete.{
  OrphanInfo, find_orphaned_from_ids, orphan_infos, delete_orphans, delete_at, delete_copies,
  delete_physical, clean_up, bulk_delete, execute_bulk_delete, unique_ids,
}
use simply_storage.FileService.BulkDelete.Safety.{Same, delete_at-Same, delete_copies-Same}

-- The call was a deletion at a backend of the registry.
abbrev pub FromRegistry : Registry → Effect → Type 0
FromRegistry registry (removed b path) = (id : ℕ) × (lookup id registry ≡ some b)
FromRegistry registry (stored b path content) = true ≡ false

abbrev pub OnlyFromRegistry : World → World → Type 0
OnlyFromRegistry w v =
    (new : List Effect) × (v.effects ≡ new ++ w.effects) × All (FromRegistry w.registry) new

module _ (env : Env) where
  get-lookup :
      (id : ℕ) (registry : Registry) (b : Backend)
      → Registry.get id registry ≡ ok b
      → lookup id registry ≡ some b
  unfolding Registry.get
  get-lookup id registry b h = ground (arith, h)

  delete_at-OnlyFromRegistry :
      (r : AppResult Backend) (l : FileLocation) (w : World)
      → Registry.get l.storage_id w.registry ≡ r
      → OnlyFromRegistry w (delete_at env r l w)
  delete_at-OnlyFromRegistry (err _) l w h = ([], refl, tt)
  delete_at-OnlyFromRegistry (ok b) l w h = elim (Result-cases (env.delete b l.storage_path)) [
    | inl (u, e) ↦
        rw (e, delete_at)
          (
            removed b l.storage_path ∷ [],
            refl,
            ((l.storage_id, get-lookup l.storage_id w.registry b h), tt),
          )
    | inr (x, e) ↦ rw (e, delete_at) ([], refl, tt)
  ]

  chain :
      (u v w : World)
      → v.registry ≡ u.registry
      → OnlyFromRegistry u v
      → OnlyFromRegistry v w
      → OnlyFromRegistry u w
  chain u v w same (new, e, h) (new', e', h') = (
    new' ++ new,
    e' ∙ ap (λ es. new' ++ es) e ∙ sym (append_assoc new' new u.effects),
    All-append (FromRegistry u.registry) new' new (subst (λ r. All (FromRegistry r) new') same h')
        h,
  )

  delete_copies-OnlyFromRegistry :
      (ls : List FileLocation) (w : World) → OnlyFromRegistry w (delete_copies env ls w)
  unfolding delete_copies Same
  delete_copies-OnlyFromRegistry [] w = ([], refl, tt)
  delete_copies-OnlyFromRegistry (l ∷ ls) w =
      let v = delete_at env (Registry.get l.storage_id w.registry) l w in
      chain w v (delete_copies env ls v)
        (delete_at-Same env (Registry.get l.storage_id w.registry) l w).1
        (delete_at-OnlyFromRegistry (Registry.get l.storage_id w.registry) l w refl)
        (delete_copies-OnlyFromRegistry ls v)

  delete_physical-OnlyFromRegistry :
      (infos : List OrphanInfo) (w : World) → OnlyFromRegistry w (delete_physical env infos w)
  unfolding delete_physical Same
  delete_physical-OnlyFromRegistry [] w = ([], refl, tt)
  delete_physical-OnlyFromRegistry (info ∷ infos) w =
      let v = delete_copies env info.locations w in
      chain w v (delete_physical env infos v) (delete_copies-Same env info.locations w).1
        (delete_copies-OnlyFromRegistry info.locations w) (delete_physical-OnlyFromRegistry infos v)

  delete_orphans-outside :
      (infos : List OrphanInfo) (w : World)
      → ((delete_orphans infos w).registry ≡ w.registry)
        × ((delete_orphans infos w).effects ≡ w.effects)
  unfolding delete_orphans
  delete_orphans-outside [] w = (refl, refl)
  delete_orphans-outside (info ∷ infos) w = delete_orphans-outside infos _

  clean_up-OnlyFromRegistry :
      (file_ids : List ℕ) (w : World) → OnlyFromRegistry w (clean_up env file_ids w).1
  unfolding clean_up
  clean_up-OnlyFromRegistry file_ids w =
      let infos =
        orphan_infos w (find_orphaned_from_ids (unique_ids [] file_ids) w.references w.files) in
      let (reg, effects) = delete_orphans-outside infos w in
      chain w (delete_orphans infos w) (delete_physical env infos (delete_orphans infos w)) reg
        ([], effects, tt) (delete_physical-OnlyFromRegistry infos (delete_orphans infos w))

  -- A bulk delete calls backends of the registry only, and only to delete. Those have the storage's
  -- own configuration, without the container of a project, in which uploads are stored.
  pub bulk_delete-OnlyFromRegistry :
      (includes : Value → Value → Bool) (project_id : ℕ) (filters : BulkDeleteFilters) (w : World)
      → OnlyFromRegistry w (bulk_delete env includes project_id filters w).1
  unfolding bulk_delete execute_bulk_delete
  bulk_delete-OnlyFromRegistry includes project_id filters w =
      elim (Result-cases (build_bulk_delete_clause filters 2)) [
        | inr (e, refused) ↦ rw (refused, bulk_delete) ([], refl, tt)
        | inl (c, built) ↦
            elim (Bool-cases (length (execute_bulk_delete includes project_id filters w).0 == 0)) [
              | inl e ↦ rw (built, bulk_delete) (rw e ([], refl, tt))
              | inr e ↦
                  rw (built, bulk_delete)
                    (rw e (
                      clean_up-OnlyFromRegistry
                        (execute_bulk_delete includes project_id filters w).0
                        (record w {
                          references = (execute_bulk_delete includes project_id filters w).1;
                        })))
            ]
      ]
