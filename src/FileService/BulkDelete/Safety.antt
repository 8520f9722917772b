-- ===== src/FileService/BulkDelete/Safety.antt =====
-- What a bulk delete removes, and what it leaves (services/file_service.rs).
use simply_storage.Prelude.{
  ℕ, ◌≡◌, refl, sym, ◌∙◌, Bool, true, false, not, List, [], ◌∷◌, map, arith, ◌==◌, length,
  select_where, delete_where, exists, Bool-cases, inl, inr, subst,
}
use simply_storage.Error.{AppResult, ok, err, Result-cases}
use simply_storage.Json.{Value}
use simply_storage.Db.File.{File, FileReference, refers_to}
use simply_storage.Db.Location.{FileLocation}
use simply_storage.Backend.{Backend}
use simply_storage.Backend.Registry.{Registry, lookup}
use simply_storage.Backend.Registry
use simply_storage.Filter.BulkDelete.{BulkDeleteFilters, build_bulk_delete_clause}
use simply_storage.Filter.{SqlText}
use simply_storage.World.{World, Env}
use simply_storage.FileService.BulkDelete.{
  OrphanInfo, is_orphaned, find_orphaned_from_ids, orphan_infos, delete_orphans, delete_at,
  delete_copies, delete_physical, clean_up, bulk_delete, execute_bulk_delete, unique_ids,
  is_selected,
}

-- No info is about the file.
abbrev others : ℕ → List OrphanInfo → Bool
others file_id infos = not (exists (λ i. i.file_id == file_id) infos)

delete_where_keeps {ℓ} :
    {A : Type ℓ} (p q : A → Bool) (xs : List A)
    → ((x : A) → q x ≡ true → p x ≡ false)
    → select_where q (delete_where p xs) ≡ select_where q xs
unfolding select_where delete_where
delete_where_keeps p q [] h = refl
delete_where_keeps p q (x ∷ xs) h = ground (arith, h x, delete_where_keeps p q xs h)

-- The rows of the file and of its copies.
abbrev pub rows_of : ℕ → World → List File × List FileLocation
rows_of file_id w = (
  select_where (λ f. f.id == file_id) w.files,
  select_where (λ l. l.file_id == file_id) w.locations,
)

delete_one_keeps :
    (file_id id : ℕ) (w : World)
    → (id == file_id) ≡ false
    → rows_of file_id (record w {
      locations = delete_where (λ l. l.file_id == id) w.locations;
      files = delete_where (λ f. f.id == id) w.files;
    })
      ≡ rows_of file_id w
delete_one_keeps file_id id w h =
    rw
      (delete_where_keeps (λ f. f.id == id) (λ f. f.id == file_id) w.files
        (λ f e. ground (arith, h)))
      (rw
        (delete_where_keeps (λ l. l.file_id == id) (λ l. l.file_id == file_id) w.locations
          (λ l e. ground (arith, h)))
        refl)

delete_orphans_keeps :
    (file_id : ℕ) (infos : List OrphanInfo) (w : World)
    → others file_id infos ≡ true
    → rows_of file_id (delete_orphans infos w) ≡ rows_of file_id w
unfolding delete_orphans exists
delete_orphans_keeps file_id [] w h = refl
delete_orphans_keeps file_id (info ∷ infos) w h =
    delete_orphans_keeps file_id infos _ (ground (arith, h))
    ∙ delete_one_keeps file_id info.file_id w (ground (arith, h))

referred-is_orphaned :
    (file_id : ℕ) (file_ids : List ℕ) (refs : List FileReference) (f : File)
    → exists (refers_to file_id) refs ≡ true
    → f.id ≡ file_id
    → is_orphaned file_ids refs f ≡ false
referred-is_orphaned file_id file_ids refs f h e =
    let there = subst (λ k. exists (refers_to k) refs ≡ true) (sym e) h in ground (arith, there)

others-orphan_infos :
    (file_id : ℕ) (w : World) (file_ids : List ℕ) (refs : List FileReference) (files : List File)
    → exists (refers_to file_id) refs ≡ true
    → others file_id (orphan_infos w (find_orphaned_from_ids file_ids refs files)) ≡ true
unfolding orphan_infos find_orphaned_from_ids exists select_where
others-orphan_infos file_id w file_ids refs [] h = refl
others-orphan_infos file_id w file_ids refs (f ∷ files) h = ground (
  arith,
  others-orphan_infos file_id w file_ids refs files h,
  referred-is_orphaned file_id file_ids refs f h,
)

delete_orphans-references :
    (infos : List OrphanInfo) (w : World) → (delete_orphans infos w).references ≡ w.references
unfolding delete_orphans
delete_orphans-references [] w = refl
delete_orphans-references (info ∷ infos) w = delete_orphans-references infos _

none_selected :
    (p : FileReference → Bool) (refs : List FileReference)
    → (length (map (λ (r : FileReference). r.file_id) (select_where p refs)) == 0) ≡ true
    → delete_where p refs ≡ refs
unfolding select_where delete_where
none_selected p [] h = refl
none_selected p (r ∷ refs) h = ground (arith, h, none_selected p refs)

module _ (env : Env) where
  -- Calls of the backends leave the tables and the registry alone.
  unfoldable pub Same : World → World → Type 0
  Same w v =
      ((fid : ℕ) → rows_of fid v ≡ rows_of fid w)
      × (v.registry ≡ w.registry)
      × (v.references ≡ w.references)

  pub delete_at-Same :
      (r : AppResult Backend) (l : FileLocation) (w : World) → Same w (delete_at env r l w)
  unfolding Same
  delete_at-Same (err _) l w = ((λ fid. refl), refl, refl)
  delete_at-Same (ok b) l w = elim (Result-cases (env.delete b l.storage_path)) [
    | inl (u, e) ↦ rw (e, delete_at) ((λ fid. refl), refl, refl)
    | inr (x, e) ↦ rw (e, delete_at) ((λ fid. refl), refl, refl)
  ]

  pub delete_copies-Same : (ls : List FileLocation) (w : World) → Same w (delete_copies env ls w)
  unfolding Same delete_copies
  delete_copies-Same [] w = ((λ fid. refl), refl, refl)
  delete_copies-Same (l ∷ ls) w =
      let (rows, reg, refs) = delete_at-Same (Registry.get l.storage_id w.registry) l w in
      let (rows', reg', refs') =
        delete_copies-Same ls (delete_at env (Registry.get l.storage_id w.registry) l w) in
      ((λ fid. rows' fid ∙ rows fid), reg' ∙ reg, refs' ∙ refs)

  delete_physical-Same :
      (infos : List OrphanInfo) (w : World) → Same w (delete_physical env infos w)
  unfolding Same delete_physical
  delete_physical-Same [] w = ((λ fid. refl), refl, refl)
  delete_physical-Same (info ∷ infos) w =
      let (rows, reg, refs) = delete_copies-Same info.locations w in
      let (rows', reg', refs') = delete_physical-Same infos (delete_copies env info.locations w) in
      ((λ fid. rows' fid ∙ rows fid), reg' ∙ reg, refs' ∙ refs)

  clean_up_keeps :
      (file_ids : List ℕ) (w : World)
      → ((clean_up env file_ids w).1.references ≡ w.references)
        × ((file_id : ℕ)
            → exists (refers_to file_id) w.references ≡ true
            → rows_of file_id (clean_up env file_ids w).1 ≡ rows_of file_id w)
  unfolding clean_up Same
  clean_up_keeps file_ids w =
      let infos =
        orphan_infos w (find_orphaned_from_ids (unique_ids [] file_ids) w.references w.files) in
      let (rows, reg, refs) = delete_physical-Same infos (delete_orphans infos w) in
      (
        refs ∙ delete_orphans-references infos w,
        λ file_id h.
            rows file_id
            ∙ delete_orphans_keeps file_id infos w
                (others-orphan_infos file_id w (unique_ids [] file_ids) w.references w.files h),
      )

  -- A bulk delete removes exactly the selected references, and it keeps the row and all locations of
  -- every file that some project, the same or another, still refers to.
  pub bulk_delete_keeps :
      (includes : Value → Value → Bool) (project_id : ℕ) (filters : BulkDeleteFilters) (w : World)
      (c : SqlText × List Value × Bool × ℕ)
      → build_bulk_delete_clause filters 2 ≡ ok c
      → let w' = (bulk_delete env includes project_id filters w).1 in
        (w'.references ≡ delete_where (is_selected includes project_id filters w) w.references)
        × ((file_id : ℕ)
            → exists (refers_to file_id) w'.references ≡ true
            → rows_of file_id w' ≡ rows_of file_id w)
  unfolding bulk_delete execute_bulk_delete
  bulk_delete_keeps includes project_id filters w c built =
      let p = is_selected includes project_id filters w in
      elim (Bool-cases (length (execute_bulk_delete includes project_id filters w).0 == 0)) [
        | inl e ↦
            rw (built, bulk_delete) (rw e (sym (none_selected p w.references e), λ file_id h. refl))
        | inr e ↦
            rw (built, bulk_delete)
              (rw e (
                let kept =
                  clean_up_keeps (execute_bulk_delete includes project_id filters w).0
                    (record w { references = delete_where p w.references }) in
                (
                  kept.0,
                  λ file_id h.
                      kept.1 file_id (subst (λ rs. exists (refers_to file_id) rs ≡ true) kept.0 h),
                )))
      ]
