-- ===== src/Backup/Retention.antt =====
-- `cleanup_old_backups` of services/backup_service.rs: what it keeps, and how many backups remain.
use simply_storage.Prelude.{
  ℕ, ◌+◌, ◌≤◌, ◌≡◌, refl, Bool, true, false, not, ◌&&◌, ◌||◌, List, [], ◌∷◌, arith, ◌==◌, leb, All,
  All-imp, select_where, delete_where, order_by, exists, count_where, count-order_by, take, skip,
  exists_counted, pos, zero, suc, some, none, inl, inr, ap, sym, ◌∙◌, Bool-cases,
}
use simply_storage.Error.{Result-cases}
use simply_storage.Db.BackupRecord.{
  BackupRecord, has_id, is_completed, list_oldest_completed_by_config, delete,
}
use simply_storage.World.{Env}
use simply_storage.Backup.{Backups, delete_from_storage, delete_row}
use simply_storage.Backup.Removal.{delete_each, cleanup_old_backups}

-- A row of the list has the id.
abbrev pub is_among : List BackupRecord → BackupRecord → Bool
is_among rows r = exists (λ o. o.id == r.id) rows

-- Each row of a list is among it, and among a longer one.
pub All-is_among : (rows : List BackupRecord) → All (λ r. is_among rows r ≡ true) rows
unfolding exists
All-is_among [] = tt
All-is_among (row ∷ rows) =
    (ground arith, All-imp (λ r h. ground (arith, h)) rows (All-is_among rows))

-- A row that shares its id with a row of the list is among it.
among_same :
    (rows : List BackupRecord) (o r : BackupRecord)
    → is_among rows o ≡ true
    → r.id ≡ o.id
    → is_among rows r ≡ true
unfolding exists
among_same [] o r h e = cc
among_same (row ∷ rows) o r h e = ground (arith, h, e, among_same rows o r)

select-delete_where :
    (old : List BackupRecord) (o : BackupRecord) (history : List BackupRecord)
    → is_among old o ≡ true
    → select_where (λ r. not (is_among old r)) (delete_where (has_id o.id) history)
      ≡ select_where (λ r. not (is_among old r)) history
unfolding select_where delete_where
select-delete_where old o [] h = refl
select-delete_where old o (r ∷ history) h =
    ground (arith, h, among_same old o r, select-delete_where old o history)

module _ (env : Env) where
  delete_from_storage-history :
      (row : BackupRecord) (st : Backups) → (delete_from_storage env row st).1.history ≡ st.history
  unfolding delete_from_storage
  delete_from_storage-history row st = ground arith

  delete_row-kept :
      (old : List BackupRecord) (row : BackupRecord) (st : Backups)
      → is_among old row ≡ true
      → select_where (λ r. not (is_among old r)) (delete_row env row.id st).1.history
        ≡ select_where (λ r. not (is_among old r)) st.history
  unfolding delete_row delete
  delete_row-kept old row st h = select-delete_where old row st.history h

  delete_each-kept :
      (old rows : List BackupRecord) (deleted : ℕ) (st : Backups)
      → All (λ r. is_among old r ≡ true) rows
      → select_where (λ r. not (is_among old r)) (delete_each env rows deleted st).1.history
        ≡ select_where (λ r. not (is_among old r)) st.history
  unfolding delete_each
  delete_each-kept old [] deleted st h = refl
  delete_each-kept old (row ∷ rows) deleted st h =
      let (removal, st') = delete_from_storage env row st in
      let same =
        ap (select_where (λ r. not (is_among old r))) (delete_from_storage-history row st) in
      let after = delete_row-kept old row st' h.0 in
      let (dropped, st'') = delete_row env row.id st' in
      elim (Result-cases removal) [
        | inl (u, e) ↦ elim (Result-cases dropped) [
          | inl (v, k) ↦ rw (e, k) (delete_each-kept old rows (deleted + 1) st'' h.1 ∙ after ∙ same)
          | inr (x, k) ↦ rw (e, k) (after ∙ same)
        ]
        | inr (x, e) ↦ rw e (delete_each-kept old rows deleted st' h.1 ∙ same)
      ]

-- No id is twice in the table.
abbrev pub IsUnique : List BackupRecord → Type 0
IsUnique history = (i : ℕ) → count_where (has_id i) history ≤ 1

-- The completed rows of the configuration, and the `n` of them that were created last.
abbrev pub completed_of : ℕ → List BackupRecord → List BackupRecord
completed_of config_id =
    select_where (λ r.
      (elim r.config_id [ none ↦ false | some id ↦ id == config_id ]) && is_completed r.status)

abbrev pub newest : ℕ → ℕ → List BackupRecord → List BackupRecord
newest config_id n history =
    take n (order_by (λ r s. leb s.created_at r.created_at) (completed_of config_id history))

-- Not a completed row of the configuration, or one of its `n` newest.
abbrev pub is_protected : ℕ → ℕ → List BackupRecord → BackupRecord → Bool
is_protected config_id n history r =
    not (is_among (completed_of config_id history) r) || is_among (newest config_id n history) r

select-select {ℓ} :
    {A : Type ℓ} (p q : A → Bool)
    → ((x : A) → p x ≡ true → q x ≡ true)
    → (xs : List A) → select_where p (select_where q xs) ≡ select_where p xs
unfolding select_where
select-select p q h [] = refl
select-select p q h (x ∷ xs) = ground (arith, h x, select-select p q h xs)

count_if_exists {ℓ} :
    {A : Type ℓ} (p : A → Bool) (xs : List A) → exists p xs ≡ true → 1 ≤ count_where p xs
unfolding exists count_where
count_if_exists p [] h = cc
count_if_exists p (x ∷ xs) h = ground (arith, h, count_if_exists p xs)

count_split {ℓ} :
    {A : Type ℓ} (p : A → Bool) (n : ℕ) (xs : List A)
    → count_where p xs ≡ count_where p (take n xs) + count_where p (skip n xs)
unfolding count_where skip
count_split p zero xs = omega arith
count_split p (suc n) [] = omega arith
count_split p (suc n) (x ∷ xs) = omega (arith, count_split p n xs)

count-select_le {ℓ} :
    {A : Type ℓ} (p q : A → Bool) (xs : List A)
    → count_where p (select_where q xs) ≤ count_where p xs
unfolding count_where select_where
count-select_le p q [] = omega arith
count-select_le p q (x ∷ xs) = ground (arith, count-select_le p q xs)

-- The list of the statement is what follows the newest rows.
old-eq :
    (config_id n : ℕ) (history : List BackupRecord)
    → list_oldest_completed_by_config config_id n history
      ≡ skip n (order_by (λ r s. leb s.created_at r.created_at) (completed_of config_id history))
unfolding list_oldest_completed_by_config
old-eq config_id n history = refl

protected-other :
    (config_id n : ℕ) (history : List BackupRecord)
    → IsUnique history
    → (r : BackupRecord) → is_protected config_id n history r ≡ true
    → not (is_among (list_oldest_completed_by_config config_id n history) r) ≡ true
protected-other config_id n history unique r h =
    let p = has_id r.id in
    let completes : BackupRecord → Bool = λ r.
      (elim r.config_id [ none ↦ false | some id ↦ id == config_id ]) && is_completed r.status in
    let rows = completed_of config_id history in
    let sorted = order_by (λ (r s : BackupRecord). leb s.created_at r.created_at) rows in
    let split = count_split p n sorted in
    let same = count-order_by p (λ (r s : BackupRecord). leb s.created_at r.created_at) rows in
    rw old-eq (elim (Bool-cases (exists p (skip n sorted))) [
      | inr e ↦ rw e refl
      | inl e ↦ ground (
        arith,
        h,
        split,
        same,
        unique r.id,
        count_if_exists p (skip n sorted) e,
        count_if_exists p (take n sorted),
        exists_counted p rows,
        count-select_le p completes history,
      )
    ])

-- A clean-up changes nothing but completed rows of the configuration that are not among its
-- `retention_count` newest ones, whatever the storages answer, provided that no id is twice in the
-- table: all other rows stay as they are.
pub cleanup_old_backups-keeps :
    (env : Env) (config_id n : ℕ) (st : Backups)
    → IsUnique st.history
    → select_where
        (is_protected config_id (suc n) st.history)
        (cleanup_old_backups env config_id (pos (suc n)) st).1.history
      ≡ select_where (is_protected config_id (suc n) st.history) st.history
unfolding cleanup_old_backups
cleanup_old_backups-keeps env config_id n st unique =
    let old = list_oldest_completed_by_config config_id (suc n) st.history in
    let p = is_protected config_id (suc n) st.history in
    let others : BackupRecord → Bool = λ r. not (is_among old r) in
    let refined = select-select p others (protected-other config_id (suc n) st.history unique) in
    sym (refined _)
    ∙ ap (select_where p) (delete_each-kept env old old 0 st (All-is_among old))
    ∙ refined st.history
