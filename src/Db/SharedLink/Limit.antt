-- ===== src/Db/SharedLink/Limit.antt =====
-- The limit of downloads of a shared link under every order of the statements on the table.
use simply_storage.Prelude.{
  ℕ, ◌+◌, ◌≤◌, ◌≡◌, ◌≢◌, some, Bool, true, false, ◌&&◌, List, [], ◌∷◌, ◌++◌, arith, ◌==◌,
  if◌then◌else◌, All, All-append, ◌<◌, max, ==_iff, subst, exists, update_where, delete_where,
  Bool-cases, inl, inr,
}
use simply_storage.Db.SharedLink.{
  SharedLink, has_id, may_increment, incremented, increment_download_count, deactivate, delete,
  delete_by_user,
}

-- The statements that write the table, in the order in which the database runs them.
pub data Statement : Type 0 where
  insert : SharedLink → Statement
  increment : ℕ → ℕ → Statement
  switch_off : ℕ → Statement
  remove : ℕ → Statement
  remove_of_user : ℕ → Statement

-- The table afterwards.
unfoldable pub execute : Statement → List SharedLink → List SharedLink
unfolding increment_download_count deactivate delete delete_by_user
execute (insert link) links = links ++ link ∷ []
execute (increment now id) links = (increment_download_count now id links).1
execute (switch_off id) links = (deactivate id links).1
execute (remove id) links = (delete id links).1
execute (remove_of_user user) links = delete_by_user user links

-- The statement is an increment of the link that succeeds.
unfoldable pub serves : ℕ → Statement → List SharedLink → Bool
unfolding increment_download_count
serves id (increment now other) links = other == id && (increment_download_count now other links).0
serves id _ links = false

-- How many downloads of the link succeed in a history.
unfoldable pub served : ℕ → List Statement → List SharedLink → ℕ
unfolding execute serves
served id [] links = 0
served id (s ∷ ss) links = (if serves id s links then 1 else 0) + served id ss (execute s links)

-- Ids are not used again.
abbrev pub IsFresh : ℕ → Statement → Type 0
IsFresh id (insert link) = link.id ≢ id
IsFresh id _ = Unit

-- A row of the link has the limit, and counts at least `count` downloads.
abbrev pub AtMost : ℕ → ℕ → ℕ → SharedLink → Type 0
AtMost id limit count l = l.id ≡ id → (l.max_downloads ≡ some limit) × (count ≤ l.download_count)

All-delete_where {ℓ κ} :
    {A : Type ℓ} (P : A → Type κ) (p : A → Bool) (xs : List A)
    → All P xs
    → All P (delete_where p xs)
unfolding delete_where
All-delete_where P p [] h = tt
All-delete_where P p (x ∷ xs) h = elim (Bool-cases (p x)) [
  | inl e ↦ rw e (All-delete_where P p xs h.1)
  | inr e ↦ rw e (h.0, All-delete_where P p xs h.1)
]

All-update_where {ℓ κ} :
    {A : Type ℓ} (P Q : A → Type κ) (p : A → Bool) (f : A → A)
    → ((a : A) → P a → Q (if p a then f a else a))
    → (xs : List A) → All P xs
    → All Q (update_where p f xs)
unfolding update_where
All-update_where P Q p f step [] h = tt
All-update_where P Q p f step (x ∷ xs) h = (step x h.0, All-update_where P Q p f step xs h.1)

module _ (id limit count : ℕ) where
  abbrev Within : List SharedLink → Type 0
  Within = All (AtMost id limit count)

  execute_keeps :
      (s : Statement) (links : List SharedLink)
      → IsFresh id s
      → Within links
      → Within (execute s links)
  unfolding execute
  execute_keeps (insert link) links fresh h =
      All-append (AtMost id limit count) links (link ∷ []) h ((λ e. ground (arith, fresh, e)), tt)
  execute_keeps (increment now other) links fresh h =
      unfold increment_download_count in
      All-update_where (AtMost id limit count) (AtMost id limit count) (may_increment other)
        (incremented now) (λ l hl. ground arith) links h
  execute_keeps (switch_off other) links fresh h =
      unfold deactivate in
      All-update_where (AtMost id limit count) (AtMost id limit count) (has_id other)
        (λ l. record l { is_active = false }) (λ l hl. ground arith) links h
  execute_keeps (remove other) links fresh h =
      unfold delete in All-delete_where (AtMost id limit count) (has_id other) links h
  execute_keeps (remove_of_user user) links fresh h =
      unfold delete_by_user in
      All-delete_where (AtMost id limit count) (λ l. l.created_by == user) links h

  may_increment-lt :
      (links : List SharedLink)
      → exists (may_increment id) links ≡ true
      → Within links
      → count < limit
  unfolding exists
  may_increment-lt [] e h = cc
  may_increment-lt (l ∷ links) e h = ground (arith, may_increment-lt links, h)

  serves-lt :
      (s : Statement) (links : List SharedLink)
      → serves id s links ≡ true
      → Within links
      → count < limit
  unfolding serves increment_download_count
  serves-lt (increment now other) links e h =
      let same = (==_iff other id).0 (ground (arith, e)) in
      may_increment-lt links
        (subst (λ k. exists (may_increment k) links ≡ true) same (ground (arith, e))) h
  serves-lt (insert _) links e h = cc
  serves-lt (switch_off _) links e h = cc
  serves-lt (remove _) links e h = cc
  serves-lt (remove_of_user _) links e h = cc

  serves_step :
      (s : Statement) (links : List SharedLink)
      → serves id s links ≡ true
      → Within links
      → All (AtMost id limit (count + 1)) (execute s links)
  unfolding serves execute increment_download_count
  serves_step (increment now other) links e h =
      let below =
        serves-lt (increment now other) links (unfold serves increment_download_count in e) h in
      All-update_where (AtMost id limit count) (AtMost id limit (count + 1)) (may_increment other)
        (incremented now) (λ l hl. ground (arith, e, below)) links h
  serves_step (insert _) links e h = cc
  serves_step (switch_off _) links e h = cc
  serves_step (remove _) links e h = cc
  serves_step (remove_of_user _) links e h = cc

-- In every history of statements that does not use the link's id again, the downloads that succeed
-- and those that the link's row counts already are together at most its limit, or none succeeds.
pub served-le :
    (id limit count : ℕ) (history : List Statement) (links : List SharedLink)
    → All (IsFresh id) history
    → All (AtMost id limit count) links
    → count + served id history links ≤ max count limit
unfolding served
served-le id limit count [] links fresh h = omega arith
served-le id limit count (s ∷ ss) links fresh h = elim (Bool-cases (serves id s links)) [
  | inl e ↦ rw e (
      omega (
        arith,
        serves-lt id limit count s links e h,
        served-le id limit (count + 1) ss (execute s links) fresh.1
            (serves_step id limit count s links e h),
      ))
  | inr e ↦ rw e (
      omega (
        arith,
        served-le id limit count ss (execute s links) fresh.1
            (execute_keeps id limit count s links fresh.0 h),
      ))
]
