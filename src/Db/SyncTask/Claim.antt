-- ===== src/Db/SyncTask/Claim.antt =====
-- What `claim_pending` of db/models.rs promises to one worker, and what it does not promise to two.
use simply_storage.Prelude.{
  ℕ, ◌+◌, ◌≤◌, ◌<◌, ◌≡◌, refl, Bool, true, false, List, [], ◌∷◌, arith, ◌==◌, take, length,
  length-take, All, All-take, select_where, update_where, exists, order_by, All-order_by,
  All-select_where, Bool-cases, inl, inr, subst, ==_iff,
}
use simply_storage.Db.SyncTask.{
  SyncTask, in_progress, has_id, older, is_due, is_waiting, started, sweep, due_tasks, claim_each,
  claim_pending,
}

-- A row that a claim at time `now` has marked.
abbrev pub IsMarked : ℕ → SyncTask → Type 0
IsMarked now row = (row.status ≡ in_progress) × (row.updated_at ≡ now)

abbrev pub has_claim : List SyncTask → ℕ → Bool
has_claim claimed id = exists (has_id id) claimed

-- Among the rows with id `id`, all are marked.
abbrev MarkedAt : ℕ → ℕ → SyncTask → Type 0
MarkedAt now id row = row.id ≡ id → IsMarked now row

mark-MarkedAt :
    (now id : ℕ) (rows : List SyncTask)
    → All (MarkedAt now id) (update_where (has_id id) (started now) rows)
unfolding update_where
mark-MarkedAt now id [] = tt
mark-MarkedAt now id (r ∷ rows) = (ground arith, mark-MarkedAt now id rows)

mark_keeps :
    (now id other : ℕ) (rows : List SyncTask)
    → All (MarkedAt now id) rows
    → All (MarkedAt now id) (update_where (has_id other) (started now) rows)
unfolding update_where
mark_keeps now id other [] h = tt
mark_keeps now id other (r ∷ rows) h = (ground arith, mark_keeps now id other rows h.1)

claim_each_keeps :
    (now : ℕ) (locked : ℕ → Bool) (id : ℕ) (read rows : List SyncTask)
    → All (MarkedAt now id) rows
    → All (MarkedAt now id) (claim_each now locked read rows).1
unfolding claim_each
claim_each_keeps now locked id [] rows h = h
claim_each_keeps now locked id (t ∷ read) rows h = elim (Bool-cases (locked t.id)) [
  | inl e ↦ rw e (claim_each_keeps now locked id read _ (mark_keeps now id t.id rows h))
  | inr e ↦ rw e (claim_each_keeps now locked id read rows h)
]

-- Every id that the loop claims is marked in the table that it leaves.
claim_each-MarkedAt :
    (now : ℕ) (locked : ℕ → Bool) (id : ℕ) (read rows : List SyncTask)
    → has_claim (claim_each now locked read rows).0 id ≡ true
    → All (MarkedAt now id) (claim_each now locked read rows).1
unfolding claim_each exists
claim_each-MarkedAt now locked id [] rows h = cc
claim_each-MarkedAt now locked id (t ∷ read) rows h = elim (Bool-cases (locked t.id)) [
  | inl e ↦ elim (Bool-cases (t.id == id)) [
    | inl same ↦ rw e (
        claim_each_keeps now locked id read _ (
          subst (λ k. All (MarkedAt now k) (update_where (has_id t.id) (started now) rows))
            ((==_iff t.id id).0 same) (mark-MarkedAt now t.id rows)))
    | inr other ↦ rw e (claim_each-MarkedAt now locked id read _ (ground arith))
  ]
  | inr e ↦ rw e (claim_each-MarkedAt now locked id read rows (ground arith))
]

-- No row of the table left by the claim has the id of a claimed task and is anything but marked.
claim_pending-MarkedAt :
    (now : ℕ) (locked : ℕ → Bool) (limit max_retries : ℕ) (tasks : List SyncTask) (id : ℕ)
    → has_claim (claim_pending now locked limit max_retries tasks).0 id ≡ true
    → All (MarkedAt now id) (claim_pending now locked limit max_retries tasks).1
unfolding claim_pending
claim_pending-MarkedAt now locked limit max_retries tasks id h =
    claim_each-MarkedAt now locked id _ _ h

-- For a quarter of an hour the statements at the head of a claim leave a marked row alone.
sweep-MarkedAt :
    (now later max_retries id : ℕ) (rows : List SyncTask)
    → later ≤ now + 900
    → All (MarkedAt now id) rows
    → All (MarkedAt now id) (sweep later max_retries rows)
unfolding sweep update_where
sweep-MarkedAt now later max_retries id [] le h = tt
sweep-MarkedAt now later max_retries id (r ∷ rows) le h =
    (ground arith, sweep-MarkedAt now later max_retries id rows le h.1)

abbrev NotTask : ℕ → SyncTask → Type 0
NotTask id t = (t.id == id) ≡ false

select-NotTask :
    (now later max_retries id : ℕ) (rows : List SyncTask)
    → All (MarkedAt now id) rows
    → All (NotTask id) (select_where (is_due later max_retries) rows)
unfolding select_where
select-NotTask now later max_retries id [] h = tt
select-NotTask now later max_retries id (r ∷ rows) h =
    ground (arith, select-NotTask now later max_retries id rows h.1)

claim_each-NotTask :
    (now : ℕ) (locked : ℕ → Bool) (id : ℕ) (read rows : List SyncTask)
    → All (NotTask id) read
    → has_claim (claim_each now locked read rows).0 id ≡ false
unfolding claim_each exists
claim_each-NotTask now locked id [] rows h = refl
claim_each-NotTask now locked id (t ∷ read) rows h = elim (Bool-cases (locked t.id)) [
  | inl e ↦ rw e (rw h.0 (claim_each-NotTask now locked id read _ h.1))
  | inr e ↦ rw e (claim_each-NotTask now locked id read rows h.1)
]

select-IsMarked :
    (now id : ℕ) (rows : List SyncTask)
    → All (MarkedAt now id) rows
    → All (IsMarked now) (select_where (has_id id) rows)
unfolding select_where
select-IsMarked now id [] h = tt
select-IsMarked now id (r ∷ rows) h = elim (Bool-cases (r.id == id)) [
  | inl e ↦ rw e (h.0 ((==_iff r.id id).0 e), select-IsMarked now id rows h.1)
  | inr e ↦ rw e (select-IsMarked now id rows h.1)
]

MarkedAt-select :
    (now id : ℕ) (rows : List SyncTask)
    → All (IsMarked now) (select_where (has_id id) rows)
    → All (MarkedAt now id) rows
unfolding select_where
MarkedAt-select now id [] h = tt
MarkedAt-select now id (r ∷ rows) h = ground (arith, h, MarkedAt-select now id rows)

-- A claim within 15 minutes of the end of another takes none of the tasks that the first one took,
-- whatever locks are free, provided that what has been written between the two, to whatever other
-- rows, has left the row of the task as the first one left it.
pub claim_pending_disjoint :
    (now later : ℕ) (locked locked' : ℕ → Bool) (limit limit' max_retries max_retries' : ℕ)
    (tasks rows : List SyncTask) (id : ℕ)
    → later ≤ now + 900
    → let (claimed, tasks') = claim_pending now locked limit max_retries tasks in
      has_claim claimed id ≡ true
      → select_where (has_id id) rows ≡ select_where (has_id id) tasks'
      → has_claim (claim_pending later locked' limit' max_retries' rows).0 id ≡ false
unfolding claim_pending due_tasks
claim_pending_disjoint now later locked locked' limit limit' max_retries max_retries' tasks rows id
      le h same =
    let marked = claim_pending-MarkedAt now locked limit max_retries tasks id h in
    let kept = MarkedAt-select now id rows (rw same (select-IsMarked now id _ marked)) in
    claim_each-NotTask later locked' id _ _ (
      All-take (NotTask id) limit' _ (
        All-order_by (NotTask id) older _ (
          select-NotTask now later max_retries' id _
            (sweep-MarkedAt now later max_retries' id _ le kept))))

abbrev pub IsClaimed : ℕ → ℕ → SyncTask → Type 0
IsClaimed now max_retries t =
    (t.status ≡ in_progress) × (t.retries < max_retries) × (is_waiting now t.retry_after ≡ false)

abbrev IsDue : ℕ → ℕ → SyncTask → Type 0
IsDue now max_retries t = is_due now max_retries t ≡ true

claim_each-IsClaimed :
    (now : ℕ) (locked : ℕ → Bool) (max_retries : ℕ) (read rows : List SyncTask)
    → All (IsDue now max_retries) read
    → All (IsClaimed now max_retries) (claim_each now locked read rows).0
unfolding claim_each
claim_each-IsClaimed now locked max_retries [] rows h = tt
claim_each-IsClaimed now locked max_retries (t ∷ read) rows h = elim (Bool-cases (locked t.id)) [
  | inl e ↦ rw e (
    (refl, ground (arith, h.0), ground (arith, h.0)),
    claim_each-IsClaimed now locked max_retries read _ h.1,
  )
  | inr e ↦ rw e (claim_each-IsClaimed now locked max_retries read rows h.1)
]

length-claim_each-le :
    (now : ℕ) (locked : ℕ → Bool) (read rows : List SyncTask)
    → length (claim_each now locked read rows).0 ≤ length read
unfolding claim_each
length-claim_each-le now locked [] rows = omega arith
length-claim_each-le now locked (t ∷ read) rows = elim (Bool-cases (locked t.id)) [
  | inl e ↦ rw e (
      omega (
        arith,
        length-claim_each-le now locked read (update_where (has_id t.id) (started now) rows),
      ))
  | inr e ↦ rw e (omega (arith, length-claim_each-le now locked read rows))
]

-- A claim returns at most `limit` tasks, each in progress, with retries left and with its backoff
-- over.
pub claim_pending-IsClaimed :
    (now : ℕ) (locked : ℕ → Bool) (limit max_retries : ℕ) (tasks : List SyncTask)
    → let claimed = (claim_pending now locked limit max_retries tasks).0 in
      All (IsClaimed now max_retries) claimed × (length claimed ≤ limit)
unfolding claim_pending due_tasks
claim_pending-IsClaimed now locked limit max_retries tasks =
    let swept = sweep now max_retries tasks in
    let sorted = order_by older (select_where (is_due now max_retries) swept) in
    (
      claim_each-IsClaimed now locked max_retries (take limit sorted) swept (
          All-take (IsDue now max_retries) limit sorted
            (All-order_by (IsDue now max_retries) older _ (All-select_where _ swept))),
      omega (
        arith,
        length-claim_each-le now locked (take limit sorted) swept,
        length-take limit sorted,
      ),
    )
