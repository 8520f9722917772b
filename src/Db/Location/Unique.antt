-- ===== src/Db/Location/Unique.antt =====
-- The unique constraint on `file_locations`, and what each statement of db/models.rs does to it.
use simply_storage.Prelude.{
  ℕ, ◌+◌, ◌≤◌, ◌≡◌, refl, Bool, false, List, [], ◌∷◌, ◌++◌, arith, if◌then◌else◌, update_where,
  exists, Bool-cases, inl, inr,
}
use simply_storage.Db.Location.{FileLocation, CreateFileLocation, is_at, new_location, create}

-- How many rows a pair of file and storage has.
unfoldable pub copies : ℕ → ℕ → List FileLocation → ℕ
copies file_id storage_id [] = 0
copies file_id storage_id (l ∷ ls) =
    (if is_at file_id storage_id l then 1 else 0) + copies file_id storage_id ls

abbrev pub IsUnique : List FileLocation → Type 0
IsUnique ls = (file_id storage_id : ℕ) → copies file_id storage_id ls ≤ 1

copies-append :
    (file_id storage_id : ℕ) (ks ls : List FileLocation)
    → copies file_id storage_id (ks ++ ls)
      ≡ copies file_id storage_id ks + copies file_id storage_id ls
unfolding copies
copies-append file_id storage_id [] ls = omega arith
copies-append file_id storage_id (k ∷ ks) ls = omega (arith, copies-append file_id storage_id ks ls)

copies_absent :
    (file_id storage_id : ℕ) (ls : List FileLocation)
    → exists (is_at file_id storage_id) ls ≡ false
    → copies file_id storage_id ls ≡ 0
unfolding copies exists
copies_absent file_id storage_id [] h = refl
copies_absent file_id storage_id (l ∷ ls) h = ground (arith, copies_absent file_id storage_id ls)

-- An update that leaves the two columns alone leaves the count alone.
pub copies-update_where :
    (file_id storage_id : ℕ) (p : FileLocation → Bool) (f : FileLocation → FileLocation)
    → ((l : FileLocation) → ((f l).file_id ≡ l.file_id) × ((f l).storage_id ≡ l.storage_id))
    → (ls : List FileLocation)
    → copies file_id storage_id (update_where p f ls) ≡ copies file_id storage_id ls
unfolding copies update_where
copies-update_where file_id storage_id p f same [] = refl
copies-update_where file_id storage_id p f same (l ∷ ls) =
    ground (arith, same l, copies-update_where file_id storage_id p f same ls)

copies-create :
    (now id file_id storage_id : ℕ) (input : CreateFileLocation) (ls : List FileLocation)
    → copies file_id storage_id ls ≤ 1
    → copies file_id storage_id (create now id input ls).1 ≤ 1
unfolding create
copies-create now id file_id storage_id input ls h =
    elim (Bool-cases (exists (is_at input.file_id input.storage_id) ls)) [
      | inl e ↦ rw e h
      | inr e ↦ rw e (
          unfold copies in
          ground (
            arith,
            copies-append file_id storage_id ls (new_location now id input ∷ []),
            copies_absent input.file_id input.storage_id ls e,
          ))
    ]

pub create-IsUnique :
    (now id : ℕ) (input : CreateFileLocation) (ls : List FileLocation)
    → IsUnique ls
    → IsUnique (create now id input ls).1
create-IsUnique now id input ls h = λ f s. copies-create now id f s input ls (h f s)
