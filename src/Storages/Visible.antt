-- ===== src/Storages/Visible.antt =====
-- Which storages a user sees (api/storages.rs): the list and the single storage agree.
use simply_storage.Prelude.{
  ℕ, ◌≡◌, refl, sym, ap, ◌∙◌, Bool, true, false, ◌&&◌, ◌||◌, List, [], ◌∷◌, map, arith, ◌==◌,
  exists, find, select_where, order_by, insert_by, Bool-cases, inl, inr,
}
use simply_storage.Error.{AppResult, ok, err}
use simply_storage.Db.Storage.{Storage, find_storage, redacted}
use simply_storage.Db.Storage.Statements.{list, newest_first, has_id}
use simply_storage.Db.UserStorage.{UserStorage, is_member, list_for_user}
use simply_storage.Access.{AuthenticatedUser, is_admin}
use simply_storage.Storages.{StorageWithStats, with_stats, list_storages, get_storage}
use simply_storage.World.{World}

pub exists-insert_by :
    {A : Type 0} (p : A → Bool) (before : A → A → Bool) (x : A) (xs : List A)
    → exists p (insert_by before x xs) ≡ (p x || exists p xs)
unfolding exists insert_by
exists-insert_by p before x [] = refl
exists-insert_by p before x (y ∷ xs) = ground (arith, exists-insert_by p before x xs)

pub exists-order_by :
    {A : Type 0} (p : A → Bool) (before : A → A → Bool) (xs : List A)
    → exists p (order_by before xs) ≡ exists p xs
unfolding exists order_by
exists-order_by p before [] = refl
exists-order_by p before (x ∷ xs) =
    exists-insert_by p before x (order_by before xs)
    ∙ ap (λ b. p x || b) (exists-order_by p before xs)

exists-map :
    {A B : Type 0} (p : B → Bool) (q : A → Bool) (f : A → B) (xs : List A)
    → ((a : A) → p (f a) ≡ q a)
    → exists p (map f xs) ≡ exists q xs
unfolding exists
exists-map p q f [] h = refl
exists-map p q f (x ∷ xs) h = rw (h x, exists-map p q f xs h) refl

-- Among the rows that a test of their id selects.
exists-selected :
    (id : ℕ) (test : ℕ → Bool) (storages : List Storage)
    → exists (has_id id) (select_where (λ s. test s.id) storages)
      ≡ (test id && exists (has_id id) storages)
unfolding exists select_where
exists-selected id test [] = ground arith
exists-selected id test (s ∷ storages) = elim (Bool-cases (s.id == id)) [
  | inl same ↦
      let e : test s.id ≡ test id = ap test (ground (arith, same)) in
      ground (arith, same, e, exists-selected id test storages)
  | inr other ↦ ground (arith, other, exists-selected id test storages)
]

abbrev pub is_ok {ℓ} : {A : Type ℓ} → AppResult A → Bool
is_ok (ok _) = true
is_ok (err _) = false

found-exists :
    (id : ℕ) (storages : List Storage)
    → is_ok (find_storage id storages) ≡ exists (has_id id) storages
unfolding find_storage find exists
found-exists id [] = refl
found-exists id (s ∷ storages) = ground (arith, found-exists id storages)

get_storage-is_ok :
    (user : AuthenticatedUser) (rows : List UserStorage) (id : ℕ) (w : World)
    → is_ok (get_storage user rows id w)
      ≡ ((is_admin user || is_member user.user_id id rows) && is_ok (find_storage id w.storages))
unfolding get_storage
get_storage-is_ok user rows id w = ground arith

abbrev pub shows : ℕ → StorageWithStats → Bool
shows id e = e.storage.id == id

shows-with_stats :
    (id : ℕ) (s : Storage) (w : World) → shows id (with_stats w.locations w.files s) ≡ has_id id s
unfolding with_stats redacted
shows-with_stats id s w = refl

-- A user sees a storage in the list exactly when asking for it by its id succeeds.
pub list_storages-agrees :
    (user : AuthenticatedUser) (rows : List UserStorage) (id : ℕ) (w : World)
    → exists (shows id) (list_storages user rows w) ≡ is_ok (get_storage user rows id w)
unfolding list_storages list list_for_user
list_storages-agrees user rows id w =
    exists-map (shows id) (has_id id) (with_stats w.locations w.files) _
      (λ s. shows-with_stats id s w)
    ∙ elim (Bool-cases (is_admin user)) [
      | inl admin ↦ rw admin (exists-order_by (has_id id) newest_first w.storages)
      | inr plain ↦ rw plain (
          exists-order_by (has_id id) newest_first _
          ∙ exists-selected id (λ k. is_member user.user_id k rows) w.storages)
    ]
    ∙ ap (λ b. (is_admin user || is_member user.user_id id rows) && b)
        (sym (found-exists id w.storages))
    ∙ sym (get_storage-is_ok user rows id w)
