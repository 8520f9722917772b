-- ===== src/Prelude/Table.antt =====
-- A database table as the list of its rows, with the statements that the program sends to it:
-- SELECT … WHERE, UPDATE … WHERE, DELETE … WHERE, EXISTS, COUNT, and ORDER BY on a numeric key.
use mathlib.Core.Path.{◌≡◌, refl}
use mathlib.Core.Bool.{Bool, true, false, ◌||◌}
use mathlib.Core.Option.{Option, none, some}
use mathlib.Core.List.{List, [], ◌∷◌, ◌++◌}
use native.Mathlib.Omega.{arith}
use mathlib.Core.Logic.{inl, inr}
use simply_storage.Prelude.Tests.{if◌then◌else◌, Bool-cases}
use simply_storage.Prelude.Lists.{All}

module _ {ℓ} {A : Type ℓ} where
  unfoldable pub select_where : (A → Bool) → List A → List A
  select_where p [] = []
  select_where p (x ∷ xs) = if p x then x ∷ select_where p xs else select_where p xs

  unfoldable pub update_where : (A → Bool) → (A → A) → List A → List A
  update_where p f [] = []
  update_where p f (x ∷ xs) = (if p x then f x else x) ∷ update_where p f xs

  unfoldable pub delete_where : (A → Bool) → List A → List A
  delete_where p [] = []
  delete_where p (x ∷ xs) = if p x then delete_where p xs else x ∷ delete_where p xs

  unfoldable pub exists : (A → Bool) → List A → Bool
  exists p [] = false
  exists p (x ∷ xs) = p x || exists p xs

  -- `fetch_optional` on a condition that at most one row meets.
  unfoldable pub find : (A → Bool) → List A → Option A
  find p [] = none
  find p (x ∷ xs) = if p x then some x else find p xs

  unfoldable pub insert_by : (A → A → Bool) → A → List A → List A
  insert_by before x [] = x ∷ []
  insert_by before x (y ∷ ys) = if before x y then x ∷ y ∷ ys else y ∷ insert_by before x ys

  -- A stable sort: `before x y` says that `x`, which comes first in the table, may stay first.
  unfoldable pub order_by : (A → A → Bool) → List A → List A
  unfolding insert_by
  order_by before [] = []
  order_by before (x ∷ xs) = insert_by before x (order_by before xs)

module _ {ℓ} {A : Type ℓ} where
  -- What a search finds after an update that leaves its condition alone.
  abbrev pub written : (A → Bool) → (A → A) → Option A → Option A
  written q f none = none
  written q f (some a) = some (if q a then f a else a)

  pub find-update_where :
      (p q : A → Bool) (f : A → A) (xs : List A)
      → ((a : A) → q a ≡ true → p (f a) ≡ p a)
      → find p (update_where q f xs) ≡ written q f (find p xs)
  unfolding find update_where
  find-update_where p q f [] keeps = refl
  find-update_where p q f (x ∷ xs) keeps = ground (arith, keeps x, find-update_where p q f xs keeps)

  pub update_none :
      (q : A → Bool) (f : A → A) (xs : List A) → find q xs ≡ none → update_where q f xs ≡ xs
  unfolding find update_where
  update_none q f [] h = refl
  update_none q f (x ∷ xs) h = ground (arith, h, update_none q f xs)

  pub All-select_where : (p : A → Bool) (xs : List A) → All (λ x. p x ≡ true) (select_where p xs)
  unfolding select_where
  All-select_where p [] = tt
  All-select_where p (x ∷ xs) = ground (arith, All-select_where p xs)

  pub exists-append :
      (p : A → Bool) (xs ys : List A) → exists p (xs ++ ys) ≡ (exists p xs || exists p ys)
  unfolding exists
  exists-append p [] ys = refl
  exists-append p (x ∷ xs) ys = ground (arith, exists-append p xs ys)

  pub find-some : (p : A → Bool) (xs : List A) (a : A) → find p xs ≡ some a → p a ≡ true
  unfolding find
  find-some p [] a h = ground arith
  find-some p (x ∷ xs) a h = ground (arith, find-some p xs a)

module _ {ℓ κ} {A : Type ℓ} (P : A → Type κ) where
  pub All-update_where :
      (q : A → Bool) (f : A → A) (xs : List A)
      → ((a : A) → P a → P (f a))
      → All P xs
      → All P (update_where q f xs)
  unfolding update_where
  All-update_where q f [] keeps h = tt
  All-update_where q f (x ∷ xs) keeps h = elim (Bool-cases (q x)) [
    | inl e ↦ rw e (keeps x h.0, All-update_where q f xs keeps h.1)
    | inr e ↦ rw e (h.0, All-update_where q f xs keeps h.1)
  ]

  pub All-delete_where : (q : A → Bool) (xs : List A) → All P xs → All P (delete_where q xs)
  unfolding delete_where
  All-delete_where q [] h = tt
  All-delete_where q (x ∷ xs) h = elim (Bool-cases (q x)) [
    | inl e ↦ rw e (All-delete_where q xs h.1)
    | inr e ↦ rw e (h.0, All-delete_where q xs h.1)
  ]

  pub All-insert_by :
      (before : A → A → Bool) (x : A) (xs : List A) → P x → All P xs → All P (insert_by before x xs)
  unfolding insert_by
  All-insert_by before x [] h hs = (h, tt)
  All-insert_by before x (y ∷ ys) h hs = ground (arith, All-insert_by before x ys h hs.1)

  pub All-order_by : (before : A → A → Bool) (xs : List A) → All P xs → All P (order_by before xs)
  unfolding order_by
  All-order_by before [] h = tt
  All-order_by before (x ∷ xs) h =
      All-insert_by before x (order_by before xs) h.0 (All-order_by before xs h.1)
