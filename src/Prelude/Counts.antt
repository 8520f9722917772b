-- ===== src/Prelude/Counts.antt =====
-- How many rows of a table meet a condition, under the statements on tables.
use Prim.Native.Nat.{ℕ, zero, suc, ◌+◌, ◌≤◌, ◌<◌}
use mathlib.Core.Path.{◌≡◌, refl}
use mathlib.Core.Logic.{inl, inr}
use mathlib.Core.Bool.{Bool, true, false, ◌&&◌, not}
use mathlib.Core.List.{List, [], ◌∷◌, ◌++◌}
use native.Mathlib.Omega.{arith}
use simply_storage.Prelude.Tests.{if◌then◌else◌, Bool-cases}
use simply_storage.Prelude.Lists.{All, length, take}
use simply_storage.Prelude.Table.{
  select_where, delete_where, update_where, exists, insert_by, order_by,
}

module _ {ℓ} {A : Type ℓ} where
  unfoldable pub count_where : (A → Bool) → List A → ℕ
  count_where p [] = 0
  count_where p (x ∷ xs) = (if p x then 1 else 0) + count_where p xs

  -- `OFFSET n`
  unfoldable pub skip : ℕ → List A → List A
  skip zero xs = xs
  skip (suc n) [] = []
  skip (suc n) (x ∷ xs) = skip n xs

module _ {ℓ} {A : Type ℓ} where
  pub length-select_where :
      (p : A → Bool) (xs : List A) → length (select_where p xs) ≡ count_where p xs
  unfolding select_where count_where
  length-select_where p [] = refl
  length-select_where p (x ∷ xs) = ground (arith, length-select_where p xs)

  pub count-ext :
      (p q : A → Bool) → ((a : A) → p a ≡ q a) → (xs : List A) → count_where p xs ≡ count_where q xs
  unfolding count_where
  count-ext p q h [] = refl
  count-ext p q h (x ∷ xs) = rw (h x, count-ext p q h xs) refl

  count-insert_by :
      (p : A → Bool) (before : A → A → Bool) (x : A) (xs : List A)
      → count_where p (insert_by before x xs) ≡ count_where p (x ∷ xs)
  unfolding count_where insert_by
  count-insert_by p before x [] = refl
  count-insert_by p before x (y ∷ xs) = ground (arith, count-insert_by p before x xs)

  pub count-order_by :
      (p : A → Bool) (before : A → A → Bool) (xs : List A)
      → count_where p (order_by before xs) ≡ count_where p xs
  unfolding count_where order_by
  count-order_by p before [] = refl
  count-order_by p before (x ∷ xs) =
      omega (arith, count-insert_by p before x (order_by before xs), count-order_by p before xs)

  pub count-select_where :
      (p q : A → Bool) (xs : List A)
      → count_where p (select_where q xs) ≡ count_where (λ x. q x && p x) xs
  unfolding count_where select_where
  count-select_where p q [] = refl
  count-select_where p q (x ∷ xs) = ground (arith, count-select_where p q xs)

  pub count-delete_where :
      (p q : A → Bool) (xs : List A)
      → count_where p (delete_where q xs) ≡ count_where (λ x. p x && not (q x)) xs
  unfolding count_where delete_where
  count-delete_where p q [] = refl
  count-delete_where p q (x ∷ xs) = ground (arith, count-delete_where p q xs)

  pub count-take :
      (p : A → Bool) (n : ℕ) (xs : List A) → count_where p (take n xs) ≤ count_where p xs
  unfolding count_where
  count-take p zero xs = omega arith
  count-take p (suc n) [] = omega arith
  count-take p (suc n) (x ∷ xs) = ground (arith, count-take p n xs)

  pub count-skip :
      (p : A → Bool) (n : ℕ) (xs : List A) → count_where p (skip n xs) ≤ count_where p xs
  unfolding count_where skip
  count-skip p zero xs = omega arith
  count-skip p (suc n) [] = omega arith
  count-skip p (suc n) (x ∷ xs) = ground (arith, count-skip p n xs)

  pub count-le_skip :
      (p : A → Bool) (n : ℕ) (xs : List A) → count_where p xs ≤ n + count_where p (skip n xs)
  unfolding count_where skip
  count-le_skip p zero xs = omega arith
  count-le_skip p (suc n) [] = omega arith
  count-le_skip p (suc n) (x ∷ xs) = ground (arith, count-le_skip p n xs)

  pub count_none : (p : A → Bool) (xs : List A) → All (λ x. p x ≡ false) xs → count_where p xs ≡ 0
  unfolding count_where
  count_none p [] h = refl
  count_none p (x ∷ xs) h = rw h.0 (omega (arith, count_none p xs h.1))

  pub count-le :
      (p q : A → Bool)
      → ((a : A) → p a ≡ true → q a ≡ true)
      → (xs : List A) → count_where p xs ≤ count_where q xs
  unfolding count_where
  count-le p q h [] = omega arith
  count-le p q h (x ∷ xs) = ground (arith, h x, count-le p q h xs)

  pub count-append :
      (p : A → Bool) (xs ys : List A)
      → count_where p (xs ++ ys) ≡ count_where p xs + count_where p ys
  unfolding count_where
  count-append p [] ys = omega arith
  count-append p (x ∷ xs) ys = omega (arith, count-append p xs ys)

  pub count-update_same :
      (p q : A → Bool) (f : A → A)
      → ((a : A) → p (f a) ≡ p a)
      → (xs : List A) → count_where p (update_where q f xs) ≡ count_where p xs
  unfolding count_where update_where
  count-update_same p q f h [] = refl
  count-update_same p q f h (x ∷ xs) = ground (arith, h x, count-update_same p q f h xs)

  -- At most the rows that are changed meet the condition newly.
  pub count-update_le :
      (p q : A → Bool) (f : A → A) (xs : List A)
      → count_where p (update_where q f xs)
        ≤ count_where q xs + count_where (λ x. p x && not (q x)) xs
  unfolding count_where update_where
  count-update_le p q f [] = omega arith
  count-update_le p q f (x ∷ xs) = ground (arith, count-update_le p q f xs)

  pub count-update_less :
      (p q : A → Bool) (f : A → A)
      → ((a : A) → p (f a) ≡ true → p a ≡ true)
      → (xs : List A) → count_where p (update_where q f xs) ≤ count_where p xs
  unfolding count_where update_where
  count-update_less p q f h [] = omega arith
  count-update_less p q f h (x ∷ xs) = ground (arith, h x, count-update_less p q f h xs)

  pub count-delete_le :
      (p q : A → Bool) (xs : List A) → count_where p (delete_where q xs) ≤ count_where p xs
  unfolding count_where delete_where
  count-delete_le p q [] = omega arith
  count-delete_le p q (x ∷ xs) = ground (arith, count-delete_le p q xs)

  -- A row that comes last, when no other meets a condition that it meets.
  pub count-added :
      (p : A → Bool) (x : A) (xs : List A)
      → (p x ≡ true → count_where p xs ≡ 0)
      → count_where p xs ≤ 1
      → count_where p (xs ++ x ∷ []) ≤ 1
  unfolding count_where
  count-added p x xs h le = ground (arith, h, le, count-append p xs (x ∷ []))

  pub none_counted : (p : A → Bool) (xs : List A) → exists p xs ≡ false → count_where p xs ≡ 0
  unfolding count_where exists
  none_counted p [] h = refl
  none_counted p (x ∷ xs) h = ground (arith, h, none_counted p xs)

  pub exists_counted : (p : A → Bool) (xs : List A) → 0 < count_where p xs → exists p xs ≡ true
  unfolding count_where exists
  exists_counted p [] h = absurd (omega (arith, h))
  exists_counted p (x ∷ xs) h = ground (arith, h, exists_counted p xs)

module _ {ℓ κ} {A : Type ℓ} (P : A → Type κ) where
  pub All-skip : (n : ℕ) (xs : List A) → All P xs → All P (skip n xs)
  unfolding skip
  All-skip zero xs h = h
  All-skip (suc n) [] h = tt
  All-skip (suc n) (x ∷ xs) h = All-skip n xs h.1

  pub All-selected : (p : A → Bool) (xs : List A) → All P xs → All P (select_where p xs)
  unfolding select_where
  All-selected p [] h = tt
  All-selected p (x ∷ xs) h = elim (Bool-cases (p x)) [
    | inl e ↦ rw e (h.0, All-selected p xs h.1)
    | inr e ↦ rw e (All-selected p xs h.1)
  ]
