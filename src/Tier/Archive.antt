-- ===== src/Tier/Archive.antt =====
-- Archiving does not take away the last copy that can be read (services/tier_service.rs).
use simply_storage.Prelude.{
  ℕ, zero, suc, ◌≢◌, ◌≡◌, ◌⊎◌, inl, inr, refl, sym, ap, ◌∙◌, subst, Bool, true, false, ◌&&◌, not,
  List, [], ◌∷◌, arith, ◌==◌, ==_iff, take, select_where, update_where, exists, Bool-cases,
  if◌then◌else◌,
}
use simply_storage.Db.Storage.{Storage}
use simply_storage.Db.Location.{FileLocation, archived, is_synced, on_hot, on_enabled, with_status}
use simply_storage.Db.Location
use simply_storage.World.{World}
use simply_storage.Tier.{
  on_cold, is_cold_copy, is_pending_archive, archive_each, process_completed_archives,
}

module _ {A : Type 0} where
  abbrev pub In : A → List A → Type 0
  In x [] = ⊥
  In x (y ∷ ys) = (x ≡ y) ⊎ In x ys

  exists-In : (p : A → Bool) (xs : List A) → exists p xs ≡ true → (x : A) × In x xs × (p x ≡ true)
  unfolding exists
  exists-In p [] h = cc
  exists-In p (x ∷ xs) h = elim (Bool-cases (p x)) [
    | inl e ↦ (x, inl refl, e)
    | inr e ↦ let (y, i, py) = exists-In p xs (ground (arith, e, h)) in (y, inr i, py)
  ]

  In-exists : (p : A → Bool) (x : A) (xs : List A) → In x xs → p x ≡ true → exists p xs ≡ true
  unfolding exists
  In-exists p x [] i px = elim i [ ]
  In-exists p x (y ∷ ys) (inl e) px = rw (sym e) (rw px refl)
  In-exists p x (y ∷ ys) (inr i) px = ground (arith, In-exists p x ys i px)

  kept :
      (p : A → Bool) (x y : A) (ys : List A)
      → p y ≡ true
      → (In x (select_where p ys) → In x ys × (p x ≡ true))
      → In x (y ∷ select_where p ys)
      → In x (y ∷ ys) × (p x ≡ true)
  kept p x y ys e rest (inl same) = (inl same, ap p same ∙ e)
  kept p x y ys e rest (inr i) = let (j, px) = rest i in (inr j, px)

  In-select_where :
      (p : A → Bool) (x : A) (xs : List A) → In x (select_where p xs) → In x xs × (p x ≡ true)
  unfolding select_where
  In-select_where p x [] i = elim i [ ]
  In-select_where p x (y ∷ ys) i = elim (Bool-cases (p y)) [
    | inl e ↦
        kept p x y ys e (In-select_where p x ys)
          (subst (λ b. In x (if b then y ∷ select_where p ys else select_where p ys)) e i)
    | inr e ↦
        let (j, px) =
          In-select_where p x ys
            (subst (λ b. In x (if b then y ∷ select_where p ys else select_where p ys)) e i) in
        (inr j, px)
  ]

  In-take : (n : ℕ) (x : A) (xs : List A) → In x (take n xs) → In x xs
  In-take zero x xs i = elim i [ ]
  In-take (suc n) x [] i = i
  In-take (suc n) x (y ∷ ys) (inl e) = inl e
  In-take (suc n) x (y ∷ ys) (inr i) = inr (In-take n x ys i)

  In-update_where :
      (p : A → Bool) (f : A → A) (x : A) (xs : List A)
      → In x xs
      → p x ≡ false
      → In x (update_where p f xs)
  unfolding update_where
  In-update_where p f x [] i px = i
  In-update_where p f x (y ∷ ys) (inl e) px = inl (rw (sym e) (rw px refl))
  In-update_where p f x (y ∷ ys) (inr i) px = inr (In-update_where p f x ys i px)

true-ne-false : true ≢ false
true-ne-false h = cc

archive_each-In :
    (now : ℕ) (x : FileLocation) (pending locations : List FileLocation)
    → In x locations
    → ((y : FileLocation) → In y pending → (x.id == y.id) ≡ false)
    → In x (archive_each now pending locations)
unfolding archive_each Location.update_status
archive_each-In now x [] locations i h = i
archive_each-In now x (y ∷ pending) locations i h =
    archive_each-In now x pending _
      (In-update_where (λ l. l.id == y.id) (with_status now archived) x locations i
        (h y (inl refl)))
      (λ z j. h z (inr j))

-- The primary keys of the two tables.
abbrev pub IsKeyed : World → Type 0
IsKeyed w =
    ((x y : FileLocation) → In x w.locations → In y w.locations → x.id ≡ y.id → x ≡ y)
    × ((s t : Storage) → In s w.storages → In t w.storages → s.id ≡ t.id → s ≡ t)

-- A download can read the file from some storage.
abbrev pub is_readable : ℕ → World → Bool
is_readable file_id w =
    exists (λ l. l.file_id == file_id && on_enabled w.storages l && is_synced l.status) w.locations

module _ (now : ℕ) (w : World) (keyed : IsKeyed w) where
  abbrev pending : List FileLocation
  pending = take 100 (select_where (is_pending_archive now w) w.locations)

  pending-In :
      (y : FileLocation) → In y pending → In y w.locations × (is_pending_archive now w y ≡ true)
  pending-In y i =
      In-select_where (is_pending_archive now w) y w.locations
        (In-take 100 y (select_where (is_pending_archive now w) w.locations) i)

  -- No storage is hot and cold.
  hot-cold :
      (l : FileLocation) → on_hot w.storages l ≡ true → on_cold w.storages l ≡ true → true ≡ false
  hot-cold l hot cold =
      let (s, is, hs) =
        exists-In (λ (s : Storage). s.id == l.storage_id && s.is_hot) w.storages hot in
      let (t, it, ht) =
        exists-In (λ (s : Storage). s.id == l.storage_id && not s.is_hot && s.enabled) w.storages
          cold in
      let same = keyed.1 s t is it (ground (arith, hs, ht)) in
      ground (arith, hs, ht, ap (λ (s : Storage). s.is_hot) same)

  cold-enabled : (l : FileLocation) → on_cold w.storages l ≡ true → on_enabled w.storages l ≡ true
  cold-enabled l cold =
      let (t, it, ht) =
        exists-In (λ (s : Storage). s.id == l.storage_id && not s.is_hot && s.enabled) w.storages
          cold in
      In-exists (λ (s : Storage). s.id == l.storage_id && s.enabled) t w.storages it
        (ground (arith, ht))

  -- A cold copy is not archived.
  cold-stays :
      (file_id : ℕ) (c : FileLocation)
      → In c w.locations
      → is_cold_copy w.storages file_id c ≡ true
      → In c (process_completed_archives now w).1.locations
  unfolding process_completed_archives
  cold-stays file_id c i h = archive_each-In now c pending w.locations i (λ y j.
      elim (Bool-cases (c.id == y.id)) [
        | inr e ↦ e
        | inl e ↦
            let (iy, py) = pending-In y j in
            let same = keyed.0 c y i iy ((==_iff c.id y.id).0 e) in
            let hot : on_hot w.storages c ≡ true =
              subst (λ l. on_hot w.storages l ≡ true) (sym same) (ground (arith, py)) in
            elim (true-ne-false (hot-cold c hot (ground (arith, h)))) [ ]
      ])

  -- Archiving keeps every file readable that is, although it takes hot copies away: provided that
  -- the ids of locations and of storages are keys.
  pub process_completed_archives_readable :
      (file_id : ℕ)
      → is_readable file_id w ≡ true
      → is_readable file_id (process_completed_archives now w).1 ≡ true
  unfolding process_completed_archives
  process_completed_archives_readable file_id h =
      let readable : FileLocation → Bool =
        λ l. l.file_id == file_id && on_enabled w.storages l && is_synced l.status in
      let (l, i, hl) = exists-In readable w.locations h in
      elim (Bool-cases (exists (λ (y : FileLocation). l.id == y.id) pending)) [
        | inr e ↦
            In-exists readable l (process_completed_archives now w).1.locations
              (archive_each-In now l pending w.locations i (λ y j.
                elim (Bool-cases (l.id == y.id)) [
                  | inr other ↦ other
                  | inl same ↦
                      elim (true-ne-false (
                        sym (In-exists (λ (y : FileLocation). l.id == y.id) y pending j same)
                        ∙ e)) [ ]
                ]))
              hl
        | inl e ↦
            let (y, j, hy) = exists-In (λ (y : FileLocation). l.id == y.id) pending e in
            let (iy, py) = pending-In y j in
            let same = keyed.0 l y i iy ((==_iff l.id y.id).0 hy) in
            let of_file : y.file_id ≡ l.file_id = ap (λ (k : FileLocation). k.file_id) (sym same) in
            let (c, ic, hc) =
              exists-In (is_cold_copy w.storages y.file_id) w.locations (ground (arith, py)) in
            In-exists readable c (process_completed_archives now w).1.locations
              (cold-stays y.file_id c ic hc) (ground (arith, hc, hl, of_file, cold-enabled c))
      ]
