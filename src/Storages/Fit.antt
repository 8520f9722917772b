-- ===== src/Storages/Fit.antt =====
-- Which backends the registry may hold for a table of storages (storage/registry.rs and the
-- requests of api/storages.rs).
use simply_storage.Prelude.{
  ℕ, ◌≡◌, refl, ◌∙◌, subst, Option, none, some, Bool, true, false, List, ◌∷◌, arith, if◌then◌else◌,
  ◌==◌, find, Bool-cases, inl, inr, ==_refl,
}
use simply_storage.Error.{AppResult, ok, err, Result-cases}
use simply_storage.Db.Storage.{Storage}
use simply_storage.Db.Storage.Statements.{has_id}
use simply_storage.Backend.{Backend, create_backend}
use simply_storage.Backend.Registry.{
  Registry, lookup, registered, unregister, lookup-register, lookup-without,
}
use simply_storage.Storages.{register_backend}

module _ (client : Backend → AppResult (Unit {0})) where
  abbrev pub built : Storage → AppResult Backend
  built s = create_backend client s.storage_type s.config

  -- What the registry may hold for a row: nothing if there is none or it is disabled, and its
  -- backend if it is enabled and the backend can be made.
  abbrev pub FitsRow : Bool → AppResult Backend → Option Backend → Type 0
  FitsRow false made held = held ≡ none
  FitsRow true (ok b) held = held ≡ some b
  FitsRow true (err _) held = Unit {0}

  abbrev pub Fits : Option Storage → Option Backend → Type 0
  Fits none held = held ≡ none
  Fits (some s) held = FitsRow s.enabled (built s) held

  abbrev pub FitsAll : List Storage → Registry → Type 0
  FitsAll storages registry = (id : ℕ) → Fits (find (has_id id) storages) (lookup id registry)

  lookup-registered :
      (id k : ℕ) (r : AppResult Backend) (registry : Registry)
      → lookup id (registered client k r registry) ≡ (
          if k == id
          then elim r [ ok b ↦ some b | err _ ↦ lookup id registry ]
          else lookup id registry)
  lookup-registered id k (ok b) registry = lookup-register k id b registry
  lookup-registered id k (err e) registry = ground arith

  abbrev pub stepped : Storage → Registry → Registry
  stepped s registry =
      if s.enabled then register_backend client s registry else (unregister s.id registry).1

  stepped-Fits :
      (s : Storage) (registry : Registry) → Fits (some s) (lookup s.id (stepped s registry))
  unfolding register_backend unregister
  stepped-Fits s registry = elim (Bool-cases s.enabled) [
    | inl on ↦ elim (Result-cases (built s)) [
      | inl (b, made) ↦ rw (on, made) (ground (arith, lookup-register s.id s.id b registry))
      | inr (x, fails) ↦ rw (on, fails) tt
    ]
    | inr off ↦ rw off (ground (arith, lookup-without s.id s.id registry))
  ]

  stepped_other :
      (s : Storage) (id : ℕ) (registry : Registry)
      → (s.id == id) ≡ false
      → lookup id (stepped s registry) ≡ lookup id registry
  unfolding register_backend unregister
  stepped_other s id registry other = elim (Bool-cases s.enabled) [
    | inl on ↦ rw on (lookup-registered id s.id (built s) registry ∙ rw other refl)
    | inr off ↦ rw off (lookup-without s.id id registry ∙ rw other refl)
  ]

  -- A row that takes the place of what a search for its id finds.
  pub put-FitsAll :
      (s : Storage) (storages storages' : List Storage) (registry : Registry)
      → find (has_id s.id) storages' ≡ some s
      → ((id : ℕ) → (s.id == id) ≡ false → find (has_id id) storages' ≡ find (has_id id) storages)
      → FitsAll storages registry
      → FitsAll storages' (stepped s registry)
  put-FitsAll s storages storages' registry here others fits id = elim (Bool-cases (s.id == id)) [
    | inl same ↦
        subst (λ k. Fits (find (has_id k) storages') (lookup k (stepped s registry)))
          (let e : s.id ≡ id = ground (arith, same) in e) (rw here (stepped-Fits s registry))
    | inr other ↦ rw (others id other, stepped_other s id registry other) (fits id)
  ]

  pub new-FitsAll :
      (s : Storage) (storages : List Storage) (registry : Registry)
      → find (has_id s.id) storages ≡ none
      → FitsAll storages registry
      → FitsAll (s ∷ storages) (if s.enabled then register_backend client s registry else registry)
  unfolding find
  new-FitsAll s storages registry fresh fits = elim (Bool-cases s.enabled) [
    | inl on ↦
        let t =
          put-FitsAll s storages (s ∷ storages) registry (rw ==_refl refl) (λ id h. rw h refl)
            fits in
        rw on (rw on at t)
    | inr off ↦ rw off (λ id. elim (Bool-cases (s.id == id)) [
      | inl same ↦
          let e : s.id ≡ id = ground (arith, same) in
          let gone = subst (λ k. find (has_id k) storages ≡ none) (e) fresh in
          rw same (rw gone at (fits id))
      | inr other ↦ rw other (fits id)
    ])
  ]
