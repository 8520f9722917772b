-- ===== src/Projects/Distinct.antt =====
-- The unique constraints and the roles under the requests of api/projects.rs.
use simply_storage.Prelude.{
  ℕ, ◌+◌, ◌≤◌, ◌<◌, ◌≡◌, refl, sym, ◌∙◌, subst, String, Option, false, ◌&&◌, not, List, arith,
  eq_iff, inl, inr, find, exists, update_where, count_where, count-update_same, count-update_le,
  count-update_less, is_some, str_eq, count-delete_le, count-added, none_counted, Bool-cases,
  Option-cases, All, All-append, All-update_where, All-imp,
}
use simply_storage.Db.Storage.{Project, ProjectStorage}
use simply_storage.Db.Project
use simply_storage.Db.Project.{
  CreateProject, UpdateProject, has_id, has_slug, is_taken, set_columns, mark_deleted,
}
use simply_storage.Db.ProjectStorage
use simply_storage.Db.ProjectStorage.{CreateProjectStorage, UpdateProjectStorage, is_pair}

-- The constraints of the tables; the ids are below the next one.
abbrev pub AreBelow : ℕ → List Project → Type 0
AreBelow n ps = All (λ (p : Project). p.id < n) ps

abbrev pub DistinctProjects : List Project → Type 0
DistinctProjects ps =
    ((id : ℕ) → count_where (has_id id) ps ≤ 1)
    × ((slug : String) → count_where (has_slug slug) ps ≤ 1)

abbrev pub DistinctPairs : List ProjectStorage → Type 0
DistinctPairs rows =
    (project_id storage_id : ℕ) → count_where (is_pair project_id storage_id) rows ≤ 1

pub create-DistinctProjects :
    (now id : ℕ) (input : CreateProject) (owner_id : Option ℕ) (ps : List Project)
    → count_where (has_id id) ps ≡ 0
    → DistinctProjects ps
    → DistinctProjects (Project.create now id input owner_id ps).1
unfolding Project.create
create-DistinctProjects now id input owner_id ps new h =
    elim (Bool-cases (exists (has_slug input.slug) ps)) [
      | inl taken ↦ rw taken h
      | inr free ↦ rw free (
        (λ k.
            count-added (has_id k) _ ps
              (λ e.
                subst (λ n. count_where (has_id n) ps ≡ 0) (let q : id ≡ k = ground (arith, e) in q)
                  new)
              (h.0 k)),
        (λ slug.
            count-added (has_slug slug) _ ps
              (λ e.
                subst (λ t. count_where (has_slug t) ps ≡ 0)
                  (let q : input.slug ≡ slug = ground (arith, e, eq_iff input.slug slug) in q)
                  (none_counted (has_slug input.slug) ps free))
              (h.1 slug)),
      )
    ]

pub create-AreBelow :
    (now id : ℕ) (input : CreateProject) (owner_id : Option ℕ) (ps : List Project)
    → AreBelow id ps
    → AreBelow (id + 1) (Project.create now id input owner_id ps).1
unfolding Project.create
create-AreBelow now id input owner_id ps h =
    let later : AreBelow (id + 1) ps = All-imp (λ (p : Project) b. omega (arith, b)) ps h in
    elim (Bool-cases (exists (has_slug input.slug) ps)) [
      | inl taken ↦ rw taken later
      | inr free ↦ rw free (All-append _ ps _ later (omega arith, tt))
    ]

pub update-AreBelow :
    (n id : ℕ) (input : UpdateProject) (ps : List Project)
    → AreBelow n ps
    → AreBelow n (Project.update id input ps).1
unfolding Project.update
update-AreBelow n id input ps h =
    elim (Option-cases (find (λ p. has_id id p && not (is_some p.deleted_at)) ps)) [
      | inl missing ↦ rw (missing, Project.update) h
      | inr (current, found) ↦
          elim (Bool-cases (is_taken id (Project.changed input current).slug ps)) [
            | inl taken ↦ rw (found, taken, Project.update) h
            | inr free ↦
                rw (found, free, Project.update)
                  (All-update_where (λ (p : Project). p.id < n) (has_id id) _ ps (λ p b. b) h)
          ]
    ]

update-slugs :
    (id : ℕ) (row : Project) (ps : List Project) (slug : String)
    → is_taken id row.slug ps ≡ false
    → DistinctProjects ps
    → count_where (has_slug slug) (update_where (has_id id) (set_columns row) ps) ≤ 1
update-slugs id row ps slug free h = elim (Bool-cases (str_eq row.slug slug)) [
  | inl same ↦
      let e : row.slug ≡ slug = ground (arith, same, eq_iff row.slug slug) in
      let none_other =
        none_counted (λ p. has_slug slug p && not (has_id id p)) ps
          (subst (λ t. is_taken id t ps ≡ false) e free) in
      omega (
        arith,
        count-update_le (has_slug slug) (has_id id) (set_columns row) ps,
        none_other,
        h.0 id,
      )
  | inr other ↦ omega (
    arith,
    count-update_less (has_slug slug) (has_id id) (set_columns row) (λ a e. cc) ps,
    h.1 slug,
  )
]

pub update-DistinctProjects :
    (id : ℕ) (input : UpdateProject) (ps : List Project)
    → DistinctProjects ps
    → DistinctProjects (Project.update id input ps).1
unfolding Project.update
update-DistinctProjects id input ps h =
    elim (Option-cases (find (λ p. has_id id p && not (is_some p.deleted_at)) ps)) [
      | inl missing ↦ rw (missing, Project.update) h
      | inr (current, found) ↦
          elim (Bool-cases (is_taken id (Project.changed input current).slug ps)) [
            | inl taken ↦ rw (found, taken, Project.update) h
            | inr free ↦
                rw (found, free, Project.update)
                  (
                    (λ k.
                        subst (λ n. n ≤ 1)
                          (sym (
                            count-update_same (has_id k) (has_id id)
                              (set_columns (Project.changed input current)) (λ a. refl) ps))
                          (h.0 k)),
                    (λ slug. update-slugs id (Project.changed input current) ps slug free h),
                  )
          ]
    ]

pub delete-DistinctProjects :
    (now id : ℕ) (ps : List Project)
    → DistinctProjects ps
    → DistinctProjects (Project.delete now id ps).1
unfolding Project.delete
delete-DistinctProjects now id ps h = (
  (λ k.
      subst (λ n. n ≤ 1) (sym (count-update_same (has_id k) _ (mark_deleted now) (λ a. refl) ps))
        (h.0 k)),
  (λ s.
      subst (λ n. n ≤ 1) (sym (count-update_same (has_slug s) _ (mark_deleted now) (λ a. refl) ps))
        (h.1 s)),
)

same_pair :
    (a b c d : ℕ) (rows : List ProjectStorage)
    → a ≡ c
    → b ≡ d
    → count_where (is_pair a b) rows ≡ count_where (is_pair c d) rows
same_pair a b c d rows e f = λ i. count_where (is_pair (e i) (f i)) rows

pub create-DistinctPairs :
    (id project_id : ℕ) (input : CreateProjectStorage) (rows : List ProjectStorage)
    → DistinctPairs rows
    → DistinctPairs (ProjectStorage.create id project_id input rows).1
unfolding ProjectStorage.create
create-DistinctPairs id project_id input rows h =
    elim (Bool-cases (exists (is_pair project_id input.storage_id) rows)) [
      | inl taken ↦ rw taken h
      | inr free ↦ rw free (λ p s.
          count-added (is_pair p s) _ rows
            (λ e.
              same_pair p s project_id input.storage_id rows (ground (arith, e)) (ground (arith, e))
              ∙ none_counted (is_pair project_id input.storage_id) rows free)
            (h p s))
    ]

pub update-DistinctPairs :
    (project_id storage_id : ℕ) (input : UpdateProjectStorage) (rows : List ProjectStorage)
    → DistinctPairs rows
    → DistinctPairs (ProjectStorage.update project_id storage_id input rows).1
unfolding ProjectStorage.update
update-DistinctPairs project_id storage_id input rows h =
    elim (Option-cases (find (is_pair project_id storage_id) rows)) [
      | inl missing ↦ rw (missing, ProjectStorage.update) h
      | inr (current, found) ↦
          rw (found, ProjectStorage.update)
            (λ p s.
              subst (λ n. n ≤ 1)
                (sym (
                  count-update_same (is_pair p s) (is_pair project_id storage_id)
                    (ProjectStorage.set_columns (ProjectStorage.changed input current)) (λ a. refl)
                    rows))
                (h p s))
    ]

pub delete-DistinctPairs :
    (project_id storage_id : ℕ) (rows : List ProjectStorage)
    → DistinctPairs rows
    → DistinctPairs (ProjectStorage.delete project_id storage_id rows).1
unfolding ProjectStorage.delete
delete-DistinctPairs project_id storage_id rows h p s =
    omega (arith, count-delete_le (is_pair p s) (is_pair project_id storage_id) rows, h p s)
