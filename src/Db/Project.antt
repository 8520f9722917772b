-- ===== src/Db/Project.antt =====
-- The statements on projects of db/models.rs. A deleted project keeps its row, and the unique
-- constraint on slugs counts it.
use simply_storage.Prelude.{
  ℕ, String, Option, none, some, Bool, false, ◌&&◌, ◌||◌, not, List, [], ◌∷◌, ◌++◌, ◌==◌, leb,
  str_eq, if◌then◌else◌, select_where, update_where, order_by, exists, is_some, unwrap_or,
}
use simply_storage.Error.{AppResult, ok, err, ensure, not_found, database, unique_violation}
use simply_storage.Db.Storage.{Project, find_project}
use simply_storage.Access.{UserProject, is_member}

pub record CreateProject : Type 0 where
  pub name : String
  pub slug : String
  pub hot_to_cold_days : Option ℕ

pub record UpdateProject : Type 0 where
  pub name : Option String
  pub slug : Option String
  pub hot_to_cold_days : Option (Option ℕ)

abbrev pub has_id : ℕ → Project → Bool
has_id id p = p.id == id

abbrev pub has_slug : String → Project → Bool
has_slug slug p = str_eq p.slug slug

abbrev pub is_live : Project → Bool
is_live p = not (is_some p.deleted_at)

abbrev pub new_project : ℕ → ℕ → CreateProject → Option ℕ → Project
new_project now id input owner_id = record {
  id = id;
  name = input.name;
  slug = input.slug;
  owner_id = owner_id;
  hot_to_cold_days = input.hot_to_cold_days;
  created_at = now;
  deleted_at = none;
}

unfoldable pub create :
    ℕ → ℕ → CreateProject → Option ℕ → List Project → AppResult Project × List Project
create now id input owner_id projects =
    if exists (has_slug input.slug) projects then (err (database unique_violation), projects) else (
      ok (new_project now id input owner_id),
      projects ++ new_project now id input owner_id ∷ [],
    )

abbrev pub newest_first : Project → Project → Bool
newest_first p q = leb q.created_at p.created_at

unfoldable pub list : List Project → List Project
list projects = order_by newest_first (select_where is_live projects)

abbrev is_owned_by : ℕ → Project → Bool
is_owned_by user_id p = elim p.owner_id [ none ↦ false | some owner_id ↦ owner_id == user_id ]

-- The projects that the user owns or is a member of.
unfoldable pub list_accessible : ℕ → List UserProject → List Project → List Project
unfolding is_member
list_accessible user_id members projects = order_by newest_first (
    select_where (λ p. is_live p && (is_owned_by user_id p || is_member user_id p.id members))
      projects)

abbrev pub changed : UpdateProject → Project → Project
changed input current = record current {
  name = unwrap_or input.name current.name;
  slug = unwrap_or input.slug current.slug;
  hot_to_cold_days = unwrap_or input.hot_to_cold_days current.hot_to_cold_days;
}

-- The columns that the UPDATE sets are computed from the row that was read first.
abbrev pub set_columns : Project → Project → Project
set_columns row p = record p {
  name = row.name;
  slug = row.slug;
  hot_to_cold_days = row.hot_to_cold_days;
}

abbrev pub is_taken : ℕ → String → List Project → Bool
is_taken id slug projects = exists (λ p. has_slug slug p && not (has_id id p)) projects

unfoldable pub update : ℕ → UpdateProject → List Project → AppResult Project × List Project
unfolding find_project
update id input projects = elim (find_project id projects) [
  | err e ↦ (err e, projects)
  | ok current ↦
      let row = changed input current in
      if is_taken id row.slug projects
      then (err (database unique_violation), projects)
      else (ok row, update_where (has_id id) (set_columns row) projects)
]

abbrev is_deletable : ℕ → Project → Bool
is_deletable id p = has_id id p && is_live p

abbrev pub mark_deleted : ℕ → Project → Project
mark_deleted now p = record p { deleted_at = some now }

unfoldable pub delete : ℕ → ℕ → List Project → AppResult (Unit {0}) × List Project
delete now id projects = (
  ensure (exists (is_deletable id) projects) (not_found "Project {} not found"),
  update_where (is_deletable id) (mark_deleted now) projects,
)
