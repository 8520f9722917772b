-- ===== src/Projects/Visible.antt =====
-- Who sees and who changes a project (api/projects.rs): the list against the single project, and
-- the requests of users who are neither administrators nor the owner.
use mathlib.Core.Path.{fun_ext}
use simply_storage.Prelude.{
  ℕ, ◌≤◌, ◌≡◌, refl, sym, subst, ap, ◌∙◌, Option, none, some, Bool, false, ◌&&◌, ◌||◌, List, [],
  ◌∷◌, arith, exists, find, find-some, select_where, count_where, Bool-cases, Option-cases, inl,
  inr,
}
use simply_storage.Error.{AppError, ok, err, forbidden, not_found, ensure, ◌>>◌}
use simply_storage.Db.Storage.{Project, find_project}
use simply_storage.Db.Project.{has_id, is_live, list, list_accessible, newest_first}
use simply_storage.Access.{
  AuthenticatedUser, UserProject, is_admin, is_owner, is_member, require_owner_or_admin,
}
use simply_storage.Projects.{
  Membership, owned, readable, list_projects, update_project, delete_project, assign_storage,
  update_project_storage, remove_storage_assignment,
}
use simply_storage.Projects.Histories.{ProjectRequest, after_project_request}
use simply_storage.Projects.Histories
use simply_storage.Storages.Visible.{is_ok, exists-order_by}

-- The project that a request changes; none for a new one.
abbrev pub target : ProjectRequest → Option ℕ
target (Histories.creates now body) = none
target (Histories.updates id body) = some id
target (Histories.deletes now id) = some id
target (Histories.assigns id body) = some id
target (Histories.reassigns id storage_id body) = some id
target (Histories.unassigns id storage_id) = some id

abbrev pub owns_live : AuthenticatedUser → ℕ → List Project → Bool
owns_live user id ps = exists (λ p. has_id id p && is_live p && is_owner user p.owner_id) ps

not_owner :
    (user : AuthenticatedUser) (id : ℕ) (ps : List Project) (p : Project)
    → owns_live user id ps ≡ false
    → find (λ p. has_id id p && is_live p) ps ≡ some p
    → is_owner user p.owner_id ≡ false
unfolding exists find
not_owner user id [] p h found = cc
not_owner user id (q ∷ ps) p h found = ground (arith, h, found, not_owner user id ps p)

owned_refused :
    (user : AuthenticatedUser) (id : ℕ) (st : Membership)
    → is_admin user ≡ false
    → owns_live user id st.world.projects ≡ false
    → (e : AppError) × (owned user id st ≡ err e)
unfolding owned find_project require_owner_or_admin
owned_refused user id st plain other =
    elim (Option-cases (find (λ p. has_id id p && is_live p) st.world.projects)) [
      | inl missing ↦ (not_found "Project {} not found", rw (missing, owned) refl)
      | inr (p, found) ↦ (
        forbidden "Access denied: not the owner",
        rw (found, plain, not_owner user id st.world.projects p other found, owned) refl,
      )
    ]

refused_at :
    (user : AuthenticatedUser) (k id : ℕ) (st : Membership)
    → k ≡ id
    → is_admin user ≡ false
    → owns_live user id st.world.projects ≡ false
    → (e : AppError) × (owned user k st ≡ err e)
refused_at user k id st same plain other =
    owned_refused user k st plain
      (subst (λ n. owns_live user n st.world.projects ≡ false) (sym same) other)

-- A request on a project by a user who is no administrator, when no live project with that id is
-- the user's own, changes nothing: no project, no assignment, no member.
pub request_refused :
    (user : AuthenticatedUser) (r : ProjectRequest) (id : ℕ) (st : Membership)
    → target r ≡ some id
    → is_admin user ≡ false
    → owns_live user id st.world.projects ≡ false
    → after_project_request user r st ≡ st
unfolding after_project_request update_project delete_project assign_storage update_project_storage
    remove_storage_assignment
request_refused user (Histories.creates now body) id st t plain other = cc
request_refused user (Histories.updates k body) id st t plain other =
    rw ((refused_at user k id st (cc) plain other).1, update_project, after_project_request) refl
request_refused user (Histories.deletes now k) id st t plain other =
    rw ((refused_at user k id st (cc) plain other).1, delete_project, after_project_request) refl
request_refused user (Histories.assigns k body) id st t plain other =
    rw ((refused_at user k id st (cc) plain other).1, assign_storage, after_project_request) refl
request_refused user (Histories.reassigns k storage_id body) id st t plain other =
    rw ((refused_at user k id st (cc) plain other).1, update_project_storage, after_project_request)
      refl
request_refused user (Histories.unassigns k storage_id) id st t plain other =
    rw
      (
        (refused_at user k id st (cc) plain other).1,
        remove_storage_assignment,
        after_project_request,
      )
      refl

when_found : (Project → Bool) → Option Project → Bool
when_found access none = false
when_found access (some p) = access p

none_selected :
    (id : ℕ) (test : Project → Bool) (ps : List Project)
    → count_where (has_id id) ps ≡ 0
    → exists (has_id id) (select_where test ps) ≡ false
unfolding exists select_where count_where
none_selected id test [] h = refl
none_selected id test (p ∷ ps) h = ground (arith, h, none_selected id test ps)

exists-selected :
    (id : ℕ) (access : Project → Bool) (ps : List Project)
    → count_where (has_id id) ps ≤ 1
    → exists (has_id id) (select_where (λ p. is_live p && access p) ps)
      ≡ when_found access (find (λ p. has_id id p && is_live p) ps)
unfolding exists select_where find when_found count_where
exists-selected id access [] h = refl
exists-selected id access (p ∷ ps) h =
    ground
      (arith, h, none_selected id (λ p. is_live p && access p) ps, exists-selected id access ps)

abbrev may_read : AuthenticatedUser → List UserProject → Project → Bool
may_read user members p =
    is_admin user || (is_owner user p.owner_id || is_member user.user_id p.id members)

found_readable :
    (user : AuthenticatedUser) (id : ℕ) (st : Membership)
    → is_ok (readable user id st)
      ≡ when_found
          (may_read user st.members)
          (find (λ p. has_id id p && is_live p) st.world.projects)
unfolding readable find_project when_found
found_readable user id st =
    elim (Option-cases (find (λ p. has_id id p && is_live p) st.world.projects)) [
      | inl missing ↦ rw (missing, readable, when_found) refl
      | inr (p, found) ↦
          let same : p.id ≡ id =
            ground (arith, find-some (λ q. has_id id q && is_live q) st.world.projects p found) in
          rw (found, readable, when_found)
            (subst
              (λ k.
                is_ok (
                  ensure
                    (is_admin user
                      || is_owner user p.owner_id
                      || is_member user.user_id k st.members)
                    (forbidden "Access denied: not a member")
                  >> ok p)
                ≡ may_read user st.members p)
              (same) (ground arith))
    ]

listed :
    (user : AuthenticatedUser) (id : ℕ) (st : Membership)
    → exists (has_id id) (list_projects user st)
      ≡ exists
          (has_id id)
          (select_where (λ p. is_live p && may_read user st.members p) st.world.projects)
unfolding list_projects list list_accessible
listed user id st = elim (Bool-cases (is_admin user)) [
  | inl admin ↦ rw admin (
      exists-order_by (has_id id) newest_first _
      ∙ ap (λ t. exists (has_id id) (select_where t st.world.projects))
          (fun_ext (λ p. ground arith)))
  | inr plain ↦ rw plain (
      exists-order_by (has_id id) newest_first _
      ∙ ap (λ t. exists (has_id id) (select_where t st.world.projects))
          (fun_ext (λ p. ground arith)))
]

-- When ids are unique, a user sees a project in the list exactly when asking for it by its id
-- succeeds.
pub list_projects-agrees :
    (user : AuthenticatedUser) (id : ℕ) (st : Membership)
    → count_where (has_id id) st.world.projects ≤ 1
    → exists (has_id id) (list_projects user st) ≡ is_ok (readable user id st)
list_projects-agrees user id st h =
    listed user id st
    ∙ exists-selected id (may_read user st.members) st.world.projects h
    ∙ sym (found_readable user id st)
