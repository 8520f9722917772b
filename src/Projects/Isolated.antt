-- ===== src/Projects/Isolated.antt =====
-- The projects of api/projects.rs as services/backend_resolver.rs tells them apart.
use Prim.Native.String.{count}
use simply_storage.Prelude.{
  ℕ, ◌≤◌, ◌≡◌, ◌≢◌, ap, Bool, true, ◌&&◌, not, String, some, List, [], ◌∷◌, ◌==◌, eq_iff, arith,
  find, find-some, count_where, is_some, inl, inr, Option-cases,
}
use simply_storage.Error.{AppResult, ok}
use simply_storage.Json.{get}
use simply_storage.Db.Storage.{
  Project, Storage, ProjectStorage, find_project, find_for_project_and_storage,
}
use simply_storage.Db.Project.{has_slug}
use simply_storage.Backend.{Backend}
use simply_storage.Resolver.{container_key, resolve_project_backend}
use simply_storage.Resolver.Isolation.{IsDerived, IsPlain, backends_differ}
use simply_storage.Projects.{Membership}
use simply_storage.Projects.Distinct.{DistinctProjects}
use simply_storage.Projects.Steps.{IsValid}
use simply_storage.Projects.Histories.{Request, after, requests-IsValid}

find-counted :
    (p q : Project → Bool) (ps : List Project) (a : Project)
    → find p ps ≡ some a
    → q a ≡ true
    → 1 ≤ count_where q ps
unfolding find count_where
find-counted p q [] a h holds = ground (arith, h)
find-counted p q (x ∷ ps) a h holds = ground (arith, h, holds, find-counted p q ps a)

-- Two searches that find rows with one property find the same row, where at most one row has it.
find-only :
    (p q has : Project → Bool) (ps : List Project) (a b : Project)
    → count_where has ps ≤ 1
    → find p ps ≡ some a
    → find q ps ≡ some b
    → has a ≡ true
    → has b ≡ true
    → a ≡ b
unfolding find count_where
find-only p q has [] a b one fa fb ha hb = ground (arith, fa)
find-only p q has (x ∷ ps) a b one fa fb ha hb = ground (
  arith,
  one,
  fa,
  fb,
  ha,
  hb,
  find-counted p has ps a,
  find-counted q has ps b,
  find-only p q has ps a b,
)

-- The condition of the query for a project that is not deleted.
abbrev is_at : ℕ → Project → Bool
is_at id p = p.id == id && not (is_some p.deleted_at)

find_project-find :
    (id : ℕ) (ps : List Project) (p : Project)
    → find_project id ps ≡ ok p
    → find (is_at id) ps ≡ some p
unfolding find_project
find_project-find id ps p h = elim (Option-cases (find (is_at id) ps)) [
  | inl e ↦ ground (arith, e, h)
  | inr (q, e) ↦ ground (arith, e, h)
]

slugs_differ :
    (i j : ℕ) (ps : List Project) (p q : Project)
    → DistinctProjects ps
    → i ≢ j
    → find_project i ps ≡ ok p
    → find_project j ps ≡ ok q
    → p.slug ≢ q.slug
slugs_differ i j ps p q distinct differ fp fq same =
    let at_i = find_project-find i ps p fp in
    let at_j = find_project-find j ps q fq in
    let one : p ≡ q =
      find-only (is_at i) (is_at j) (has_slug p.slug) ps p q (distinct.1 p.slug) at_i at_j
        (ground (arith, eq_iff p.slug p.slug)) (ground (arith, same, eq_iff q.slug p.slug)) in
    differ (
      ground (
        arith,
        ap (λ (r : Project). r.id) one,
        find-some (is_at i) ps p at_i,
        find-some (is_at j) ps q at_j,
      ))

-- Where no two projects had one slug or one id to begin with, then whatever users have asked for of
-- the projects since, two live projects that are assigned to a storage without a container of their
-- own choice get backends on different containers, where the storage's type has containers and the
-- first six characters of an id are six, provided that neither of the two slugs begins with white
-- space and no id has any.
pub backends_differ_after :
    (rs : List Request) (st : Membership) (short_id : ℕ → String)
    (client : Backend → AppResult (Unit {0})) (storage : Storage) (p q : Project)
    (ps qs : ProjectStorage) (pid qid : ℕ) (key : String) (b c : Backend)
    → IsValid st
    → ((id : ℕ) → count (short_id id) ≡ 6)
    → pid ≢ qid
    → find_project pid (after rs st).world.projects ≡ ok p
    → find_project qid (after rs st).world.projects ≡ ok q
    → find_for_project_and_storage pid storage.id (after rs st).world.assignments ≡ some ps
    → find_for_project_and_storage qid storage.id (after rs st).world.assignments ≡ some qs
    → IsDerived ps
    → IsDerived qs
    → container_key storage.storage_type ≡ some key
    → IsPlain short_id p ps
    → IsPlain short_id q qs
    → resolve_project_backend short_id client
        (after rs st).world.projects
        (after rs st).world.assignments
        storage
        pid
      ≡ ok b
    → resolve_project_backend short_id client
        (after rs st).world.projects
        (after rs st).world.assignments
        storage
        qid
      ≡ ok c
    → get key b.config ≢ get key c.config
backends_differ_after rs st short_id client storage p q ps qs pid qid key b c valid six differ fp fq
      ap_ aq dp dq k =
    backends_differ short_id client _ _ storage p q ps qs pid qid key b c six fp fq ap_ aq dp dq k
      (slugs_differ pid qid _ p q (requests-IsValid rs st valid).projects differ fp fq)
