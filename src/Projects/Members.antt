-- ===== src/Projects/Members.antt =====
-- The memberships of projects and their roles under the requests of api/projects.rs.
use simply_storage.Prelude.{
  ℕ, ◌≤◌, ◌≡◌, refl, sym, ◌∙◌, subst, String, List, arith, ◌⊎◌, inl, inr, exists, count_where,
  count-update_same, count-delete_le, count-added, none_counted, Bool-cases, All, All-append,
  All-update_where, All-delete_where,
}
use simply_storage.Access
use simply_storage.Access.{AuthenticatedUser, UserProject, is_membership}

abbrev pub DistinctMembers : List UserProject → Type 0
DistinctMembers rows =
    (user_id project_id : ℕ) → count_where (is_membership user_id project_id) rows ≤ 1

same_member :
    (a b c d : ℕ) (rows : List UserProject)
    → a ≡ c
    → b ≡ d
    → count_where (is_membership a b) rows ≡ count_where (is_membership c d) rows
same_member a b c d rows e f = λ i. count_where (is_membership (e i) (f i)) rows

-- The roles that a member of a project may have.
abbrev pub IsRole : UserProject → Type 0
IsRole up = (up.role ≡ "member") ⊎ (up.role ≡ "writer")

abbrev pub GoodMembers : List UserProject → Type 0
GoodMembers rows = DistinctMembers rows × All IsRole rows

pub create-GoodMembers :
    (now id user_id project_id : ℕ) (role : String) (rows : List UserProject)
    → (role ≡ "member") ⊎ (role ≡ "writer")
    → GoodMembers rows
    → GoodMembers (Access.create now id user_id project_id role rows).1
unfolding Access.create
create-GoodMembers now id user_id project_id role rows good h =
    elim (Bool-cases (exists (is_membership user_id project_id) rows)) [
      | inl taken ↦ rw taken h
      | inr free ↦ rw free (
        (λ u p.
            count-added (is_membership u p) _ rows
              (λ e.
                same_member u p user_id project_id rows (ground (arith, e)) (ground (arith, e))
                ∙ none_counted (is_membership user_id project_id) rows free)
              (h.0 u p)),
        All-append IsRole rows _ h.1 (good, tt),
      )
    ]

pub update_role-GoodMembers :
    (user_id project_id : ℕ) (role : String) (rows : List UserProject)
    → (role ≡ "member") ⊎ (role ≡ "writer")
    → GoodMembers rows
    → GoodMembers (Access.update_role user_id project_id role rows).1
unfolding Access.update_role
update_role-GoodMembers user_id project_id role rows good h = (
  (λ u p.
      subst (λ n. n ≤ 1)
        (sym (
          count-update_same (is_membership u p) (is_membership user_id project_id)
            (λ up. record up { role = role }) (λ a. refl) rows))
        (h.0 u p)),
  All-update_where IsRole (is_membership user_id project_id) _ rows (λ up r. good) h.1,
)

pub delete-GoodMembers :
    (user_id project_id : ℕ) (rows : List UserProject)
    → GoodMembers rows
    → GoodMembers (Access.delete user_id project_id rows).1
unfolding Access.delete
delete-GoodMembers user_id project_id rows h = (
  (λ u p. omega (
    arith,
    count-delete_le (is_membership u p) (is_membership user_id project_id) rows,
    h.0 u p,
  )),
  All-delete_where IsRole (is_membership user_id project_id) rows h.1,
)
