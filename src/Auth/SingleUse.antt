-- ===== src/Auth/SingleUse.antt =====
-- A refresh token of api/auth_routes.rs opens one session, whatever else is asked.
use simply_storage.Prelude.{
  ℕ, ◌+◌, ◌≤◌, ◌≡◌, ◌≢◌, refl, String, some, Bool, List, [], ◌∷◌, arith, str_eq, eq_iff,
  if◌then◌else◌, All, count_where, find, delete_where, Option-cases, Bool-cases, ap, subst, inl,
  inr, ◌==◌,
}
use simply_storage.Error.{AppResult, ok, err, Result-cases}
use simply_storage.Db.User.{
  User, RefreshToken, has_hash, is_good, find_by_id, consume_by_hash, delete_by_hash,
  delete_by_user_id,
}
use simply_storage.Auth.{
  Accounts, AuthService, CreateUserRequest, create_user, login, refresh, logout, issue, renewed,
  authenticate,
}
use simply_storage.Auth.Users.{UpdateUserRequest, delete_user, update_user}

-- What clients and administrators ask; a login and a renewal carry the new token that they draw.
pub data Request : Type 0 where
  creates : (now : ℕ) → CreateUserRequest → Request
  logs_in : (now : ℕ) → (new username password : String) → Request
  renews : (now : ℕ) → (new old : String) → Request
  logs_out : String → Request
  updates : (now admin_id user_id : ℕ) → UpdateUserRequest → Request
  deletes : (admin_id user_id : ℕ) → Request

abbrev pub succeeded {ℓ} : {A : Type ℓ} → AppResult A → ℕ
succeeded (ok _) = 1
succeeded (err _) = 0

module _ (service : AuthService) where
  unfoldable pub step : Request → Accounts → Accounts
  unfolding create_user login refresh logout update_user delete_user
  step (creates now body) st = (create_user service now body st).1
  step (logs_in now new username password) st = (login service now new username password st).1
  step (renews now new old) st = (refresh service now new old st).1
  step (logs_out token) st = logout service token st
  step (updates now admin_id user_id body) st = (update_user service now admin_id user_id body st).1
  step (deletes admin_id user_id) st = (delete_user admin_id user_id st).1

  -- How many renewals with a token succeed.
  abbrev pub opened : String → Request → Accounts → ℕ
  opened token (renews now new old) st =
      if str_eq old token then succeeded (refresh service now new old st).0 else 0
  opened token _ st = 0

  unfoldable pub renewals : String → List Request → Accounts → ℕ
  unfolding step
  renewals token [] st = 0
  renewals token (request ∷ requests) st =
      opened token request st + renewals token requests (step request st)

  -- The request draws no token with the hash.
  abbrev pub IsOther : String → Request → Type 0
  IsOther hash (logs_in now new username password) = service.hash_refresh_token new ≢ hash
  IsOther hash (renews now new old) = service.hash_refresh_token new ≢ hash
  IsOther hash _ = Unit

succeeded_le {ℓ} : {A : Type ℓ} (r : AppResult A) → succeeded r ≤ 1
succeeded_le (ok a) = omega arith
succeeded_le (err e) = omega arith

count-deleted-le :
    (p q : RefreshToken → Bool) (tokens : List RefreshToken)
    → count_where p (delete_where q tokens) ≤ count_where p tokens
unfolding count_where delete_where
count-deleted-le p q [] = omega arith
count-deleted-le p q (t ∷ tokens) = ground (arith, count-deleted-le p q tokens)

-- A token that is found is one row less.
count-consumed :
    (now : ℕ) (hash : String) (tokens : List RefreshToken) (t : RefreshToken)
    → find (is_good now hash) tokens ≡ some t
    → count_where (has_hash hash) (delete_where (is_good now hash) tokens) + 1
      ≤ count_where (has_hash hash) tokens
unfolding count_where delete_where find
count-consumed now hash [] t e = cc
count-consumed now hash (k ∷ tokens) t e = ground (
  arith,
  e,
  count-consumed now hash tokens t,
  count-deleted-le (has_hash hash) (is_good now hash) tokens,
)

module _ (service : AuthService) (hash : String) where
  abbrev tally : Accounts → ℕ
  tally st = count_where (has_hash hash) st.tokens

  issue-tally :
      (now : ℕ) (new : String) (user : User) (st : Accounts)
      → service.hash_refresh_token new ≢ hash
      → tally (issue service now new user st).1 ≡ tally st
  unfolding count_where
  issue-tally now new user st other =
      ground (arith, other, eq_iff (service.hash_refresh_token new) hash)

  create_user-tally :
      (now : ℕ) (body : CreateUserRequest) (st : Accounts)
      → tally (create_user service now body st).1 ≡ tally st
  unfolding create_user
  create_user-tally now body st = ground arith

  login-tally :
      (now : ℕ) (new username password : String) (st : Accounts)
      → service.hash_refresh_token new ≢ hash
      → tally (login service now new username password st).1 ≡ tally st
  unfolding login
  login-tally now new username password st other =
      elim (Result-cases (authenticate service username password st.users)) [
        | inl (user, e) ↦ rw (e, login) (issue-tally now new user st other)
        | inr (x, e) ↦ rw (e, login) refl
      ]

  delete_user-tally :
      (admin_id user_id : ℕ) (st : Accounts) → tally (delete_user admin_id user_id st).1 ≤ tally st
  unfolding delete_user delete_by_user_id
  delete_user-tally admin_id user_id st =
      ground (arith, count-deleted-le (has_hash hash) (λ t. t.user_id == user_id) st.tokens)

  update_user-tally :
      (now admin_id user_id : ℕ) (body : UpdateUserRequest) (st : Accounts)
      → tally (update_user service now admin_id user_id body st).1 ≤ tally st
  unfolding update_user delete_by_user_id
  update_user-tally now admin_id user_id body st =
      ground (arith, count-deleted-le (has_hash hash) (λ t. t.user_id == user_id) st.tokens)

  -- A renewal whose token is found counts at most one success, and draws another token.
  renewed-tally :
      (now : ℕ) (new : String) (t : RefreshToken) (st : Accounts)
      → service.hash_refresh_token new ≢ hash
      → (tally (renewed service now new (some t) st).1 ≡ tally st)
        × (succeeded (renewed service now new (some t) st).0 ≤ 1)
  renewed-tally now new t st other = elim (Result-cases (find_by_id t.user_id st.users)) [
    | inl (user, e) ↦ rw (e, renewed) (issue-tally now new user st other, succeeded_le _)
    | inr (x, e) ↦ rw (e, renewed) (refl, omega arith)
  ]

  refresh-tally :
      (now : ℕ) (new old : String) (st : Accounts)
      → service.hash_refresh_token new ≢ hash
      → tally (refresh service now new old st).1 ≤ tally st
  unfolding refresh consume_by_hash
  refresh-tally now new old st other =
      let good = is_good now (service.hash_refresh_token old) in
      let less = count-deleted-le (has_hash hash) good st.tokens in
      elim (Option-cases (find good st.tokens)) [
        | inl e ↦ rw (e, refresh) less
        | inr (t, e) ↦
            let st' : Accounts = record st { tokens = delete_where good st.tokens } in
            let after = renewed-tally now new t st' other in
            rw (e, refresh) (omega (arith, after.0, less))
      ]

  refresh-spent :
      (now : ℕ) (new old : String) (st : Accounts)
      → service.hash_refresh_token new ≢ hash
      → service.hash_refresh_token old ≡ hash
      → succeeded (refresh service now new old st).0 + tally (refresh service now new old st).1
        ≤ tally st
  unfolding refresh consume_by_hash
  refresh-spent now new old st other same =
      let good = is_good now (service.hash_refresh_token old) in
      elim (Option-cases (find good st.tokens)) [
        | inl e ↦ rw (e, refresh) (omega (arith, count-deleted-le (has_hash hash) good st.tokens))
        | inr (t, e) ↦
            let st' : Accounts = record st { tokens = delete_where good st.tokens } in
            let after = renewed-tally now new t st' other in
            let less : tally st' + 1 ≤ tally st =
              subst
                (λ h.
                  count_where (has_hash h) (delete_where good st.tokens) + 1
                  ≤ count_where (has_hash h) st.tokens)
                same (count-consumed now (service.hash_refresh_token old) st.tokens t e) in
            rw (e, refresh) (omega (arith, after.0, after.1, less))
      ]

module _ (service : AuthService) (token : String) where
  step-spent :
      (request : Request) (st : Accounts)
      → IsOther service (service.hash_refresh_token token) request
      → opened service token request st
          + tally service (service.hash_refresh_token token) (step service request st)
        ≤ tally service (service.hash_refresh_token token) st
  unfolding step
  step-spent (creates now body) st other =
      omega (arith, create_user-tally service (service.hash_refresh_token token) now body st)
  step-spent (logs_in now new username password) st other = omega (
    arith,
    login-tally service (service.hash_refresh_token token) now new username password st other,
  )
  step-spent (renews now new old) st other = elim (Bool-cases (str_eq old token)) [
    | inl e ↦
        let same : old ≡ token = ground (arith, e, eq_iff old token) in
        rw e (
          refresh-spent service (service.hash_refresh_token token) now new old st other
            (ap (λ t. service.hash_refresh_token t) same))
    | inr e ↦ rw e (
        omega
          (arith, refresh-tally service (service.hash_refresh_token token) now new old st other))
  ]
  step-spent (logs_out old) st other =
      unfold logout delete_by_hash in
      omega (
        arith,
        count-deleted-le (has_hash (service.hash_refresh_token token))
            (has_hash (service.hash_refresh_token old)) st.tokens,
      )
  step-spent (updates now admin_id user_id body) st other = omega (
    arith,
    update_user-tally service (service.hash_refresh_token token) now admin_id user_id body st,
  )
  step-spent (deletes admin_id user_id) st other =
      omega
        (arith, delete_user-tally service (service.hash_refresh_token token) admin_id user_id st)

  -- In every history of requests in which no login and no renewal draws a token with the hash of
  -- this one, the renewals with this token that succeed are at most the rows of its hash at the
  -- start: a token that was issued once opens at most one session.
  pub renewals-le :
      (requests : List Request) (st : Accounts)
      → All (IsOther service (service.hash_refresh_token token)) requests
      → renewals service token requests st
        ≤ count_where (has_hash (service.hash_refresh_token token)) st.tokens
  unfolding renewals
  renewals-le [] st other = omega arith
  renewals-le (request ∷ requests) st other =
      omega (
        arith,
        step-spent request st other.0,
        renewals-le requests (step service request st) other.1,
      )
