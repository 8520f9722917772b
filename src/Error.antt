-- ===== src/Error.antt =====
-- error.rs: the application's errors, their HTTP status and the message that a client sees, and
-- the two shapes of fallible code: a result, and an action on a state that a failure does not undo.
-- A message is the literal of its `format!`, the interpolated values left out.
pub mod Action
use Prim.Native.String.{◌++◌ as str_append}
use simply_storage.Prelude.{
  ◌⊎◌, inl, inr, ℕ, ◌≤◌, ◌<◌, ◌≡◌, ◌≢◌, refl, sym, ap, ◌∙◌, String, Option, none, some, Bool, true,
  false, arith,
}

-- `sqlx::Error`, as far as the code looks into it: code 23505, or any other failure.
pub data SqlError : Type 0 where
  unique_violation : SqlError
  other : String → SqlError

pub data AppError : Type 0 where
  not_found bad_request unauthorized forbidden conflict internal : String → AppError
  database : SqlError → AppError
  io config : String → AppError

-- The database's own text is a fixed one.
abbrev sql_message : SqlError → String
sql_message unique_violation = "duplicate key value violates unique constraint"
sql_message (other msg) = msg

-- `format!("{}", e)`
unfoldable pub to_string : AppError → String
to_string (not_found msg) = str_append "Not found: " msg
to_string (bad_request msg) = str_append "Bad request: " msg
to_string (unauthorized msg) = str_append "Unauthorized: " msg
to_string (forbidden msg) = str_append "Forbidden: " msg
to_string (conflict msg) = str_append "Conflict: " msg
to_string (internal msg) = str_append "Internal error: " msg
to_string (database e) = str_append "Database error: " (sql_message e)
to_string (io msg) = str_append "IO error: " msg
to_string (config msg) = str_append "Configuration error: " msg

unfoldable pub status_code : AppError → ℕ
status_code (not_found _) = 404
status_code (bad_request _) = 400
status_code (unauthorized _) = 401
status_code (forbidden _) = 403
status_code (conflict _) = 409
status_code (internal _) = 500
status_code (database _) = 500
status_code (io _) = 500
status_code (config _) = 500

abbrev pub generic_message : String
generic_message = "Internal server error"

client_message : AppError → String
client_message (not_found msg) = msg
client_message (bad_request msg) = msg
client_message (unauthorized msg) = msg
client_message (forbidden msg) = msg
client_message (conflict msg) = msg
client_message (internal _) = generic_message
client_message (database _) = generic_message
client_message (io _) = generic_message
client_message (config _) = generic_message

-- The status and the JSON fields `error` and `status` of the response.
unfoldable pub error_response : AppError → record { code : ℕ; error : String; status : ℕ }
unfolding status_code client_message
error_response e = record { code = status_code e; error = client_message e; status = status_code e }

pub data AppResult {ℓ} (A : Type ℓ) : Type ℓ where
  ok : A → AppResult A
  err : AppError → AppResult A

infixl 5 ◌>>=◌ ◌>>◌
abbrev pub ◌>>=◌ {ℓ κ} : {A : Type ℓ} {B : Type κ} → AppResult A → (A → AppResult B) → AppResult B
ok a >>= f = f a
err e >>= f = err e

abbrev pub ◌>>◌ {ℓ κ} : {A : Type ℓ} {B : Type κ} → AppResult A → AppResult B → AppResult B
m >> k = m >>= λ _. k

-- `if !test { return Err(e) }`
abbrev pub ensure : Bool → AppError → AppResult (Unit {0})
ensure true e = ok tt
ensure false e = err e

pub Result-cases {ℓ} :
    {A : Type ℓ} (r : AppResult A) → ((a : A) × (r ≡ ok a)) ⊎ ((e : AppError) × (r ≡ err e))
Result-cases (ok a) = inl (a, refl)
Result-cases (err e) = inr (e, refl)

-- A chain that succeeds has a first part that succeeds.
pub bind_ok {ℓ κ} :
    {A : Type ℓ} {B : Type κ} (m : AppResult A) (f : A → AppResult B) (b : B)
    → m >>= f ≡ ok b
    → (a : A) × (m ≡ ok a) × (f a ≡ ok b)
bind_ok (ok a) f b h = (a, refl, h)
bind_ok (err e) f b h = cc

pub bind_at {ℓ κ} :
    {A : Type ℓ} {B : Type κ} {m : AppResult A} {a : A} {r : AppResult B} (f : A → AppResult B)
    → m ≡ ok a
    → m >>= f ≡ r
    → f a ≡ r
bind_at f e h = sym (ap (λ m. m >>= f) e) ∙ h

pub ensure_ok : (test : Bool) (e : AppError) → ensure test e ≡ ok tt → test ≡ true
ensure_ok true e h = refl
ensure_ok false e h = cc

-- `ok_or_else`
abbrev pub ok_or {ℓ} : {A : Type ℓ} → Option A → AppError → AppResult A
ok_or none e = err e
ok_or (some a) e = ok a

-- `is_unique_violation` of db/models.rs and of sync_worker.rs, on an `AppError::Database`.
abbrev pub is_unique_violation : AppError → Bool
is_unique_violation (database unique_violation) = true
is_unique_violation _ = false

-- The message of a server error tells nothing of what failed: any two of them answer alike.
pub error_response_opaque :
    (e f : AppError)
    → 500 ≤ status_code e
    → 500 ≤ status_code f
    → error_response e ≡ error_response f
unfolding error_response
error_response_opaque e f he hf = ground arith
