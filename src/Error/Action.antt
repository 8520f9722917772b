-- ===== src/Error/Action.antt =====
-- Actions on a state `S`. What was written before a failure stays written, as it does in a handler
-- whose queries commit one by one.
use simply_storage.Prelude.{Bool, true, false}
use simply_storage.Error.{AppError, AppResult, ok, err}

abbrev pub Action {ℓ κ} : Type ℓ → Type κ → Type (ℓ ⊔ κ)
Action S A = S → AppResult A × S

module _ {ℓ κ} {S : Type ℓ} {A : Type κ} where
  abbrev pub pure : A → Action S A
  pure a s = (ok a, s)

  abbrev pub raise : AppError → Action S A
  raise e s = (err e, s)

  abbrev pub lift : AppResult A → Action S A
  lift r s = (r, s)

  abbrev pub gets : (S → A) → Action S A
  gets f s = (ok (f s), s)

module _ {ℓ} {S : Type ℓ} where
  abbrev pub modify : (S → S) → Action S (Unit {0})
  modify f s = (ok tt, f s)

  -- `if !test { return Err(e) }`
  abbrev pub require : Bool → AppError → Action S (Unit {0})
  require true e s = (ok tt, s)
  require false e s = (err e, s)

module _ {ℓ κ μ} {S : Type ℓ} {A : Type κ} {B : Type μ} where
  abbrev pub continue : AppResult A → (A → Action S B) → Action S B
  continue (ok a) f s = f a s
  continue (err e) f s = (err e, s)

  infixl 5 ◌>>=◌ ◌>>◌
  abbrev pub ◌>>=◌ : Action S A → (A → Action S B) → Action S B
  ◌>>=◌ m f s = let (r, s') = m s in continue r f s'

  abbrev pub ◌>>◌ : Action S A → Action S B → Action S B
  m >> n = m >>= λ _. n

  -- `match m { Ok(a) => f(a), Err(e) => g(e) }`
  abbrev handled : AppResult A → (A → Action S B) → (AppError → Action S B) → Action S B
  handled (ok a) f g s = f a s
  handled (err e) f g s = g e s

  abbrev pub handle : Action S A → (A → Action S B) → (AppError → Action S B) → Action S B
  handle m f g s = let (r, s') = m s in handled r f g s'
