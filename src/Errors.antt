-- ===== src/Errors.antt =====
-- Go's `error` values: one constructor for each error that the program makes, `shutdown` for the
-- sentinel `rpc.ErrShutdown` that the program tests for, and `library` for any other error that a
-- call of a library hands back, with its text.
use beluuga.Prelude.{ℕ, String, ◌≡◌, refl, ◌⊎◌, inl, inr}

pub data Error : Type 0 where
  unknown_proving_system : String → Error
  unknown_proving_system_id : ℕ → Error
  invalid_proving_system_id : ℕ → Error
  unsupported_proving_system : String → Error
  receipt_not_found : Error
  head_status : ℕ → Error
  proof_too_large : Error
  invalid_proof : Error
  subscribe_failed : Error
  rpc_client_failed : Error
  interval_not_positive : Error
  missing_aws_variables : Error
  prometheus_failed : Error → Error
  shutdown : Error
  library : String → Error

-- The pair `(value, error)` of a call whose value is not looked at when the error is set.
pub data Result {ℓ} (A : Type ℓ) : Type ℓ where
  ok : A → Result A
  err : Error → Result A

infixl 5 ◌>>=◌ ◌>>◌
abbrev pub ◌>>=◌ {ℓ κ} : {A : Type ℓ} {B : Type κ} → Result A → (A → Result B) → Result B
ok a >>= f = f a
err e >>= f = err e

abbrev pub ◌>>◌ {ℓ κ} : {A : Type ℓ} {B : Type κ} → Result A → Result B → Result B
m >> k = m >>= λ _. k

-- A split on a computed result that keeps the equation.
pub Result-cases {ℓ} :
    {A : Type ℓ} (r : Result A) → ((a : A) × (r ≡ ok a)) ⊎ ((e : Error) × (r ≡ err e))
Result-cases (ok a) = inl (a, refl)
Result-cases (err e) = inr (e, refl)

pub ok-injective {ℓ} : {A : Type ℓ} {a b : A} → ok a ≡ ok b → a ≡ b
ok-injective h = cc
