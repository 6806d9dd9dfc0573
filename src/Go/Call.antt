-- ===== src/Go/Call.antt =====
-- A Go call that acts on a world `W` and returns a value or an error. What it did to the world before
-- an error stays done.
use beluuga.Prelude.{◌≡◌, ◌⊎◌, inl, inr, arith}
use beluuga.Errors.{Error, Result, ok, err, Result-cases}

abbrev pub Call : Type 0 → Type 0 → Type 0
Call W A = W → W × Result A

module _ {W A B : Type 0} where
  abbrev continue : Result A → (A → Call W B) → Call W B
  continue (ok a) f w = f a w
  continue (err e) f w = (w, err e)

  infixl 5 ◌>>=◌ ◌>>◌
  abbrev pub ◌>>=◌ : Call W A → (A → Call W B) → Call W B
  ◌>>=◌ m f w = continue (m w).1 f (m w).0

  abbrev pub ◌>>◌ : Call W A → Call W B → Call W B
  m >> k = m >>= λ _. k

-- Inversion of a chain of two calls.
module _ {W A B : Type 0} (m : Call W A) (f : A → Call W B) {w w' : W} where
  pub >>=-eq-ok :
      {b : B}
      → (m >>= f) w ≡ (w', ok b)
      → (mid : W) × (a : A) × (m w ≡ (mid, ok a)) × (f a mid ≡ (w', ok b))
  >>=-eq-ok h = elim (Result-cases (m w).1) [
    | inl (a, e) ↦ ((m w).0, a, (λ i. ((m w).0, e i)), ground arith)
    | inr (e, bad) ↦ absurd (ground arith)
  ]

  pub >>=-eq-err :
      {e : Error}
      → (m >>= f) w ≡ (w', err e)
      → (m w ≡ (w', err e)) ⊎ ((mid : W) × (a : A) × (m w ≡ (mid, ok a)) × (f a mid ≡ (w', err e)))
  >>=-eq-err h = elim (Result-cases (m w).1) [
    | inl (a, e) ↦ inr ((m w).0, a, (λ i. ((m w).0, e i)), ground arith)
    | inr (e, bad) ↦ inl (ground arith)
  ]

abbrev pub pure : {W A : Type 0} → A → Call W A
pure a w = (w, ok a)

abbrev pub fail : {W A : Type 0} → Error → Call W A
fail e w = (w, err e)
