-- ===== src/Go/Script.antt =====
-- Calls on a world that may end the process, as the programs make them at startup.
use beluuga.Prelude.{◌≡◌, refl, ap}
use beluuga.Errors.{Result, ok, err, ok-injective}
use beluuga.Go.Outcome.{Outcome, returned, panicked, exited, blocked, returned-injective}

-- A call that ends the process, or gives the world and a value or an error.
abbrev pub Script : Type 0 → Type 0 → Type 0
Script W A = W → Outcome (W × Result A)

module _ {W A B : Type 0} where
  abbrev pub continue : Outcome (W × Result A) → (A → Script W B) → Outcome (W × Result B)
  continue (returned (w, ok a)) f = f a w
  continue (returned (w, err e)) f = returned (w, err e)
  continue panicked f = panicked
  continue exited f = exited
  continue blocked f = blocked

  infixl 5 ◌>>=◌ ◌>>◌
  abbrev pub ◌>>=◌ : Script W A → (A → Script W B) → Script W B
  ◌>>=◌ m f w = continue (m w) f

  abbrev pub ◌>>◌ : Script W A → Script W B → Script W B
  m >> k = m >>= λ _. k

abbrev pub give : {W A : Type 0} → Result A → Script W A
give r w = returned (w, r)

-- A call that does not end the process.
abbrev pub call : {W A : Type 0} → (W → W × Result A) → Script W A
call f w = returned (f w)

-- What is computed without the world, and may end the process.
abbrev pub load : {W A : Type 0} → Outcome A → Script W A
load (returned a) w = returned (w, ok a)
load panicked w = panicked
load exited w = exited
load blocked w = blocked

-- `log.Fatalf` on an error of the call.
abbrev exit_on_error : {W A : Type 0} → Outcome (W × Result A) → Outcome (W × Result A)
exit_on_error (returned (w, ok a)) = returned (w, ok a)
exit_on_error (returned (w, err e)) = exited
exit_on_error panicked = panicked
exit_on_error exited = exited
exit_on_error blocked = blocked

abbrev pub fatal_on_error : {W A : Type 0} → Script W A → Script W A
fatal_on_error m w = exit_on_error (m w)

-- `panic` on an error of the call.
abbrev panic_at : {W A : Type 0} → Outcome (W × Result A) → Outcome (W × Result A)
panic_at (returned (w, ok a)) = returned (w, ok a)
panic_at (returned (w, err e)) = panicked
panic_at panicked = panicked
panic_at exited = exited
panic_at blocked = blocked

abbrev pub panic_on_error : {W A : Type 0} → Script W A → Script W A
panic_on_error m w = panic_at (m w)

module _ {W A : Type 0} where
  panic_at-ok :
      (o : Outcome (W × Result A)) {w' : W} {a : A}
      → panic_at o ≡ returned (w', ok a)
      → o ≡ returned (w', ok a)
  panic_at-ok (returned (w, ok a)) h = h
  panic_at-ok (returned (w, err e)) h = absurd cc
  panic_at-ok panicked h = absurd cc
  panic_at-ok exited h = absurd cc
  panic_at-ok blocked h = absurd cc

  exit_on_error-ok :
      (o : Outcome (W × Result A)) {w' : W} {a : A}
      → exit_on_error o ≡ returned (w', ok a)
      → o ≡ returned (w', ok a)
  exit_on_error-ok (returned (w, ok a)) h = h
  exit_on_error-ok (returned (w, err e)) h = absurd (cc)
  exit_on_error-ok panicked h = absurd (cc)
  exit_on_error-ok exited h = absurd (cc)
  exit_on_error-ok blocked h = absurd (cc)

  -- A value behind `fatal_on_error` is the call's.
  pub fatal_on_error-ok :
      (m : Script W A) (w : W) {w' : W} {a : A}
      → fatal_on_error m w ≡ returned (w', ok a)
      → m w ≡ returned (w', ok a)
  fatal_on_error-ok m w h = exit_on_error-ok (m w) h

module _ {W A B : Type 0} where
  pub continue-went :
      (o : Outcome (W × Result A)) (f : A → Script W B) {w' : W} {b : B}
      → continue o f ≡ returned (w', ok b)
      → (u : W) × (a : A) × (o ≡ returned (u, ok a)) × (f a u ≡ returned (w', ok b))
  continue-went (returned (u, ok a)) f h = (u, a, refl, h)
  continue-went (returned (u, err x)) f h = absurd (cc)
  continue-went panicked f h = absurd (cc)
  continue-went exited f h = absurd (cc)
  continue-went blocked f h = absurd (cc)

  -- A script that went through to a value.
  pub went {κ} :
      {P : Type κ} (m : Script W A) (f : A → Script W B) (w : W) {w' : W} {b : B}
      → (m >>= f) w ≡ returned (w', ok b)
      → ((u : W) (a : A) → m w ≡ returned (u, ok a) → f a u ≡ returned (w', ok b) → P)
      → P
  went m f w h k = let (u, a, e, h') = continue-went (m w) f h in k u a e h'

  -- The same of a script whose error ends the process.
  pub went_past_fatal {κ} :
      {P : Type κ} (m : Script W A) (f : A → Script W B) (w : W) {w' : W} {b : B}
      → (fatal_on_error m >>= f) w ≡ returned (w', ok b)
      → ((u : W) (a : A) → m w ≡ returned (u, ok a) → f a u ≡ returned (w', ok b) → P)
      → P
  went_past_fatal m f w h k =
      went (fatal_on_error m) f w h (λ u a e h'. k u a (fatal_on_error-ok m w e) h')

-- The same of a script whose error is a panic.
pub went_past_panic {κ} :
    {W A B : Type 0} {P : Type κ} (m : Script W A) (f : A → Script W B) (w : W) {w' : W} {b : B}
    → (panic_on_error m >>= f) w ≡ returned (w', ok b)
    → ((u : W) (a : A) → m w ≡ returned (u, ok a) → f a u ≡ returned (w', ok b) → P)
    → P
went_past_panic m f w h k =
    went (panic_on_error m) f w h (λ u a e h'. k u a (panic_at-ok (m w) e) h')

-- What was loaded, and what was given.
pub loaded :
    {W A : Type 0} (o : Outcome A) {w w' : W} {a : A}
    → load o w ≡ returned (w', ok a)
    → (o ≡ returned a) × (w ≡ w')
loaded (returned a) h = (
  ap returned (ok-injective (ap (λ r. r.1) (returned-injective h))),
  ap (λ r. r.0) (returned-injective h),
)
loaded panicked h = absurd cc
loaded exited h = absurd cc
loaded blocked h = absurd cc

pub given :
    {W A : Type 0} {r : Result A} {w w' : W} {a : A}
    → give r w ≡ returned (w', ok a)
    → (r ≡ ok a) × (w ≡ w')
given h = (ap (λ p. p.1) (returned-injective h), ap (λ p. p.0) (returned-injective h))
