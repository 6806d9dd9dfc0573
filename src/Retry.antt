-- ===== src/Retry.antt =====
-- The loop that several components write out:
-- `for i := 0; i < n; i++ { v, err := attempt(); if err == nil { return v }; pause(err) }`.
-- The attempts and the pauses act on what lies outside the program, a world `W`.
use beluuga.Prelude.{ℕ, zero, suc, ◌<◌, ◌≡◌, refl, Option, none, some, arith}
use beluuga.Errors.{Error, Result, ok, err}

module _ {W A : Type 0} (attempt : W → W × Result A) (pause : Error → W → W) where
  -- The last world, and the value of the first attempt that succeeded.
  unfoldable pub retry : ℕ → W → W × Option A
  retry zero w = (w, none)
  retry (suc n) w = elim (attempt w).1 [
    | ok a ↦ ((attempt w).0, some a)
    | err e ↦ retry n (pause e (attempt w).0)
  ]

  pub retry-zero : (w : W) → retry zero w ≡ (w, none)
  unfolding retry
  retry-zero w = refl

  pub retry_ok :
      (n : ℕ) (w : W) {a : A} → (attempt w).1 ≡ ok a → retry (suc n) w ≡ ((attempt w).0, some a)
  unfolding retry
  retry_ok n w h = ground arith

  pub retry_err :
      (n : ℕ) (w : W) {e : Error}
      → (attempt w).1 ≡ err e
      → retry (suc n) w ≡ retry n (pause e (attempt w).0)
  unfolding retry
  retry_err n w h = ground arith

  -- The world behind one round.
  unfoldable pub next : W → W
  next w = elim (attempt w).1 [ ok a ↦ (attempt w).0 | err e ↦ pause e (attempt w).0 ]

  -- The world after `k` rounds that did not succeed.
  unfoldable pub world_after : ℕ → W → W
  world_after zero w = w
  world_after (suc k) w = world_after k (next w)

  -- The attempts of the first `k` rounds all fail.
  abbrev pub FailsFor : ℕ → W → Type 0
  FailsFor k w = (j : ℕ) → j < k → (e : Error) × ((attempt (world_after j w)).1 ≡ err e)

  FailsFor-later : (k : ℕ) (w : W) → FailsFor (suc k) w → FailsFor k (next w)
  unfolding world_after
  FailsFor-later k w h = λ j lt. h (suc j) (omega arith)

  -- If round `k` is the first to succeed, the loop stops there with its value.
  pub retry_succeeds :
      (n k : ℕ) (w : W) (a : A)
      → k < n
      → FailsFor k w
      → (attempt (world_after k w)).1 ≡ ok a
      → retry n w ≡ ((attempt (world_after k w)).0, some a)
  unfolding retry world_after next
  retry_succeeds zero k w a lt f s = elim lt [ ]
  retry_succeeds (suc n) zero w a lt f s = ground arith
  retry_succeeds (suc n) (suc k) w a lt f s =
      let (e, first) = f zero (omega arith) in
      ground (arith, first, retry_succeeds n k (next w) a (omega arith) (FailsFor-later k w f) s)

  -- If every round fails, the loop has made all of them.
  pub retry_gives_up : (n : ℕ) (w : W) → FailsFor n w → retry n w ≡ (world_after n w, none)
  unfolding retry world_after next
  retry_gives_up zero w f = refl
  retry_gives_up (suc n) w f =
      let (e, first) = f zero (omega arith) in
      ground (arith, first, retry_gives_up n (next w) (FailsFor-later n w f))
