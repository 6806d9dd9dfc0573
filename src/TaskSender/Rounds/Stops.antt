-- ===== src/TaskSender/Rounds/Stops.antt =====
-- How the loops of the task sender end.
use beluuga.Prelude.{
  ℕ, zero, suc, ◌+◌, ◌<◌, ◌≡◌, ◌⊎◌, false, String, refl, inl, inr, ap, ◌∙◌, arith,
}
use beluuga.Prelude.Int.{ℤ, pos, ltb_ℤ}
use beluuga.Errors.{Error, Result, ok, err}
use beluuga.Go.Outcome.{Outcome, returned, panicked, exited, blocked}
use beluuga.Config.Programs.{Sources}
use beluuga.Chain.Client.{EthClient}
use beluuga.Chain.Connect.{Sdk}
use beluuga.Go.Script.{Script, continue}
use beluuga.TaskSender.Upload.{Flags, Cloud}
use beluuga.TaskSender.Rounds.{
  rounds, loop_round, infinite_round, task_sender_loop_main, task_sender_infinite_main,
}

module _ {W : Type 0} (round : ℕ → Script W (Unit {0})) where
  -- The first rounds pass, and the next one, `x + k`, fails with the error, which is the loop's.
  abbrev pub FailsAt : ℕ → W → W → Error → ℕ → Type 0
  FailsAt x w w' e k =
      (u : W) × (rounds round k x w ≡ returned (u, ok tt))
      × (round (x + k) u ≡ returned (w', err e))

  round_cases :
      (o : Outcome (W × Result (Unit {0}))) (rest : Script W (Unit {0})) {w' : W} {e : Error}
      → continue o (λ t. rest) ≡ returned (w', err e)
      → ((u : W) × (o ≡ returned (u, ok tt)) × (rest u ≡ returned (w', err e)))
        ⊎ (o ≡ returned (w', err e))
  round_cases (returned (u, ok a)) rest h = inl (u, refl, h)
  round_cases (returned (u, err x)) rest h = inr h
  round_cases panicked rest h = absurd (cc)
  round_cases exited rest h = absurd (cc)
  round_cases blocked rest h = absurd (cc)

  moved :
      (i j : ℕ) (u : W) {r : Outcome (W × Result (Unit {0}))}
      → j ≡ i
      → round i u ≡ r
      → round j u ≡ r
  moved i j u same h = ap (λ m. round m u) same ∙ h

  rounds_fail :
      (n x : ℕ) (w : W) {w' : W} {e : Error}
      → rounds round n x w ≡ returned (w', err e)
      → (k : ℕ) × (k < n) × FailsAt x w w' e k
  unfolding rounds
  rounds_fail zero x w h = absurd (cc)
  rounds_fail (suc n) x w h = elim (round_cases (round x w) (rounds round n (suc x)) h) [
    | inr bad ↦ (0, omega arith, (w, refl, moved x (x + 0) w (omega arith) bad))
    | inl (u, good, h') ↦
        let (k, lt, (u', before, fails)) = rounds_fail n (suc x) u h' in
        (
          suc k,
          omega arith,
          (u', rw good before, moved (suc x + k) (x + suc k) u' (omega arith) fails),
        )
  ]

module _ (from : Sources) (sdk : Sdk from.services from.keys) (eth : EthClient)
    (cloud : Cloud eth.World) (sleep : ℤ → eth.World → eth.World)
    (generate_ineq_proof : ℕ → eth.World → Outcome eth.World) (config_path : String)
    (flags : Flags) where
  -- If `n` rounds of `taskSenderLoopMain` end with an error, at an interval of a second or more, then it
  -- is the error of one of these rounds, and every round before it has passed.
  pub loop_stops_at_error :
      (interval : ℤ) (n : ℕ) (w : eth.World) {w' : eth.World} {e : Error}
      → ltb_ℤ interval (pos 1) ≡ false
      → task_sender_loop_main from sdk eth cloud sleep generate_ineq_proof config_path flags
          interval n w
        ≡ returned (w', err e)
      → (k : ℕ) × (k < n)
        × FailsAt
            (loop_round from sdk eth cloud sleep generate_ineq_proof config_path flags interval)
            1
            w
            w'
            e
            k
  unfolding task_sender_loop_main
  loop_stops_at_error interval n w above h =
      rounds_fail
        (loop_round from sdk eth cloud sleep generate_ineq_proof config_path flags interval) n 1 w
        (rw above at h)

  -- If `n` rounds of `taskSenderInfiniteMain` end with an error, at an interval of a second or more, then
  -- it is the error of round `1 + k` for some `k` below `n`, which generates and sends proof `1 + k`, and
  -- every round before it has passed.
  pub infinite_stops_at_error :
      (interval : ℤ) (n : ℕ) (w : eth.World) {w' : eth.World} {e : Error}
      → ltb_ℤ interval (pos 1) ≡ false
      → task_sender_infinite_main from sdk eth cloud sleep generate_ineq_proof config_path flags
          interval n w
        ≡ returned (w', err e)
      → (k : ℕ) × (k < n)
        × FailsAt
            (infinite_round from sdk eth cloud sleep generate_ineq_proof config_path flags interval)
            1
            w
            w'
            e
            k
  unfolding task_sender_infinite_main
  infinite_stops_at_error interval n w above h =
      rounds_fail
        (infinite_round from sdk eth cloud sleep generate_ineq_proof config_path flags interval) n 1
        w (rw above at h)
