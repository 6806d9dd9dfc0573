-- ===== src/Aggregator/Threads/Calls.antt =====
-- An operator's call that no other goroutine disturbs, against the handler of Server.
use beluuga.Prelude.{
  ℕ, zero, suc, ◌≡◌, ap, refl, Bool, false, Option, none, some, inl, inr, arith, Option-cases,
}
use beluuga.Prelude.Keys.{bytes_eq}
use beluuga.Go.Map
use beluuga.Go.Outcome.{Outcome, returned, >>=-eq-returned, returned-injective}
use beluuga.Types.{SignedTaskResponse}
use beluuga.Chain.Client.{EthClient}
use beluuga.Aggregator.State.{BlsAggregationService, Aggregator, lock, unlock}
use beluuga.Aggregator.Server.{
  Reply, wait_for_event_retries, hand_over, answer, wait_for_task,
  process_operator_signed_task_response,
}
use beluuga.Aggregator.Server.Waiting.{Runs, process_finds, process_never}
use beluuga.Aggregator.Threads.{
  Thread, asking, handing, replied, Shared, give_up, look, find, miss, wake, hand, leave,
}
use beluuga.Aggregator.Threads.Progress.{Alone, stop, go, join}

module _ (bls : BlsAggregationService) (eth : EthClient) {F : Type 0} (big_int : F → ℕ) where
  open bls use {Service, Signature}
  open eth use {World, Receipt}

  -- The other goroutines do nothing.
  abbrev pub idle : ℕ → Aggregator Service → Outcome (Aggregator Service)
  idle i agg = returned agg

  module _ (in_time : Bool) (r : SignedTaskResponse Signature) where
    -- Where the wait ends.
    abbrev behind : Option ℕ → Thread Signature F Receipt
    behind none = asking 0 r
    behind (some index) = handing index r

    wait-Alone :
        (n i : ℕ) (m : Shared Service World) {agg' : Aggregator Service} {found : Option ℕ}
        → wait_for_task bls idle n i r.batch_merkle_root m.agg ≡ returned (agg', found)
        → (k : ℕ) × Alone bls eth big_int k m (asking n r) (record m { agg = agg' }) (behind found)
    unfolding wait_for_task
    wait-Alone zero i m h =
        let same = returned-injective h in rw (← ap (λ p. p.0) same, ← ap (λ p. p.1) same) (0, stop)
    wait-Alone (suc n) i m h =
        let (held, locked, rest) = >>=-eq-returned (lock m.agg) _ h in
        elim (Option-cases (Map.get held.batches_idx_by_root r.batch_merkle_root)) [
          | inr (index, present) ↦
              let same = returned-injective (rw present at rest) in
              rw (← ap (λ p. p.0) same, ← ap (λ p. p.1) same)
                (2, go (look locked) (go (find present) stop))
          | inl absent ↦
              let (free, unlocked, later) = >>=-eq-returned (unlock held) _ (rw absent at rest) in
              let (k, run) = wait-Alone n (suc i) (record m { agg = free }) later in
              (suc (suc (suc k)), go (look locked) (go (miss absent unlocked) (go wake run)))
        ]

    answer-Alone :
        (m : Shared Service World) (found : Option ℕ) {agg' : Aggregator Service}
        {reply : Reply Signature}
        → answer bls in_time r (m.agg, found) ≡ returned (agg', reply)
        → (k : ℕ) × Alone bls eth big_int k m
            (behind found)
            (record m { agg = agg' })
            (replied reply)
    unfolding answer
    answer-Alone m none h =
        let same = returned-injective h in
        rw (← ap (λ p. p.0) same, ← ap (λ p. p.1) same) (1, go give_up stop)
    answer-Alone m (some index) h =
        let (free, unlocked, last) =
          >>=-eq-returned (unlock (hand_over bls in_time r index m.agg).0) _ h in
        let same = returned-injective last in
        rw (← ap (λ p. p.0) same, ← ap (λ p. p.1) same)
          (2, go (hand in_time) (go (leave unlocked) stop))

  idle-Runs : (agg : Aggregator Service) → agg.task_mutex ≡ false → Runs idle (λ _. agg)
  idle-Runs agg free = record { steps = λ i lt. refl; free = λ i le. free }

  process_returns :
      (agg : Aggregator Service) (r : SignedTaskResponse Signature) (in_time : Bool)
      → agg.task_mutex ≡ false
      → (agg' : Aggregator Service) × (reply : Reply Signature)
        × (process_operator_signed_task_response bls idle in_time r agg ≡ returned (agg', reply))
  process_returns agg r in_time free =
      let runs = idle-Runs agg free in
      elim (Option-cases (Map.get agg.batches_idx_by_root r.batch_merkle_root)) [
        | inl absent ↦ (_, _, process_never bls idle (λ _. agg) r in_time runs (λ j lt. absent))
        | inr (index, present) ↦ (
          _,
          _,
          process_finds bls idle (λ _. agg) r 0 index in_time (omega arith) runs
              (λ j lt. absurd (omega arith)) present,
        )
      ]

  -- From a state with a free task mutex, while the other goroutines do nothing: the handler of an
  -- operator's call returns, and the goroutine that runs the call, undisturbed, ends with the same reply
  -- and leaves the aggregator in the same state.
  pub process-Alone :
      (m : Shared Service World) (r : SignedTaskResponse Signature) (in_time : Bool)
      → m.agg.task_mutex ≡ false
      → (agg' : Aggregator Service) × (reply : Reply Signature)
        × (process_operator_signed_task_response bls idle in_time r m.agg ≡ returned (agg', reply))
        × (k : ℕ) × Alone bls eth big_int k m
            (asking wait_for_event_retries r)
            (record m { agg = agg' })
            (replied reply)
  unfolding process_operator_signed_task_response
  process-Alone m r in_time free =
      let (agg', reply, h) = process_returns m.agg r in_time free in
      let (p, waited, answered) =
        >>=-eq-returned (wait_for_task bls idle wait_for_event_retries 0 r.batch_merkle_root m.agg)
          (answer bls in_time r) h in
      let (k, first) = wait-Alone in_time r wait_for_event_retries 0 m waited in
      let (l, rest) = answer-Alone in_time r (record m { agg = p.0 }) p.1 answered in
      let (n, all) = join bls eth big_int first rest in (agg', reply, h, n, all)
