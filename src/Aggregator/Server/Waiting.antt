-- ===== src/Aggregator/Server/Waiting.antt =====
-- What an operator's call waits for, and what it leaves. The states of the aggregator at the rounds are
-- given as a sequence `woken`: what the other goroutines do in sleep `i` takes `woken i` to the next.
use native.Mathlib.Decide.{ℕ_discrete}
use beluuga.Prelude.{
  ℕ, zero, suc, ◌+◌, ◌≡◌, ◌≤◌, ◌<◌, Bool, true, false, if◌then◌else◌, none, some, arith,
}
use beluuga.Prelude.Keys.{bytes_eq}
use beluuga.Go.Map
use beluuga.Go.Outcome.{Outcome, returned}
use beluuga.Types.{Bytes32, SignedTaskResponse}
use beluuga.Aggregator.State.{BlsAggregationService, Aggregator, lock_free, unlock_held}
use beluuga.Aggregator.Server.{wait_for_task, process_operator_signed_task_response}

-- The mutex is free at every round and the other goroutines return from every sleep.
pub record Runs {S : Type 0} (others : ℕ → Aggregator S → Outcome (Aggregator S))
    (woken : ℕ → Aggregator S) : Type 0 where
  pub steps : (i : ℕ) → i < 50 → others i (woken i) ≡ returned (woken (suc i))
  pub free : (i : ℕ) → i ≤ 50 → (woken i).task_mutex ≡ false

-- The root has no index in the rounds before `t`.
abbrev pub AbsentBefore : {S : Type 0} → (ℕ → Aggregator S) → Bytes32 → ℕ → Type 0
AbsentBefore woken root t = (j : ℕ) → j < t → Map.get (woken j).batches_idx_by_root root ≡ none

module _ (bls : BlsAggregationService)
    (others : ℕ → Aggregator bls.Service → Outcome (Aggregator bls.Service))
    (woken : ℕ → Aggregator bls.Service) (root : Bytes32) where
  wait_round :
      (n i : ℕ)
      → i < 50
      → Runs others woken
      → Map.get (woken i).batches_idx_by_root root ≡ none
      → wait_for_task bls others (suc n) i root (woken i)
        ≡ wait_for_task bls others n (suc i) root (woken (suc i))
  unfolding wait_for_task
  wait_round n i lt runs absent =
      let free = runs.free i (omega arith) in
      ground (arith, lock_free (woken i) free, unlock_held (woken i) free, runs.steps i lt)

  wait_hit :
      (n t index : ℕ)
      → (woken t).task_mutex ≡ false
      → Map.get (woken t).batches_idx_by_root root ≡ some index
      → wait_for_task bls others (suc n) t root (woken t)
        ≡ returned (record (woken t) { task_mutex = true }, some index)
  unfolding wait_for_task
  wait_hit n t index free found = ground (arith, lock_free (woken t) free)

  wait_finds :
      (n i t index : ℕ)
      → i ≤ t
      → t < i + n
      → i + n ≤ 50
      → Runs others woken
      → AbsentBefore woken root t
      → Map.get (woken t).batches_idx_by_root root ≡ some index
      → wait_for_task bls others n i root (woken i)
        ≡ returned (record (woken t) { task_mutex = true }, some index)
  wait_finds zero i t index le lt room runs absent found = absurd (omega arith)
  wait_finds (suc n) i t index le lt room runs absent found = elim (ℕ_discrete i t) [
    | yes here ↦ rw here (wait_hit n t index (runs.free t (omega arith)) found)
    | no later ↦
        rw (wait_round n i (omega arith) runs (absent i (omega arith)))
          (wait_finds n (suc i) t index (omega arith) (omega arith) (omega arith) runs absent found)
  ]

  wait_never :
      (n i : ℕ)
      → i + n ≡ 50
      → Runs others woken
      → AbsentBefore woken root 50
      → wait_for_task bls others n i root (woken i) ≡ returned (woken 50, none)
  unfolding wait_for_task
  wait_never zero i e runs absent = let last : i ≡ 50 = omega arith in rw last
  wait_never (suc n) i e runs absent =
      rw (wait_round n i (omega arith) runs (absent i (omega arith)))
        (wait_never n (suc i) (omega arith) runs absent)

module _ (bls : BlsAggregationService)
    (others : ℕ → Aggregator bls.Service → Outcome (Aggregator bls.Service))
    (woken : ℕ → Aggregator bls.Service) (response : SignedTaskResponse bls.Signature) where
  open bls use {process_new_signature}

  -- Let the mutex be free at each round, and the other goroutines return from each sleep. If the root of
  -- the response has no index in the rounds before `t`, and an index in round `t`, below
  -- 50, the call hands the signature over at that index in that round's state. When the service is done
  -- in time the reply is 0, whatever its error; when it is not the reply is 1 and its call runs on. The
  -- mutex is free at the end in both cases.
  pub process_finds :
      (t index : ℕ) (in_time : Bool)
      → t < 50
      → Runs others woken
      → AbsentBefore woken response.batch_merkle_root t
      → Map.get (woken t).batches_idx_by_root response.batch_merkle_root ≡ some index
      → process_operator_signed_task_response bls others in_time response (woken 0)
        ≡ returned (
            if in_time
            then (
              record (woken t) {
                bls_aggregation_service =
                    (process_new_signature index response.batch_merkle_root response.bls_signature
                      response.operator_id
                      (woken t).bls_aggregation_service).0;
              },
              record { reply = 0; running = none },
            )
            else (
              woken t,
              record {
                reply = 1;
                running = some (record { task_index = index; response = response });
              },
            ))
  unfolding process_operator_signed_task_response
  process_finds t index true lt runs absent found = ground (
    arith,
    wait_finds bls others woken response.batch_merkle_root 50 0 t index (omega arith) lt
        (omega arith) runs absent found,
    runs.free t (omega arith),
  )
  process_finds t index false lt runs absent found = ground (
    arith,
    wait_finds bls others woken response.batch_merkle_root 50 0 t index (omega arith) lt
        (omega arith) runs absent found,
    unlock_held (woken t) (runs.free t (omega arith)),
  )

  -- Let the mutex be free at each round, and the other goroutines return from each sleep. If the root of
  -- the response has no index in any of the 50 rounds, the reply is 1, the service is not
  -- called and the state is the one that the other goroutines left.
  pub process_never :
      (in_time : Bool)
      → Runs others woken
      → AbsentBefore woken response.batch_merkle_root 50
      → process_operator_signed_task_response bls others in_time response (woken 0)
        ≡ returned (woken 50, record { reply = 1; running = none })
  unfolding process_operator_signed_task_response
  process_never in_time runs absent =
      ground (
        arith,
        wait_never bls others woken response.batch_merkle_root 50 0 (omega arith) runs absent,
      )
