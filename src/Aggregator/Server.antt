-- ===== src/Aggregator/Server.antt =====
-- aggregator/internal/pkg/server.go: the calls that operators make.
pub mod Waiting
use beluuga.Prelude.{ℕ, zero, suc, Bool, true, false, Option, none, some}
use beluuga.Prelude.Keys.{bytes_eq}
use beluuga.Go.Map
use beluuga.Go.Outcome.{Outcome, returned, ◌>>=◌}
use beluuga.Errors.{Error}
use beluuga.Types.{Bytes32, SignedTaskResponse}
use beluuga.Aggregator.State.{BlsAggregationService, Aggregator, lock, unlock}

abbrev pub wait_for_event_retries : ℕ
wait_for_event_retries = 50

-- A call of `ProcessNewSignature` that runs on after the handler has returned.
pub record SignatureCall (Signature : Type 0) : Type 0 where
  pub task_index : ℕ
  pub response : SignedTaskResponse Signature

-- What the handler leaves: `*reply`, and the call that it did not wait for.
pub record Reply (Signature : Type 0) : Type 0 where
  pub reply : ℕ
  pub running : Option (SignatureCall Signature)

-- `ServerRunning`
unfoldable pub server_running : ℕ
server_running = 1

module _ (bls : BlsAggregationService) where
  open bls use {Service, Signature, process_new_signature}

  -- The goroutine that hands the signature over, and the `select` on it: `in_time` tells whether it is
  -- done before the five seconds are over. Its error is only logged.
  unfoldable pub hand_over :
      Bool
      → SignedTaskResponse Signature
      → ℕ
      → Aggregator Service
      → Aggregator Service × Reply Signature
  hand_over true response index agg = (
    record agg {
      bls_aggregation_service =
          (process_new_signature index response.batch_merkle_root response.bls_signature
            response.operator_id agg.bls_aggregation_service).0;
    },
    record { reply = 0; running = none },
  )
  hand_over false response index agg = (
    agg,
    record { reply = 1; running = some (record { task_index = index; response = response }) },
  )

  unfoldable pub answer :
      Bool
      → SignedTaskResponse Signature
      → Aggregator Service × Option ℕ
      → Outcome (Aggregator Service × Reply Signature)
  unfolding hand_over unlock
  answer in_time response (agg, none) = returned (agg, record { reply = 1; running = none })
  answer in_time response (agg, some index) =
      let (agg', reply) = hand_over in_time response index agg in
      unlock agg' >>= λ free. returned (free, reply)

  -- `others i` is what the other goroutines do to the aggregator during sleep `i`.
  module _ (others : ℕ → Aggregator Service → Outcome (Aggregator Service)) where
    -- The loop from its counter `i` on, with `n` rounds left: the mutex stays held when it finds the task.
    unfoldable pub wait_for_task :
        ℕ → ℕ → Bytes32 → Aggregator Service → Outcome (Aggregator Service × Option ℕ)
    unfolding lock unlock
    wait_for_task zero i root agg = returned (agg, none)
    wait_for_task (suc n) i root agg = lock agg >>= λ held.
        elim (Map.get held.batches_idx_by_root root) [
          | some index ↦ returned (held, some index)
          | none ↦ unlock held >>= λ free. others i free >>= wait_for_task n (suc i) root
        ]

    unfoldable pub process_operator_signed_task_response :
        Bool
        → SignedTaskResponse Signature
        → Aggregator Service
        → Outcome (Aggregator Service × Reply Signature)
    unfolding wait_for_task answer
    process_operator_signed_task_response in_time response agg =
        wait_for_task wait_for_event_retries 0 response.batch_merkle_root agg
        >>= answer in_time response
