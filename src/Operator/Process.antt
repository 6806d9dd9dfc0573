-- ===== src/Operator/Process.antt =====
-- `ProcessNewBatchLog` of operator/pkg/operator.go: the proofs of a batch are verified by a goroutine
-- each, which send their answers on a channel; the first false answer that is received ends the wait.
pub mod Accept
use beluuga.Prelude.{ℕ, ◌+◌, Bool, true, false, Option, none, some, String, List, [], ◌∷◌, length}
use beluuga.Prelude.Int.{ℤ}
use beluuga.Errors.{Error, Result, ok, err, invalid_proof}
use beluuga.Types.{Bytes32}
use beluuga.Go.Outcome.{Outcome, returned, ◌>>=◌}
use beluuga.Operator.Data.{VerificationData}
use beluuga.Operator.Download.{Http, get_batch_from_s3}
use beluuga.Operator.Verify.{Verifiers, verify}

-- The fields of the event `NewBatch` that are read.
pub record NewBatchLog : Type 0 where
  pub batch_merkle_root : Bytes32
  pub batch_data_pointer : String

-- What the processing of batches changes: the world behind net/http, and the metric.
pub record OperatorState (W : Type 0) : Type 0 where
  pub world : W
  pub operator_task_responses : ℕ

-- The loop over the channel.
unfoldable pub receive : List Bool → Option Error
receive [] = none
receive (true ∷ rest) = receive rest
receive (false ∷ rest) = some invalid_proof

module _ (libs : Verifiers) where
  -- The answers of the goroutines, in the order of the batch. A panic in any of them ends the process,
  -- also when the loop over the channel has returned before; what the process may still do until then
  -- is left out.
  unfoldable pub verify_all : List VerificationData → Outcome (List Bool)
  verify_all [] = returned []
  verify_all (v ∷ vs) = do r ← verify libs v; rs ← verify_all vs; returned (r ∷ rs)

  module _ (http : Http) (max_batch_size : ℤ) (order : List Bool → List Bool) where
    verify_batch :
        List VerificationData
        → OperatorState http.World
        → Outcome (OperatorState http.World × Option Error)
    unfolding verify_all receive
    verify_batch batch s = do
      results ← verify_all batch
      returned (
        record s { operator_task_responses = s.operator_task_responses + length batch },
        receive (order results),
      )

    abbrev handle :
        OperatorState http.World × Result (List VerificationData)
        → Outcome (OperatorState http.World × Option Error)
    handle (s, ok batch) = verify_batch batch s
    handle (s, err e) = returned (s, some e)

    -- `order` is the order in which the answers of the goroutines come through the channel.
    unfoldable pub process_new_batch_log :
        NewBatchLog → OperatorState http.World → Outcome (OperatorState http.World × Option Error)
    unfolding verify_batch
    process_new_batch_log log s =
        let (w, r) = get_batch_from_s3 http max_batch_size log.batch_data_pointer s.world in
        handle (record s { world = w }, r)
