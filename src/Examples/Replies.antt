-- ===== src/Examples/Replies.antt =====
-- An operator's call of the aggregator, seen from both sides.
use beluuga.Prelude.{ℕ, zero, suc, ◌≡◌, true, false, none, some, [], ◌∷◌, refl, arith}
use beluuga.Prelude.Keys.{nat_eq, bytes_eq}
use beluuga.Types.{SignedTaskResponse}
use beluuga.Go.Map
use beluuga.Go.Outcome.{Outcome, returned}
use beluuga.Aggregator.State.{Aggregator}
use beluuga.Aggregator.Server.{process_operator_signed_task_response}
use beluuga.Aggregator.Server.Waiting.{Runs, AbsentBefore, process_finds}
use beluuga.Operator.Rpc.{send_signed_task_response_to_aggregator}
use beluuga.Operator.Rpc.Handled.{served_by, connected, client_delivers, client_loses}
use beluuga.Examples.Tasks.{counting}

abbrev response : SignedTaskResponse ℕ
response = record { batch_merkle_root = 8 ∷ []; bls_signature = 5; operator_id = 6 ∷ [] }

abbrev no_task : Aggregator ℕ
no_task = record {
  batches_root_by_idx = Map.make;
  batches_idx_by_root = Map.make;
  next_batch_index = 0;
  task_mutex = false;
  bls_aggregation_service = 0;
}

-- The root comes in the second sleep.
abbrev woken : ℕ → Aggregator ℕ
woken zero = no_task
woken (suc zero) = no_task
woken (suc (suc i)) = record {
  batches_root_by_idx = Map.put Map.make 0 (8 ∷ []);
  batches_idx_by_root = Map.put Map.make (8 ∷ []) 0;
  next_batch_index = 1;
  task_mutex = false;
  bls_aggregation_service = 1;
}

abbrev others : ℕ → Aggregator ℕ → Outcome (Aggregator ℕ)
others i agg = returned (woken (suc i))

woken_free : (i : ℕ) → (woken i).task_mutex ≡ false
woken_free zero = refl
woken_free (suc zero) = refl
woken_free (suc (suc i)) = refl

others_run : Runs others woken
others_run = record { steps = λ i lt. refl; free = λ i le. woken_free i }

absent_first : AbsentBefore woken (8 ∷ []) 2
absent_first zero lt = Map.get-make (8 ∷ [])
absent_first (suc zero) lt = Map.get-make (8 ∷ [])
absent_first (suc (suc j)) lt = absurd (omega arith)

process_finds_example :
    process_operator_signed_task_response counting others true response (woken 0)
    ≡ returned
        (record (woken 2) { bls_aggregation_service = 11 }, record { reply = 0; running = none })
process_finds_example =
    process_finds counting others woken response 2 0 true (omega arith) others_run absent_first
      (Map.get-put_self Map.make (8 ∷ []) 0)

-- Nothing happens in any sleep.
abbrev asleep : ℕ → Aggregator ℕ
asleep i = no_task

abbrev idle : ℕ → Aggregator ℕ → Outcome (Aggregator ℕ)
idle i agg = returned agg

idle_run : Runs idle asleep
idle_run = record { steps = λ i lt. refl; free = λ i le. refl }

client_delivers_example :
    send_signed_task_response_to_aggregator
      (served_by counting others true)
      response
      (connected counting others true "localhost:8090" (woken 0))
    ≡ (
      connected counting others true "localhost:8090"
          (record (woken 2) { bls_aggregation_service = 11 }),
      some 0,
    )
client_delivers_example =
    client_delivers counting others true woken response "localhost:8090" others_run 2 0
      (omega arith) absent_first (Map.get-put_self Map.make (8 ∷ []) 0)

client_loses_example :
    send_signed_task_response_to_aggregator
      (served_by counting idle true)
      response
      (connected counting idle true "localhost:8090" no_task)
    ≡ (connected counting idle true "localhost:8090" no_task, some 1)
client_loses_example =
    client_loses counting idle true asleep response "localhost:8090" idle_run
      (λ j lt. Map.get-make (8 ∷ []))
