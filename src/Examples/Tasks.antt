-- ===== src/Examples/Tasks.antt =====
-- An aggregator over a BLS service that counts its tasks, and over one that knows them and refuses an
-- index that it has a task for.
use beluuga.Prelude.{
  ℕ, zero, suc, ◌+◌, ◌≡◌, ◌==◌, ◌||◌, if◌then◌else◌, Bool, List, false, none, some, [], ◌∷◌, refl,
  arith,
}
use beluuga.Prelude.Keys.{nat_eq, bytes_eq}
use beluuga.Errors.{subscribe_failed, shutdown}
use beluuga.Types.{Bytes32}
use beluuga.Go.Map
use beluuga.Go.Outcome.{returned}
use beluuga.Aggregator.State.{BlsAggregationService, Aggregator, new_aggregator, add_new_task}
use beluuga.Aggregator.Registry.{index_of, enroll, Represents}
use beluuga.Aggregator.AddTask.Returns.{TaskLaws, NoTasks}
use beluuga.Aggregator.AddTask.{Represents-new_aggregator, add_new_task-fresh, add_new_task-enroll}
use beluuga.Aggregator.Subscribe.{Session, subscribe_to_new_tasks}
use beluuga.Aggregator.Subscribe.History.{enroll_batches, delivered_by, subscribe_returns}

abbrev pub counting : BlsAggregationService
counting = record {
  Service = ℕ;
  Signature = ℕ;
  initialize_new_task = λ index block quorums thresholds seconds s. (suc s, none);
  process_new_signature = λ index root signature id s. (s + 10, none);
}

unfoldable pub mem : ℕ → List ℕ → Bool
mem n [] = false
mem n (x ∷ xs) = x == n || mem n xs

abbrev pub strict : BlsAggregationService
strict = record {
  Service = List ℕ;
  Signature = ℕ;
  initialize_new_task = λ index block quorums thresholds seconds s.
      if mem index s then (s, some shutdown) else (index ∷ s, none);
  process_new_signature = λ index root signature id s. (s, none);
}

pub strict-TaskLaws : TaskLaws strict
unfolding mem
strict-TaskLaws = record {
  has_task = λ s index. mem index s;
  accepts = λ index block quorums thresholds seconds s new. ground arith;
  opens = λ index block quorums thresholds seconds other s ne without. ground arith;
  signs = λ index root signature id other s without. without;
}

pub strict-NoTasks : NoTasks strict-TaskLaws []
unfolding mem strict-TaskLaws
strict-NoTasks i = refl

abbrev root : Bytes32
root = 8 ∷ []

abbrev pub one_root : Aggregator ℕ
one_root = record {
  batches_root_by_idx = Map.put Map.make 0 root;
  batches_idx_by_root = Map.put Map.make root 0;
  next_batch_index = 1;
  task_mutex = false;
  bls_aggregation_service = 1;
}

add_new_task-fresh_example : add_new_task counting root 50 (new_aggregator 0) ≡ returned one_root
unfolding new_aggregator index_of
add_new_task-fresh_example =
    add_new_task-fresh counting root 50 (Represents-new_aggregator 0) refl refl (omega arith)

add_new_task-enroll_example : Represents one_root (root ∷ []) × (false ≡ false)
unfolding new_aggregator enroll index_of
add_new_task-enroll_example =
    add_new_task-enroll counting root 50 (Represents-new_aggregator 0) refl
      (add_new_task-fresh counting root 50 (Represents-new_aggregator 0) refl refl (omega arith))

-- The first subscription cannot be made, and the others deliver the same batch again and again.
abbrev sessions : ℕ → Session
sessions zero = record { creation_error = some shutdown; arrivals = [] }
sessions (suc i) = record {
  creation_error = none;
  arrivals = record { batch_merkle_root = root; task_created_block = 50 } ∷ [];
}

subscribe_returns_example :
    (agg' : Aggregator (List ℕ)) × (subscribe_to_new_tasks strict sessions (new_aggregator [])
      ≡ returned (agg', subscribe_failed))
    × Represents agg' (enroll_batches (delivered_by 100 0 sessions) [])
subscribe_returns_example = subscribe_returns strict strict-TaskLaws [] sessions strict-NoTasks
