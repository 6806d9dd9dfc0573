-- ===== src/Aggregator/State.antt =====
-- aggregator/internal/pkg/aggregator.go: the struct `Aggregator` and `AddNewTask`.
use beluuga.Prelude.{
  ℕ, ◌+◌, arith, Bool, true, false, Option, none, some, List, [], ◌∷◌, if◌then◌else◌, ◌≡◌, sym,
}
use beluuga.Prelude.Keys.{nat_eq, bytes_eq}
use beluuga.Go.Word.{u32}
use beluuga.Go.Map
use beluuga.Go.Map.{Map}
use beluuga.Go.Outcome.{Outcome, returned, panicked, exited, blocked, ◌>>=◌}
use beluuga.Errors.{Error}
use beluuga.Types.{Bytes32}

abbrev pub quorum_number : ℕ
quorum_number = 0

abbrev pub quorum_threshold : ℕ
quorum_threshold = 67

-- The BLS aggregation service of eigensdk: its own state, and the two calls that the program makes.
pub record BlsAggregationService : Type 1 where
  pub Service : Type 0
  pub Signature : Type 0
  -- `InitializeNewTask(index, block, quorumNums, thresholds, seconds)`
  pub initialize_new_task : ℕ → ℕ → List ℕ → List ℕ → ℕ → Service → Service × Option Error
  -- `ProcessNewSignature(index, root, signature, operatorId)`
  pub process_new_signature : ℕ → Bytes32 → Signature → Bytes32 → Service → Service × Option Error

-- The fields that the operations change. `task_mutex` tells whether the mutex is held.
pub record Aggregator (S : Type 0) : Type 0 where
  pub batches_root_by_idx : Map ℕ Bytes32
  pub batches_idx_by_root : Map Bytes32 ℕ
  pub next_batch_index : ℕ
  pub task_mutex : Bool
  pub bls_aggregation_service : S

-- The part of `NewAggregator` that sets the state up, over a service that is just built.
unfoldable pub new_aggregator : {S : Type 0} → S → Aggregator S
new_aggregator service = record {
  batches_root_by_idx = Map.make;
  batches_idx_by_root = Map.make;
  next_batch_index = 0;
  task_mutex = false;
  bls_aggregation_service = service;
}

-- `taskMutex.Lock()` and `taskMutex.Unlock()`: a second `Lock` waits, a second `Unlock` is fatal.
unfoldable pub lock : {S : Type 0} → Aggregator S → Outcome (Aggregator S)
lock agg = if agg.task_mutex then blocked else returned (record agg { task_mutex = true })

unfoldable pub unlock : {S : Type 0} → Aggregator S → Outcome (Aggregator S)
unlock agg = if agg.task_mutex then returned (record agg { task_mutex = false }) else panicked

-- A free mutex is taken at once.
pub lock_free :
    {S : Type 0} (agg : Aggregator S)
    → agg.task_mutex ≡ false
    → lock agg ≡ returned (record agg { task_mutex = true })
unfolding lock
lock_free agg h = rw h

-- Giving the mutex back restores the state in which it was taken.
pub unlock_held :
    {S : Type 0} (agg : Aggregator S)
    → agg.task_mutex ≡ false
    → unlock (record agg { task_mutex = true }) ≡ returned agg
unfolding unlock
unlock_held agg h = λ i. returned (record agg { task_mutex = sym h i })

-- What a `Lock` or an `Unlock` that returns did.
pub lock_returned :
    {S : Type 0} (agg : Aggregator S) {agg' : Aggregator S}
    → lock agg ≡ returned agg'
    → (agg.task_mutex ≡ false) × (record agg { task_mutex = true } ≡ agg')
unfolding lock
lock_returned agg h = ground arith

pub unlock_returned :
    {S : Type 0} (agg : Aggregator S) {agg' : Aggregator S}
    → unlock agg ≡ returned agg'
    → (agg.task_mutex ≡ true) × (record agg { task_mutex = false } ≡ agg')
unfolding unlock
unlock_returned agg h = ground arith

module _ (bls : BlsAggregationService) where
  open bls use {Service, initialize_new_task}

  -- The call of the service, its `Fatalf` on an error, and the unlock behind it.
  unfoldable pub initialized :
      Aggregator Service → Service × Option Error → Outcome (Aggregator Service)
  unfolding unlock
  initialized agg (service, none) = unlock (record agg { bls_aggregation_service = service })
  initialized agg (service, some e) = exited

  -- The two map writes, the index after them, and the call of the service.
  unfoldable pub register : Bytes32 → ℕ → Aggregator Service → Outcome (Aggregator Service)
  unfolding initialized
  register root block agg =
      let index = agg.next_batch_index in
      initialized
        (record agg {
          batches_idx_by_root = Map.put agg.batches_idx_by_root root index;
          batches_root_by_idx = Map.put agg.batches_root_by_idx index root;
          next_batch_index = u32 (index + 1);
        })
        (initialize_new_task index block (quorum_number ∷ []) (quorum_threshold ∷ []) 100
          agg.bls_aggregation_service)

  abbrev unless_known :
      {V : Type 0}
      → Option V
      → Aggregator Service
      → Outcome (Aggregator Service)
      → Outcome (Aggregator Service)
  unless_known none agg rest = rest
  unless_known (some _) agg rest = unlock agg

  -- `AddNewTask` from behind its `Lock()` on.
  unfoldable pub add_locked : Bytes32 → ℕ → Aggregator Service → Outcome (Aggregator Service)
  unfolding unlock register
  add_locked root block held = unless_known (Map.get held.batches_idx_by_root root) held (
      unless_known (Map.get held.batches_root_by_idx held.next_batch_index) held
        (register root block held))

  unfoldable pub add_new_task : Bytes32 → ℕ → Aggregator Service → Outcome (Aggregator Service)
  unfolding lock add_locked
  add_new_task root block agg = do held ← lock agg; add_locked root block held

  -- From a free mutex on, `AddNewTask` does what its body does from a held one.
  pub add_new_task-add_locked :
      (root : Bytes32) (block : ℕ) (agg : Aggregator Service)
      → agg.task_mutex ≡ true
      → add_new_task root block (record agg { task_mutex = false }) ≡ add_locked root block agg
  unfolding lock add_new_task
  add_new_task-add_locked root block agg held i =
      add_locked root block (record agg { task_mutex = sym held i })
