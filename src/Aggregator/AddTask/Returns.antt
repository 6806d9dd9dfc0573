-- ===== src/Aggregator/AddTask/Returns.antt =====
-- When `AddNewTask` returns, over a BLS service that refuses an index only if it has a task there.
use native.Mathlib.Decide.{ℕ_discrete}
use beluuga.Prelude.{
  ℕ, ◌+◌, ◌<◌, ◌≡◌, ◌≢◌, Bool, Option, false, inl, inr, none, some, List, [], ◌∷◌, length, arith,
  Option-cases,
}
use beluuga.Prelude.Keys.{nat_eq, bytes_eq}
use beluuga.Go.Word.{u32, u32_mod}
use beluuga.Go.Map
use beluuga.Go.Map.{get-put}
use beluuga.Go.Outcome.{returned, >>=-eq-returned}
use beluuga.Errors.{Error}
use beluuga.Types.{Bytes32}
use beluuga.Aggregator.State.{
  BlsAggregationService, Aggregator, new_aggregator, lock, unlock, unlock_returned, initialized,
  register, add_locked, add_new_task, lock_returned,
}
use beluuga.Aggregator.Registry.{index_of, Represents}
use beluuga.Aggregator.AddTask.{
  add_new_task-fresh, add_new_task-known, add_new_task-full, next_free,
}

-- Documented of the BLS aggregation service of eigensdk: `InitializeNewTask` refuses an index that has a
-- task already, and no other; a task comes to be by that call alone, at its index.
pub record TaskLaws (bls : BlsAggregationService) : Type 0 where
  pub has_task : bls.Service → ℕ → Bool
  pub accepts :
      (index block : ℕ) (quorums thresholds : List ℕ) (seconds : ℕ) (service : bls.Service)
      → has_task service index ≡ false
      → (bls.initialize_new_task index block quorums thresholds seconds service).1 ≡ none
  pub opens :
      (index block : ℕ) (quorums thresholds : List ℕ) (seconds other : ℕ) (service : bls.Service)
      → index ≢ other
      → has_task service other ≡ false
      → has_task (bls.initialize_new_task index block quorums thresholds seconds service).0 other
        ≡ false
  pub signs :
      (index : ℕ) (root : Bytes32) (signature : bls.Signature) (operator_id : Bytes32) (other : ℕ)
      (service : bls.Service)
      → has_task service other ≡ false
      → has_task (bls.process_new_signature index root signature operator_id service).0 other
        ≡ false

module _ {bls : BlsAggregationService} (laws : TaskLaws bls) where
  open bls use {Service, initialize_new_task}
  open laws use {has_task}

  -- No task of the service is at an index that is not in the map.
  abbrev pub Vacant : Aggregator Service → Type 0
  Vacant agg =
      (i : ℕ)
      → Map.get agg.batches_root_by_idx i ≡ none
      → has_task agg.bls_aggregation_service i ≡ false

  -- The service of a new aggregator has no task at all.
  abbrev pub NoTasks : Service → Type 0
  NoTasks service = (i : ℕ) → has_task service i ≡ false

  pub Vacant-new_aggregator :
      (service : Service) → NoTasks service → Vacant (new_aggregator service)
  unfolding new_aggregator
  Vacant-new_aggregator service empty i _ = empty i

  pub lock-Vacant :
      (agg : Aggregator Service) {agg' : Aggregator Service}
      → Vacant agg
      → lock agg ≡ returned agg'
      → Vacant agg'
  lock-Vacant agg v h = let (_, same) = lock_returned agg h in rw (← same) v

  pub unlock-Vacant :
      (agg : Aggregator Service) {agg' : Aggregator Service}
      → Vacant agg
      → unlock agg ≡ returned agg'
      → Vacant agg'
  unlock-Vacant agg v h = let (_, same) = unlock_returned agg h in rw (← same) v

  initialized-Vacant :
      (agg : Aggregator Service) (answer : Service × Option Error) {agg' : Aggregator Service}
      → Vacant (record agg { bls_aggregation_service = answer.0 })
      → initialized bls agg answer ≡ returned agg'
      → Vacant agg'
  unfolding initialized
  initialized-Vacant agg (service, none) v h =
      unlock-Vacant (record agg { bls_aggregation_service = service }) v h
  initialized-Vacant agg (service, some e) v h = absurd cc

  register-Vacant :
      (root : Bytes32) (block : ℕ) (agg : Aggregator Service) {agg' : Aggregator Service}
      → Vacant agg
      → register bls root block agg ≡ returned agg'
      → Vacant agg'
  unfolding register
  register-Vacant root block agg v h =
      let index = agg.next_batch_index in
      initialized-Vacant
        (record agg {
          batches_idx_by_root = Map.put agg.batches_idx_by_root root index;
          batches_root_by_idx = Map.put agg.batches_root_by_idx index root;
          next_batch_index = u32 (index + 1);
        })
        (initialize_new_task index block (0 ∷ []) (67 ∷ []) 100 agg.bls_aggregation_service)
        (λ i unset. elim (ℕ_discrete index i) [
          | yes here ↦ absurd (ground (arith, get-put agg.batches_root_by_idx index i root))
          | no ne ↦
              laws.opens index block (0 ∷ []) (67 ∷ []) 100 i agg.bls_aggregation_service ne
                (v i (ground (arith, get-put agg.batches_root_by_idx index i root)))
        ])
        h

  pub add_locked-Vacant :
      (root : Bytes32) (block : ℕ) (agg : Aggregator Service) {agg' : Aggregator Service}
      → Vacant agg
      → add_locked bls root block agg ≡ returned agg'
      → Vacant agg'
  unfolding add_locked
  add_locked-Vacant root block agg v h =
      elim (Option-cases (Map.get agg.batches_idx_by_root root)) [
        | inr (i, known) ↦ unlock-Vacant agg v (rw known at h)
        | inl new ↦ elim (Option-cases (Map.get agg.batches_root_by_idx agg.next_batch_index)) [
          | inr (r, taken) ↦ unlock-Vacant agg v (rw (new, taken) at h)
          | inl left ↦ register-Vacant root block agg v (rw (new, left) at h)
        ]
      ]

  pub add_new_task-Vacant :
      (root : Bytes32) (block : ℕ) (agg : Aggregator Service) {agg' : Aggregator Service}
      → Vacant agg
      → add_new_task bls root block agg ≡ returned agg'
      → Vacant agg'
  unfolding add_new_task
  add_new_task-Vacant root block agg v h =
      let (held, locked, rest) = >>=-eq-returned (lock agg) (add_locked bls root block) h in
      add_locked-Vacant root block held (lock-Vacant agg v locked) rest

  -- From a state whose maps stand for a list of roots, whose service has no task at an index that is
  -- left, and whose mutex is free, `AddNewTask` returns.
  pub add_new_task_returns :
      {agg : Aggregator Service} {roots : List Bytes32} (root : Bytes32) (block : ℕ)
      → Represents agg roots
      → Vacant agg
      → agg.task_mutex ≡ false
      → (agg' : Aggregator Service) × (add_new_task bls root block agg ≡ returned agg')
  add_new_task_returns {agg} {roots} root block rep vacant free =
      elim (Option-cases (index_of root roots)) [
        | inr (i, known) ↦ (agg, add_new_task-known bls root block i rep free known)
        | inl new ↦ elim (ℕ_discrete (length roots) u32_mod) [
          | yes full ↦ (agg, add_new_task-full bls root block rep free full)
          | no ne ↦
              let room : length roots < u32_mod = omega (arith, rep.size) in
              let at : agg.next_batch_index ≡ length roots = omega (arith, rep.next) in
              let vacancy : has_task agg.bls_aggregation_service (length roots) ≡ false =
                rw at at (vacant agg.next_batch_index (next_free rep room)) in
              (
                _,
                rw
                    (laws.accepts (length roots) block (0 ∷ []) (67 ∷ []) 100
                      agg.bls_aggregation_service vacancy)
                    at (add_new_task-fresh bls root block rep free new room),
              )
        ]
      ]
