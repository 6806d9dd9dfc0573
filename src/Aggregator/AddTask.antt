-- ===== src/Aggregator/AddTask.antt =====
-- `AddNewTask` against the list of roots that the aggregator's maps stand for.
pub mod Returns
use beluuga.Prelude.{
  ℕ, ◌+◌, ◌<◌, ◌≡◌, ◌∙◌, refl, true, inl, inr, false, none, some, List, [], ◌∷◌, ◌++◌, length,
  arith, Option-cases, get_elem?_out, get_elem?_in, length-append, get_elem?_append_ne,
  get_elem?_append_last,
}
use beluuga.Prelude.Keys.{nat_eq, bytes_eq, list_beq_iff}
use native.Mathlib.Decide.{ℕ_discrete}
use beluuga.Go.Word.{u32, u32_mod}
use beluuga.Go.Map
use beluuga.Go.Map.{get-put, map_laws}
use beluuga.Go.Outcome.{returned, exited}
use beluuga.Types.{Bytes32}
use beluuga.Aggregator.State.{
  BlsAggregationService, Aggregator, new_aggregator, add_new_task, add_locked,
  add_new_task-add_locked,
}
use beluuga.Aggregator.Registry.{index_of, enroll, Represents}
use beluuga.Aggregator.Registry.Places.{
  enroll_known, enroll_full, enroll_new, index_of-append, Distinct-append,
}

-- A fresh aggregator stands for the empty list.
pub Represents-new_aggregator : {S : Type 0} (s : S) → Represents (new_aggregator s) []
unfolding new_aggregator index_of
Represents-new_aggregator s = record {
  size = omega arith;
  next = omega arith;
  by_idx = λ i. Map.get-make i;
  by_root = λ r. Map.get-make r;
  distinct = λ i r h. cc;
}

module _ {S : Type 0} {agg : Aggregator S} {roots : List Bytes32} (rep : Represents agg roots) where
  -- The next index is free exactly while there is room.
  pub next_free :
      length roots < u32_mod → Map.get agg.batches_root_by_idx agg.next_batch_index ≡ none
  next_free room =
      rw (rep.by_idx agg.next_batch_index) (get_elem?_out roots _ (omega (arith, rep.next)))

  pub next_taken :
      length roots ≡ u32_mod
      → (r : Bytes32) × (Map.get agg.batches_root_by_idx agg.next_batch_index ≡ some r)
  next_taken full =
      let (r, e) = get_elem?_in roots agg.next_batch_index (omega (arith, rep.next)) in
      (r, rw (rep.by_idx agg.next_batch_index) e)

  -- The three writes of a registration append the root.
  pub Represents-append :
      (root : Bytes32) (agg' : Aggregator S)
      → length roots < u32_mod
      → index_of root roots ≡ none
      → agg'.batches_idx_by_root ≡ Map.put agg.batches_idx_by_root root agg.next_batch_index
      → agg'.batches_root_by_idx ≡ Map.put agg.batches_root_by_idx agg.next_batch_index root
      → agg'.next_batch_index ≡ u32 (agg.next_batch_index + 1)
      → Represents agg' (roots ++ root ∷ [])
  Represents-append root agg' room new p q n = record {
    size = omega (arith, length-append roots (root ∷ []));
    next = omega (arith, length-append roots (root ∷ []), rep.next);
    by_idx = λ i.
        rw (q, get-put)
          (elim (ℕ_discrete i (length roots)) [
            | yes e ↦ ground (arith, get_elem?_append_last roots root i e, rep.next)
            | no ne ↦ ground (arith, get_elem?_append_ne roots root i ne, rep.next, rep.by_idx i)
          ]);
    by_root = λ r.
        rw (p, get-put)
          (ground
            (arith, index_of-append r root roots, rep.by_root r, rep.next, list_beq_iff root r));
    distinct = Distinct-append root roots rep.distinct new;
  }

-- The mutex and the service have no part in what the maps stand for.
pub Represents-same :
    {S T : Type 0} {agg : Aggregator S} {agg' : Aggregator T} {roots : List Bytes32}
    → Represents agg roots
    → agg.batches_root_by_idx ≡ agg'.batches_root_by_idx
    → agg.batches_idx_by_root ≡ agg'.batches_idx_by_root
    → agg.next_batch_index ≡ agg'.next_batch_index
    → Represents agg' roots
Represents-same rep p q n = record {
  size = rep.size;
  next = rw (← n) rep.next;
  by_idx = rw (← p) rep.by_idx;
  by_root = rw (← q) rep.by_root;
  distinct = rep.distinct;
}

module _ (bls : BlsAggregationService) {agg : Aggregator bls.Service} {roots : List Bytes32} where
  open bls use {Service, initialize_new_task}

  pub add_new_task-known :
      (root : Bytes32) (block i : ℕ)
      → Represents agg roots
      → agg.task_mutex ≡ false
      → index_of root roots ≡ some i
      → add_new_task bls root block agg ≡ returned agg
  unfolding add_new_task
  add_new_task-known root block i rep free known = ground (arith, rep.by_root root)

  pub add_new_task-full :
      (root : Bytes32) (block : ℕ)
      → Represents agg roots
      → agg.task_mutex ≡ false
      → length roots ≡ u32_mod
      → add_new_task bls root block agg ≡ returned agg
  unfolding add_new_task
  add_new_task-full root block rep free full =
      let (r, taken) = next_taken rep full in ground (arith, rep.by_root root)

  -- From a state whose maps stand for a list of roots and whose mutex is free, for a root that is not in
  -- the list, while an index is left: `AddNewTask` asks the BLS service for a task at the next
  -- index; it ends the process if the service fails, and otherwise writes both maps,
  -- takes the index and releases the mutex.
  pub add_new_task-fresh :
      (root : Bytes32) (block : ℕ)
      → Represents agg roots
      → agg.task_mutex ≡ false
      → index_of root roots ≡ none
      → length roots < u32_mod
      → let answer =
          initialize_new_task
            (length roots)
            block
            (0 ∷ [])
            (67 ∷ [])
            100
            agg.bls_aggregation_service in
        add_new_task bls root block agg ≡ elim answer.1 [
          | some e ↦ exited
          | none ↦ returned (record {
            batches_root_by_idx = Map.put agg.batches_root_by_idx (length roots) root;
            batches_idx_by_root = Map.put agg.batches_idx_by_root root (length roots);
            next_batch_index = u32 (length roots + 1);
            task_mutex = false;
            bls_aggregation_service = answer.0;
          })
        ]
  unfolding add_new_task
  add_new_task-fresh root block rep free new room =
      let e : agg.next_batch_index ≡ length roots = omega (arith, rep.next) in
      ground (arith, rep.by_root root, next_free rep room, e)

  registered :
      (root : Bytes32) (block : ℕ) {agg' : Aggregator Service}
      → Represents agg roots
      → agg.task_mutex ≡ false
      → index_of root roots ≡ none
      → length roots < u32_mod
      → add_new_task bls root block agg ≡ returned agg'
      → Represents agg' (roots ++ root ∷ []) × (agg'.task_mutex ≡ false)
  registered root block {agg'} rep free new room h =
      let e : agg.next_batch_index ≡ length roots = omega (arith, rep.next) in
      let fresh = add_new_task-fresh root block rep free new room in
      let p : agg'.batches_idx_by_root ≡ Map.put agg.batches_idx_by_root root agg.next_batch_index =
        ground (arith, fresh, e) in
      let q : agg'.batches_root_by_idx ≡ Map.put agg.batches_root_by_idx agg.next_batch_index root =
        ground (arith, fresh, e) in
      let n : agg'.next_batch_index ≡ u32 (agg.next_batch_index + 1) = ground (arith, fresh, e) in
      (Represents-append rep root agg' room new p q n, ground (arith, fresh))

  -- From a state whose maps stand for a list of roots and whose mutex is free: when `AddNewTask` returns,
  -- the maps stand for the list with the root enrolled, and the mutex is free.
  pub add_new_task-enroll :
      (root : Bytes32) (block : ℕ) {agg' : Aggregator Service}
      → Represents agg roots
      → agg.task_mutex ≡ false
      → add_new_task bls root block agg ≡ returned agg'
      → Represents agg' (enroll root roots) × (agg'.task_mutex ≡ false)
  add_new_task-enroll root block {agg'} rep free h = elim (Option-cases (index_of root roots)) [
    | inr (i, known) ↦
        let same : agg ≡ agg' = cc (add_new_task-known root block i rep free known) in
        rw (enroll_known root roots known, ← same) (rep, free)
    | inl new ↦ elim (ℕ_discrete (length roots) u32_mod) [
      | yes full ↦
          let same : agg ≡ agg' = cc (add_new_task-full root block rep free full) in
          rw (enroll_full root roots full, ← same) (rep, free)
      | no ne ↦
          let room : length roots < u32_mod = omega (arith, rep.size) in
          rw (enroll_new root roots new room) (registered root block rep free new room h)
    ]
  ]

module _ (bls : BlsAggregationService) {agg : Aggregator bls.Service} {roots : List Bytes32} where
  -- The same behind the `Lock()`: the mutex is held at the start.
  pub add_locked-enroll :
      (root : Bytes32) (block : ℕ) {agg' : Aggregator bls.Service}
      → Represents agg roots
      → agg.task_mutex ≡ true
      → add_locked bls root block agg ≡ returned agg'
      → Represents agg' (enroll root roots) × (agg'.task_mutex ≡ false)
  add_locked-enroll root block rep held h =
      add_new_task-enroll bls root block
        (Represents-same {agg = agg} {agg' = record agg { task_mutex = false }} rep refl refl refl)
        refl (add_new_task-add_locked bls root block agg held ∙ h)
