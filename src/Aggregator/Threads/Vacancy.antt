-- ===== src/Aggregator/Threads/Vacancy.antt =====
-- The tasks of the BLS service of a running aggregator, against the map of its roots.
use beluuga.Prelude.{ℕ, true, false}
use beluuga.Aggregator.State.{BlsAggregationService}
use beluuga.Aggregator.AddTask.Returns.{
  TaskLaws, Vacant, NoTasks, Vacant-new_aggregator, lock-Vacant, unlock-Vacant, add_locked-Vacant,
}
use beluuga.Aggregator.Server.{hand_over}
use beluuga.Chain.Client.{EthClient}
use beluuga.Aggregator.Threads.{
  Thread, Shared, Move, add_lock, add, look, miss, hand, leave, end_early, end_late, read_lock,
  read, System, Reach, start, later, pick,
}

module _ {bls : BlsAggregationService} {eth : EthClient} {F : Type 0} {big_int : F → ℕ}
    (laws : TaskLaws bls) where
  open bls use {Service, Signature}
  open eth use {World, Receipt}

  -- The aggregator was started with a service that had no task.
  abbrev pub StartedEmpty : {s : System bls eth big_int} → Reach bls eth big_int s → Type 0
  StartedEmpty (start service out) = NoTasks laws service
  StartedEmpty (later r step) = StartedEmpty r

  Move-Vacant :
      {m m' : Shared Service World} {p p' : Thread Signature F Receipt}
      → Move bls eth big_int m p m' p'
      → Vacant laws m.agg
      → Vacant laws m'.agg
  unfolding hand_over
  Move-Vacant {m} (add_lock h) v = lock-Vacant laws m.agg v h
  Move-Vacant {m} (add {b} h) v =
      add_locked-Vacant laws b.batch_merkle_root b.task_created_block m.agg v h
  Move-Vacant {m} (look h) v = lock-Vacant laws m.agg v h
  Move-Vacant {m} (miss _ h) v = unlock-Vacant laws m.agg v h
  Move-Vacant {m} (hand true) v = λ i unset. laws.signs _ _ _ _ i _ (v i unset)
  Move-Vacant {m} (hand false) v = v
  Move-Vacant {m} (leave h) v = unlock-Vacant laws m.agg v h
  Move-Vacant {m} end_early v = λ i unset. laws.signs _ _ _ _ i _ (v i unset)
  Move-Vacant {m} end_late v = λ i unset. laws.signs _ _ _ _ i _ (v i unset)
  Move-Vacant {m} (read_lock _ h) v = lock-Vacant laws m.agg v h
  Move-Vacant {m} (read h) v = unlock-Vacant laws m.agg v h
  Move-Vacant mv v = v

  pub Reach-Vacant :
      {s : System bls eth big_int} (reach : Reach bls eth big_int s)
      → StartedEmpty reach
      → Vacant laws s.shared.agg
  Reach-Vacant (start service out) empty = Vacant-new_aggregator laws service empty
  Reach-Vacant (later r (pick i mv)) empty = Move-Vacant mv (Reach-Vacant r empty)
