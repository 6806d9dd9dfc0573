-- ===== src/Aggregator/Threads/Progress.antt =====
-- The way of the task mutex's holder to its `Unlock`.
use beluuga.Prelude.{
  ℕ, suc, ◌≤◌, ◌≡◌, ◌∙◌, sym, refl, true, false, inl, inr, arith, List, Option-cases,
}
use beluuga.Prelude.Keys.{bytes_eq}
use beluuga.Go.Map
use beluuga.Go.Outcome.{returned}
use beluuga.Types.{Bytes32, SignedTaskResponse}
use beluuga.Chain.Client.{EthClient}
use beluuga.Aggregator.State.{
  BlsAggregationService, Aggregator, unlock, add_locked, add_new_task-add_locked,
}
use beluuga.Aggregator.Registry.{Represents}
use beluuga.Aggregator.AddTask.{add_locked-enroll, Represents-same}
use beluuga.Aggregator.AddTask.Returns.{TaskLaws, Vacant, add_new_task_returns}
use beluuga.Aggregator.Threads.Vacancy.{StartedEmpty, Reach-Vacant}
use beluuga.Aggregator.Server.{hand_over, Reply}
use beluuga.Aggregator.Threads.{
  Thread, registering, looking, handing, leaving, reading, in_task, Shared, Move, add, find, miss,
  hand, leave, read, System, Reach,
}
use beluuga.Aggregator.Threads.Reached.{Reach-Inv}

module _ (bls : BlsAggregationService) (eth : EthClient) {F : Type 0} (big_int : F → ℕ) where
  open bls use {Service, Signature}
  open eth use {World, Receipt}

  -- Moves of one goroutine, with none of another in between.
  pub data Alone
      : ℕ
        → Shared Service World
        → Thread Signature F Receipt
        → Shared Service World
        → Thread Signature F Receipt
        → Type 0 where
    stop : {m : Shared Service World} {p : Thread Signature F Receipt} → Alone 0 m p m p
    go :
        {n : ℕ} {m m' m'' : Shared Service World} {p p' p'' : Thread Signature F Receipt}
        → Move bls eth big_int m p m' p'
        → Alone n m' p' m'' p''
        → Alone (suc n) m p m'' p''

  pub join :
      {k l : ℕ} {m₁ m₂ m₃ : Shared Service World} {p₁ p₂ p₃ : Thread Signature F Receipt}
      → Alone k m₁ p₁ m₂ p₂
      → Alone l m₂ p₂ m₃ p₃
      → (n : ℕ) × Alone n m₁ p₁ m₃ p₃
  join stop r = (_, r)
  join (go mv l) r = let (n, all) = join l r in (suc n, go mv all)

  -- A goroutine gets to a state with a free task mutex, on its own and in three moves at most.
  abbrev pub Frees : Shared Service World → Thread Signature F Receipt → Type 0
  Frees m p =
      (n : ℕ) × (m' : Shared Service World) × (p' : Thread Signature F Receipt) × Alone n m p m' p'
      × (m'.agg.task_mutex ≡ false)
      × (n ≤ 3)

  pub unlocks :
      (agg : Aggregator Service)
      → agg.task_mutex ≡ true
      → unlock agg ≡ returned (record agg { task_mutex = false })
  unfolding unlock
  unlocks agg held = rw held

  leaving-Frees :
      (m : Shared Service World) (reply : Reply Signature)
      → m.agg.task_mutex ≡ true
      → Frees m (leaving reply)
  leaving-Frees m reply held = (1, _, _, go (leave (unlocks m.agg held)) stop, refl, omega arith)

  handing-Frees :
      (m : Shared Service World) (index : ℕ) (r : SignedTaskResponse Signature)
      → m.agg.task_mutex ≡ true
      → Frees m (handing index r)
  unfolding hand_over
  handing-Frees m index r held =
      (2, _, _, go (hand true) (go (leave (unlocks _ held)) stop), refl, omega arith)

  looking-Frees :
      (m : Shared Service World) (n : ℕ) (r : SignedTaskResponse Signature)
      → m.agg.task_mutex ≡ true
      → Frees m (looking n r)
  unfolding hand_over
  looking-Frees m n r held =
      elim (Option-cases (Map.get m.agg.batches_idx_by_root r.batch_merkle_root)) [
        | inl absent ↦ (1, _, _, go (miss absent (unlocks m.agg held)) stop, refl, omega arith)
        | inr (index, present) ↦ (
          3,
          _,
          _,
          go (find present) (go (hand true) (go (leave (unlocks _ held)) stop)),
          refl,
          omega arith,
        )
      ]

  pub add_locked_returns :
      (laws : TaskLaws bls) {agg : Aggregator Service} {roots : List Bytes32} (root : Bytes32)
      (block : ℕ)
      → Represents agg roots
      → Vacant laws agg
      → agg.task_mutex ≡ true
      → (agg' : Aggregator Service) × (add_locked bls root block agg ≡ returned agg')
  add_locked_returns laws {agg} root block rep vacant held =
      let (agg', run) =
        add_new_task_returns laws {agg = record agg { task_mutex = false }} root block
          (Represents-same rep refl refl refl) vacant refl in
      (agg', sym (add_new_task-add_locked bls root block agg held) ∙ run)

  pub in_task-Frees :
      (laws : TaskLaws bls) (m : Shared Service World) (p : Thread Signature F Receipt)
      {roots : List Bytes32}
      → Represents m.agg roots
      → Vacant laws m.agg
      → m.agg.task_mutex ≡ true
      → in_task p ≡ true
      → Frees m p
  in_task-Frees laws m (registering b) rep vacant held h =
      let (agg', run) =
        add_locked_returns laws b.batch_merkle_root b.task_created_block rep vacant held in
      let (_, free) = add_locked-enroll bls b.batch_merkle_root b.task_created_block rep held run in
      (1, _, _, go (add run) stop, free, omega arith)
  in_task-Frees laws m (looking n r) rep vacant held h = looking-Frees m n r held
  in_task-Frees laws m (handing index r) rep vacant held h = handing-Frees m index r held
  in_task-Frees laws m (leaving reply) rep vacant held h = leaving-Frees m reply held
  in_task-Frees laws m (reading resp) rep vacant held h =
      (1, _, _, go (read (unlocks m.agg held)) stop, refl, omega arith)
  in_task-Frees laws m p rep vacant held h = absurd cc

module _ {bls : BlsAggregationService} {eth : EthClient} {F : Type 0} {big_int : F → ℕ}
    {s : System bls eth big_int} (reach : Reach bls eth big_int s) where
  -- In every state that the aggregator reaches from a service without tasks: if the task mutex is taken,
  -- some goroutine gets to a state in which it is free by at most three moves of its own.
  pub Reach-Frees :
      (laws : TaskLaws bls)
      → StartedEmpty laws reach
      → s.shared.agg.task_mutex ≡ true
      → (i : ℕ) × Frees bls eth big_int s.shared (s.pc i)
  Reach-Frees laws empty taken =
      let (roots, inv) = Reach-Inv reach in
      let (i, inside) = inv.task.owned taken in
      (
        i,
        in_task-Frees bls eth big_int laws s.shared (s.pc i) inv.represents
            (Reach-Vacant laws reach empty) taken inside,
      )
