-- ===== src/Aggregator/Threads/Reached.antt =====
-- The invariant holds in every state that a running aggregator reaches.
use native.Mathlib.Decide.{ℕ_discrete}
use beluuga.Prelude.{ℕ, zero, suc, Bool, false, List, [], ◌≡◌, refl, arith}
use beluuga.Prelude.Keys.{nat_eq, bytes_eq}
use beluuga.Go.Mutex.{
  Turn-Excludes, move_to, move_to_all, move_to_other, move_to_here, free-Excludes,
}
use beluuga.Types.{Bytes32}
use beluuga.Chain.Client.{EthClient}
use beluuga.Aggregator.State.{BlsAggregationService, new_aggregator}
use beluuga.Aggregator.AddTask.{Represents-new_aggregator}
use beluuga.Aggregator.Subscribe.History.{enroll_batches}
use beluuga.Aggregator.Respond.{Sending}
use beluuga.Aggregator.Threads.{
  Thread, unborn, listening, in_task, in_wallet, Shared, Move, add, System, pick, init, at_start,
  Reach, start, later,
}
use beluuga.Aggregator.Threads.Invariant.{pending, Placed, Cast, Inv}
use beluuga.Aggregator.Threads.Moves.{
  grown, Move-wallet, Move-task, Move-Represents, Move-Placed, Move-caught_up, Move-quiet,
  Placed-enroll,
}

module _ {bls : BlsAggregationService} {eth : EthClient} {F : Type 0} {big_int : F → ℕ} where
  open bls use {Service, Signature}
  open eth use {World, Receipt}

  grown-Placed :
      {m m' : Shared Service World} {p p' : Thread Signature F Receipt}
      (mv : Move bls eth big_int m p m' p') (roots : List Bytes32) (q : Thread Signature F Receipt)
      → Placed roots q
      → Placed (grown mv roots) q
  grown-Placed (add {b} _) roots q f = Placed-enroll b.batch_merkle_root roots q f
  grown-Placed mv roots q f = f

  module _ {m : Shared Service World} {pc : ℕ → Thread Signature F Receipt} {roots : List Bytes32}
      (inv : Inv roots m pc) (i : ℕ) where
    Move-pending :
        {m' : Shared Service World} {p' : Thread Signature F Receipt}
        (mv : Move bls eth big_int m (pc i) m' p')
        → pending (move_to pc i p' 0) (grown mv roots) ≡ enroll_batches m'.history []
    Move-pending {m'} {p'} mv = elim (ℕ_discrete i 0) [
      | yes here ↦
          rw (move_to_here pc i 0 p' here)
            (Move-caught_up roots inv.represents mv (rw here inv.caught_up))
      | no there ↦
          let (_, quiet) = Move-quiet roots inv.represents mv in
          let (same_roots, same_history) = quiet (ground (arith, inv.cast i)) in
          rw (move_to_other pc i 0 p' there, same_roots, ← same_history) inv.caught_up
    ]

    pub Move-Inv :
        {m' : Shared Service World} {p' : Thread Signature F Receipt}
        (mv : Move bls eth big_int m (pc i) m' p')
        → Inv (grown mv roots) m' (move_to pc i p')
    Move-Inv {m'} {p'} mv = record {
      represents = Move-Represents roots inv.represents mv (inv.task.held i);
      caught_up = Move-pending mv;
      task = Turn-Excludes inv.task refl refl (Move-task roots inv.represents mv (inv.task.held i));
      wallet =
          Turn-Excludes inv.wallet refl refl
            (Move-wallet roots inv.represents mv (inv.wallet.held i));
      placed =
          move_to_all (λ _ q. Placed (grown mv roots) q) pc i p'
            (Move-Placed roots inv.represents mv (inv.placed i))
            (λ j. grown-Placed mv roots (pc j) (inv.placed j));
      cast =
          move_to_all Cast pc i p' (rw (← (Move-quiet roots inv.represents mv).0) (inv.cast i))
            inv.cast;
    }

module _ (bls : BlsAggregationService) (eth : EthClient) {F : Type 0} (big_int : F → ℕ) where
  open bls use {Service, Signature}
  open eth use {World, Receipt}

  at_start-out :
      (critical : Thread Signature F Receipt → Bool)
      → critical listening ≡ false
      → critical unborn ≡ false
      → (i : ℕ) → critical (at_start bls eth big_int i) ≡ false
  at_start-out critical l u zero = l
  at_start-out critical l u (suc i) = u

  at_start-Placed : (i : ℕ) → Placed [] (at_start bls eth big_int i)
  at_start-Placed zero = tt
  at_start-Placed (suc i) = tt

  at_start-Cast : (i : ℕ) → Cast i (at_start bls eth big_int i)
  at_start-Cast zero = (λ _. refl, λ _. refl)
  at_start-Cast (suc i) = (λ h. cc, λ h. absurd (omega arith))

  pub init-Inv :
      (service : Service) (out : Sending World)
      → let s = init bls eth big_int service out in Inv [] s.shared s.pc
  unfolding new_aggregator
  init-Inv service out = record {
    represents = Represents-new_aggregator service;
    caught_up = refl;
    task = free-Excludes (at_start-out in_task refl refl);
    wallet = free-Excludes (at_start-out in_wallet refl refl);
    placed = at_start-Placed;
    cast = at_start-Cast;
  }

module _ {bls : BlsAggregationService} {eth : EthClient} {F : Type 0} {big_int : F → ℕ} where
  open bls use {Service, Signature}
  open eth use {World, Receipt}

  pub Reach-Inv :
      {s : System bls eth big_int}
      → Reach bls eth big_int s
      → (roots : List Bytes32) × Inv roots s.shared s.pc
  Reach-Inv (start service out) = ([], init-Inv bls eth big_int service out)
  Reach-Inv (later r (pick i mv)) =
      let (roots, inv) = Reach-Inv r in (grown mv roots, Move-Inv inv i mv)
