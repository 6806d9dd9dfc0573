-- ===== src/Aggregator/Threads/Invariant.antt =====
-- What holds of the goroutines of a running aggregator at every moment.
use beluuga.Prelude.{ℕ, Bool, true, false, Option, none, some, List, [], ◌≡◌, ◌↔◌, get_elem?}
use beluuga.Go.Mutex.{Excludes}
use beluuga.Types.{Bytes32}
use beluuga.Aggregator.Server.{SignatureCall}
use beluuga.Aggregator.Registry.{index_of, enroll, Represents}
use beluuga.Aggregator.Subscribe.History.{enroll_batches}
use beluuga.Aggregator.Threads.{
  Thread, listening, adding, registering, handing, leaving, replied, answering, reading, sending,
  paying, confirming, pausing, in_task, in_wallet, Shared,
}

-- The index of a call of `ProcessNewSignature` is its root's place.
abbrev pub CallPlaced :
    {Signature : Type 0} → List Bytes32 → Option (SignatureCall Signature) → Type 0
CallPlaced roots none = Unit
CallPlaced roots (some c) = index_of c.response.batch_merkle_root roots ≡ some c.task_index

module _ {Signature F R : Type 0} where
  -- The subscriber is in its loop.
  abbrev pub subscribes : Thread Signature F R → Bool
  subscribes listening = true
  subscribes (adding _) = true
  subscribes (registering _) = true
  subscribes _ = false

  -- The list with the batch enrolled that the subscriber is about to register.
  abbrev pub pending : Thread Signature F R → List Bytes32 → List Bytes32
  pending (adding b) roots = enroll b.batch_merkle_root roots
  pending (registering b) roots = enroll b.batch_merkle_root roots
  pending _ roots = roots

  -- What the local variables of a goroutine say of the registered roots.
  abbrev pub Placed : List Bytes32 → Thread Signature F R → Type 0
  Placed roots (handing index r) = index_of r.batch_merkle_root roots ≡ some index
  Placed roots (leaving reply) = CallPlaced roots reply.running
  Placed roots (replied reply) = CallPlaced roots reply.running
  Placed roots (answering resp) = (root : Bytes32) × (get_elem? roots resp.task_index ≡ some root)
  Placed roots (reading resp) = (root : Bytes32) × (get_elem? roots resp.task_index ≡ some root)
  Placed roots (sending _ root resp) = get_elem? roots resp.task_index ≡ some root
  Placed roots (paying _ root resp) = get_elem? roots resp.task_index ≡ some root
  Placed roots (confirming _ _ root resp) = get_elem? roots resp.task_index ≡ some root
  Placed roots (pausing _ _ root resp) = get_elem? roots resp.task_index ≡ some root
  Placed roots _ = Unit

  -- Goroutine 0 is the subscriber, and no other.
  abbrev pub Cast : ℕ → Thread Signature F R → Type 0
  Cast i p = (subscribes p ≡ true) ↔ (i ≡ 0)

  pub record Inv {S W : Type 0} (roots : List Bytes32) (m : Shared S W)
      (pc : ℕ → Thread Signature F R) : Type 0 where
    pub represents : Represents m.agg roots
    pub caught_up : pending (pc 0) roots ≡ enroll_batches m.history []
    pub task : Excludes in_task m.agg.task_mutex pc
    pub wallet : Excludes in_wallet m.wallet_mutex pc
    pub placed : (i : ℕ) → Placed roots (pc i)
    pub cast : (i : ℕ) → Cast i (pc i)
