-- ===== src/Aggregator/Threads/Moves.antt =====
-- A move of a goroutine keeps each part of the invariant.
use beluuga.Prelude.{ℕ, true, false, Option, none, some, List, [], ◌≡◌, ◌∙◌, sym, refl, arith}
use beluuga.Prelude.Keys.{nat_eq, bytes_eq}
use beluuga.Go.Mutex.{Turn, stays, enters, leaves}
use beluuga.Go.Outcome.{returned}
use beluuga.Types.{Bytes32}
use beluuga.Chain.Client.{EthClient}
use beluuga.Aggregator.State.{
  BlsAggregationService, Aggregator, lock, unlock, lock_returned, unlock_returned,
}
use beluuga.Aggregator.Registry.{enroll, Represents}
use beluuga.Aggregator.Registry.Growth.{index_of-enroll, get_elem?-enroll}
use beluuga.Aggregator.AddTask.{add_locked-enroll, Represents-same}
use beluuga.Aggregator.Server.{hand_over, SignatureCall}
use beluuga.Aggregator.Subscribe.History.{enroll_batches, enroll_batches-append}
use beluuga.Aggregator.Respond.{merkle_root}
use beluuga.Aggregator.Threads.{
  Thread, handing, leaving, replied, answering, reading, sending, paying, confirming, pausing,
  in_task, in_wallet, Shared, Move, arrive, add_lock, add, look, find, miss, hand, leave, end_early,
  end_late, service_answers, read_lock, read, wallet_lock, pay, pay_fails, confirm_fails, retry,
}
use beluuga.Aggregator.Threads.Invariant.{CallPlaced, subscribes, pending, Placed}

lock-Turn :
    {S : Type 0} (agg : Aggregator S) {agg' : Aggregator S}
    → lock agg ≡ returned agg'
    → Turn false true agg.task_mutex agg'.task_mutex
lock-Turn agg h = let (free, e) = lock_returned agg h in rw (free, ← e) enters

unlock-Turn :
    {S : Type 0} (agg : Aggregator S) {agg' : Aggregator S}
    → unlock agg ≡ returned agg'
    → Turn true false agg.task_mutex agg'.task_mutex
unlock-Turn agg h = let (held, e) = unlock_returned agg h in rw (held, ← e) leaves

Represents-lock :
    {S : Type 0} (agg : Aggregator S) {agg' : Aggregator S} {roots : List Bytes32}
    → Represents agg roots
    → lock agg ≡ returned agg'
    → Represents agg' roots
Represents-lock agg rep h =
    let (_, e) = lock_returned agg h in rw (← e) (Represents-same rep refl refl refl)

Represents-unlock :
    {S : Type 0} (agg : Aggregator S) {agg' : Aggregator S} {roots : List Bytes32}
    → Represents agg roots
    → unlock agg ≡ returned agg'
    → Represents agg' roots
Represents-unlock agg rep h =
    let (_, e) = unlock_returned agg h in rw (← e) (Represents-same rep refl refl refl)

module _ {bls : BlsAggregationService} {eth : EthClient} {F : Type 0} {big_int : F → ℕ} where
  open bls use {Service, Signature, process_new_signature}
  open eth use {World, Receipt}

  -- The roots that are registered behind a move.
  abbrev pub grown :
      {m m' : Shared Service World} {p p' : Thread Signature F Receipt}
      → Move bls eth big_int m p m' p'
      → List Bytes32
      → List Bytes32
  grown (add {b} _) roots = enroll b.batch_merkle_root roots
  grown _ roots = roots

  module _ {m : Shared Service World} (roots : List Bytes32) (rep : Represents m.agg roots) where
    pub Move-wallet :
        {m' : Shared Service World} {p p' : Thread Signature F Receipt}
        → Move bls eth big_int m p m' p'
        → (in_wallet p ≡ true → m.wallet_mutex ≡ true)
        → Turn (in_wallet p) (in_wallet p') m.wallet_mutex m'.wallet_mutex
    Move-wallet (wallet_lock free) held = rw free enters
    Move-wallet (pay _) held = rw (held refl) leaves
    Move-wallet (pay_fails _) held = rw (held refl) leaves
    Move-wallet mv held = stays

    pub Move-task :
        {m' : Shared Service World} {p p' : Thread Signature F Receipt}
        → Move bls eth big_int m p m' p'
        → (in_task p ≡ true → m.agg.task_mutex ≡ true)
        → Turn (in_task p) (in_task p') m.agg.task_mutex m'.agg.task_mutex
    unfolding hand_over
    Move-task (add_lock h) held = lock-Turn m.agg h
    Move-task (look h) held = lock-Turn m.agg h
    Move-task (read_lock _ h) held = lock-Turn m.agg h
    Move-task (miss _ h) held = unlock-Turn m.agg h
    Move-task (leave h) held = unlock-Turn m.agg h
    Move-task (read h) held = unlock-Turn m.agg h
    Move-task (add {b} h) held =
        let (rep', free) =
          add_locked-enroll bls b.batch_merkle_root b.task_created_block rep (held refl) h in
        rw (held refl, free) leaves
    Move-task (hand true) held = stays
    Move-task (hand false) held = stays
    Move-task mv held = stays

    pub Move-Represents :
        {m' : Shared Service World} {p p' : Thread Signature F Receipt}
        (mv : Move bls eth big_int m p m' p')
        → (in_task p ≡ true → m.agg.task_mutex ≡ true)
        → Represents m'.agg (grown mv roots)
    unfolding hand_over
    Move-Represents (add_lock h) held = Represents-lock m.agg rep h
    Move-Represents (look h) held = Represents-lock m.agg rep h
    Move-Represents (read_lock _ h) held = Represents-lock m.agg rep h
    Move-Represents (miss _ h) held = Represents-unlock m.agg rep h
    Move-Represents (leave h) held = Represents-unlock m.agg rep h
    Move-Represents (read h) held = Represents-unlock m.agg rep h
    Move-Represents (add {b} h) held =
        (add_locked-enroll bls b.batch_merkle_root b.task_created_block rep (held refl) h).0
    Move-Represents (hand true) held = Represents-same rep refl refl refl
    Move-Represents (hand false) held = rep
    Move-Represents end_early held = Represents-same rep refl refl refl
    Move-Represents end_late held = Represents-same rep refl refl refl
    Move-Represents mv held = rep

    -- The goroutine that moves.
    pub Move-Placed :
        {m' : Shared Service World} {p p' : Thread Signature F Receipt}
        (mv : Move bls eth big_int m p m' p')
        → Placed roots p
        → Placed (grown mv roots) p'
    unfolding hand_over merkle_root
    Move-Placed (find {r} found) f = sym (rep.by_root r.batch_merkle_root) ∙ found
    Move-Placed (service_answers {resp} {root} h) f = (root, sym (rep.by_idx resp.task_index) ∙ h)
    Move-Placed (read {resp} h) (root, f) = ground (arith, rep.by_idx resp.task_index)
    Move-Placed (hand true) f = tt
    Move-Placed (hand false) f = f
    Move-Placed end_early f = tt
    Move-Placed end_late f = tt
    Move-Placed (leave _) f = f
    Move-Placed (read_lock _ _) f = f
    Move-Placed (wallet_lock _) f = f
    Move-Placed (pay _) f = f
    Move-Placed (pay_fails _) f = f
    Move-Placed (confirm_fails _) f = f
    Move-Placed retry f = f
    Move-Placed mv f = tt

    -- The subscriber's move.
    pub Move-caught_up :
        {m' : Shared Service World} {p p' : Thread Signature F Receipt}
        (mv : Move bls eth big_int m p m' p')
        → pending p roots ≡ enroll_batches m.history []
        → pending p' (grown mv roots) ≡ enroll_batches m'.history []
    Move-caught_up (arrive b) c = rw (enroll_batches-append, ← c)
    Move-caught_up (hand _) c = c
    Move-caught_up mv c = c

    -- The move of any other goroutine.
    pub Move-quiet :
        {m' : Shared Service World} {p p' : Thread Signature F Receipt}
        (mv : Move bls eth big_int m p m' p')
        → (subscribes p ≡ subscribes p')
          × (subscribes p ≡ false → (grown mv roots ≡ roots) × (m.history ≡ m'.history))
    Move-quiet (arrive b) = (refl, λ h. cc)
    Move-quiet (add _) = (refl, λ h. cc)
    Move-quiet mv = (refl, λ h. (refl, refl))

-- The goroutines that do not move.
CallPlaced-enroll :
    {Signature : Type 0} (r : Bytes32) (roots : List Bytes32) (c : Option (SignatureCall Signature))
    → CallPlaced roots c
    → CallPlaced (enroll r roots) c
CallPlaced-enroll r roots none f = tt
CallPlaced-enroll r roots (some c) f = index_of-enroll r c.response.batch_merkle_root roots f

pub Placed-enroll :
    {Signature F R : Type 0} (r : Bytes32) (roots : List Bytes32) (p : Thread Signature F R)
    → Placed roots p
    → Placed (enroll r roots) p
Placed-enroll r roots (handing index resp) f = index_of-enroll r resp.batch_merkle_root roots f
Placed-enroll r roots (leaving reply) f = CallPlaced-enroll r roots reply.running f
Placed-enroll r roots (replied reply) f = CallPlaced-enroll r roots reply.running f
Placed-enroll r roots (answering resp) (root, f) =
    (root, get_elem?-enroll r roots resp.task_index f)
Placed-enroll r roots (reading resp) (root, f) = (root, get_elem?-enroll r roots resp.task_index f)
Placed-enroll r roots (sending _ _ resp) f = get_elem?-enroll r roots resp.task_index f
Placed-enroll r roots (paying _ _ resp) f = get_elem?-enroll r roots resp.task_index f
Placed-enroll r roots (confirming _ _ _ resp) f = get_elem?-enroll r roots resp.task_index f
Placed-enroll r roots (pausing _ _ _ resp) f = get_elem?-enroll r roots resp.task_index f
Placed-enroll r roots p f = tt
