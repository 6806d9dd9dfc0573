-- ===== src/Aggregator/Threads/Safety.antt =====
-- What a running aggregator keeps, whatever the order in which its goroutines move.
use beluuga.Prelude.{
  ℕ, true, false, Option, none, some, List, [], ◌∷◌, ◌≡◌, ◌∙◌, ap, sym, get_elem?, inl, inr, Memᴰ,
  map, ◌⊎◌,
}
use beluuga.Prelude.Keys.{nat_eq, bytes_eq}
use beluuga.Go.Map
use beluuga.Go.Outcome.{returned}
use beluuga.Types.{Bytes32}
use beluuga.Chain.Client.{EthClient}
use beluuga.Aggregator.State.{BlsAggregationService, unlock}
use beluuga.Aggregator.Server.{SignatureCall}
use beluuga.Aggregator.Registry.{Represents, enroll}
use beluuga.Aggregator.Registry.Places.{get_elem?-index_of}
use beluuga.Aggregator.Registry.Growth.{get_elem?-enroll, enroll_origin}
use beluuga.Aggregator.Subscribe.{NewBatch}
use beluuga.Aggregator.Subscribe.History.{enroll_batches}
use beluuga.Aggregator.Respond.{BlsAggServiceResponse}
use beluuga.Aggregator.Threads.{
  Thread, listening, adding, registering, handing, leaving, replied, paying, in_task, in_wallet,
  System, Reach,
}
use beluuga.Aggregator.Threads.Invariant.{pending, Placed, CallPlaced}
use beluuga.Aggregator.Threads.Reached.{Reach-Inv}

-- The call of `ProcessNewSignature` that a goroutine runs or has left running.
abbrev pub call_of :
    {Signature F R : Type 0} → Thread Signature F R → Option (SignatureCall Signature)
call_of (handing index r) = some (record { task_index = index; response = r })
call_of (leaving reply) = reply.running
call_of (replied reply) = reply.running
call_of _ = none

-- The roots of the batches.
abbrev pub roots_of : List NewBatch → List Bytes32
roots_of = map (λ b. b.batch_merkle_root)

call_of-CallPlaced :
    {Signature F R : Type 0} (roots : List Bytes32) (p : Thread Signature F R)
    → Placed roots p
    → CallPlaced roots (call_of p)
call_of-CallPlaced roots (handing index r) f = f
call_of-CallPlaced roots (leaving reply) f = f
call_of-CallPlaced roots (replied reply) f = f
call_of-CallPlaced roots p f = tt

pending_keeps :
    {Signature F R : Type 0} (p : Thread Signature F R) (roots : List Bytes32) (i : ℕ) {x : Bytes32}
    → get_elem? roots i ≡ some x
    → get_elem? (pending p roots) i ≡ some x
pending_keeps (adding b) roots i h = get_elem?-enroll b.batch_merkle_root roots i h
pending_keeps (registering b) roots i h = get_elem?-enroll b.batch_merkle_root roots i h
pending_keeps p roots i h = h

-- A registered root was there at the start or came with a batch.
enroll_batches_origin :
    (bs : List NewBatch) (roots : List Bytes32) (i : ℕ) {x : Bytes32}
    → get_elem? (enroll_batches bs roots) i ≡ some x
    → (get_elem? roots i ≡ some x) ⊎ Memᴰ x (roots_of bs)
enroll_batches_origin [] roots i h = inl h
enroll_batches_origin (b ∷ bs) roots i h =
    elim (enroll_batches_origin bs (enroll b.batch_merkle_root roots) i h) [
      | inr later ↦ inr (Memᴰ.tail later)
      | inl now ↦ elim (enroll_origin b.batch_merkle_root roots i now) [
        | inl old ↦ inl old
        | inr new ↦ inr (Memᴰ.head (sym new))
      ]
    ]

module _ {bls : BlsAggregationService} {eth : EthClient} {F : Type 0} {big_int : F → ℕ}
    {s : System bls eth big_int} (reach : Reach bls eth big_int s) where
  -- In every state that the aggregator reaches: two goroutines that are both between the `Lock` and the
  -- `Unlock` of the task mutex are the same one, and its `Unlock` does not panic.
  pub Reach-in_task :
      (i j : ℕ)
      → in_task (s.pc i) ≡ true
      → in_task (s.pc j) ≡ true
      → (i ≡ j) × (unlock s.shared.agg ≡ returned (record s.shared.agg { task_mutex = false }))
  unfolding unlock
  Reach-in_task i j h h' =
      let (roots, inv) = Reach-Inv reach in (inv.task.unique i j h h', rw (inv.task.held i h))

  -- In every state that the aggregator reaches: two goroutines that are both between the `Lock` and the
  -- `Unlock` of the wallet mutex are the same one, and the mutex is taken.
  pub Reach-in_wallet :
      (i j : ℕ)
      → in_wallet (s.pc i) ≡ true
      → in_wallet (s.pc j) ≡ true
      → (i ≡ j) × (s.shared.wallet_mutex ≡ true)
  Reach-in_wallet i j h h' =
      let (roots, inv) = Reach-Inv reach in (inv.wallet.unique i j h h', inv.wallet.held i h)

  -- In every state that the aggregator reaches, whatever the operators' calls and the answers did in
  -- between: while the subscriber waits for the next batch, the maps stand for the roots of the batches
  -- that arrived so far, enrolled one after the other.
  pub Reach-listening :
      s.pc 0 ≡ listening → Represents s.shared.agg (enroll_batches s.shared.history [])
  Reach-listening idle =
      let (roots, inv) = Reach-Inv reach in
      let caught_up : roots ≡ enroll_batches s.shared.history [] = rw idle at inv.caught_up in
      rw (← caught_up) inv.represents

  -- In every state that the aggregator reaches: a signature that some goroutine hands, or is still
  -- handing, to the BLS service goes to the index under which its own Merkle root is registered.
  pub Reach-call_of :
      (i : ℕ) (c : SignatureCall bls.Signature)
      → call_of (s.pc i) ≡ some c
      → Map.get s.shared.agg.batches_root_by_idx c.task_index ≡ some c.response.batch_merkle_root
  Reach-call_of i c h =
      let (roots, inv) = Reach-Inv reach in
      let placed : CallPlaced roots (some c) =
        rw h at (call_of-CallPlaced roots (s.pc i) (inv.placed i)) in
      inv.represents.by_idx c.task_index
      ∙ get_elem?-index_of c.response.batch_merkle_root c.task_index roots placed

  -- In every state that the aggregator reaches: the root that a goroutine is about to send on chain is
  -- the one that is registered under the index of the task it answers, and a batch with that root arrived.
  pub Reach-paying :
      (i n : ℕ) (root : Bytes32) (resp : BlsAggServiceResponse F)
      → s.pc i ≡ paying n root resp
      → (Map.get s.shared.agg.batches_root_by_idx resp.task_index ≡ some root)
        × Memᴰ root (roots_of s.shared.history)
  Reach-paying i n root resp h =
      let (roots, inv) = Reach-Inv reach in
      let placed : get_elem? roots resp.task_index ≡ some root = rw h at (inv.placed i) in
      let all =
        ap (λ xs. get_elem? xs resp.task_index) (sym inv.caught_up)
        ∙ pending_keeps (s.pc 0) roots resp.task_index placed in
      (
        inv.represents.by_idx resp.task_index ∙ placed,
        elim (enroll_batches_origin s.shared.history [] resp.task_index all) [
          | inl nowhere ↦ absurd cc
          | inr mem ↦ mem
        ],
      )
