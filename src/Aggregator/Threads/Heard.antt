-- ===== src/Aggregator/Threads/Heard.antt =====
-- An aggregator whose batches come from its subscriptions: aggregator/internal/pkg/subscriber.go over the
-- goroutines of contracts/bindings/AlignedLayerServiceManager/binding.go.
use mathlib.Core.List.{Memᴰ}
use beluuga.Prelude.{ℕ, some, List, [], ◌∷◌, ◌≡◌, ◌∙◌, refl, ap, sym}
use beluuga.Prelude.Keys.{nat_eq}
use beluuga.Errors.{ok}
use beluuga.Types.{Bytes32}
use beluuga.Go.Map
use beluuga.Chain.Client.{EthClient}
use beluuga.Chain.Watch.{Bound, NewBatchEvent, Feed, parse_new_batch}
use beluuga.Chain.Watch
use beluuga.Chain.Watch.Received.{received-Raw}
use beluuga.Aggregator.State.{BlsAggregationService}
use beluuga.Aggregator.Respond.{BlsAggServiceResponse}
use beluuga.Aggregator.Subscribe.{NewBatch}
use beluuga.Aggregator.Threads.{paying, System, Reach}
use beluuga.Aggregator.Threads.Safety.{roots_of, Reach-paying}

-- What the aggregator reads of an event of the contract.
abbrev pub seen : {Log : Type 0} → NewBatchEvent Log → NewBatch
seen e = record {
  batch_merkle_root = e.batch_merkle_root;
  task_created_block = e.task_created_block;
}

-- The batch that a root is of.
root_of :
    (bs : List NewBatch) {root : Bytes32}
    → Memᴰ root (roots_of bs)
    → (b : NewBatch) × Memᴰ b bs × (b.batch_merkle_root ≡ root)
root_of [] m = elim m [ ]
root_of (b ∷ bs) (Memᴰ.head e) = (b, Memᴰ.head refl, sym e)
root_of (_ ∷ bs) (Memᴰ.tail m) = let (b, mem, same) = root_of bs m in (b, Memᴰ.tail mem, same)

module _ (bound : Bound) where
  open bound use {Log}

  -- Each batch that arrived was delivered by one of the subscriptions.
  abbrev pub Heard : List (Feed Log) → List NewBatch → Type 0
  Heard feeds history =
      (b : NewBatch)
      → Memᴰ b history
      → (f : Feed Log) × Memᴰ f feeds × (e : NewBatchEvent Log) × Memᴰ e f.sink × (seen e ≡ b)

  -- The root stands in a raw log that had arrived at one of the subscriptions.
  pub record Logged (feeds : List (Feed Log)) (root : Bytes32) : Type 0 where
    pub feed : Feed Log
    pub is_feed : Memᴰ feed feeds
    pub raw : Log
    pub arrived : Memᴰ raw feed.history
    pub event : NewBatchEvent Log
    pub unpacked : parse_new_batch bound raw ≡ ok event
    pub has_root : event.batch_merkle_root ≡ root

  module _ (feeds : List (Feed Log)) (reached : (f : Feed Log) → Memᴰ f feeds → Watch.Reach bound f)
      {bls : BlsAggregationService} {eth : EthClient} {F : Type 0} {big_int : F → ℕ}
      {s : System bls eth big_int} (reach : Reach bls eth big_int s)
      (heard : Heard feeds s.shared.history) where
    -- Let the batches that the aggregator hears of be delivered by the subscriptions it made, one or
    -- several, in any states that they reach. In every state that the aggregator reaches: the root that a
    -- goroutine is about to send on chain is the one that is registered under the index of the task it
    -- answers, and it stands in a raw log of the event NewBatch that had arrived at one of the
    -- subscriptions.
    pub paying-Logged :
        (i n : ℕ) (root : Bytes32) (resp : BlsAggServiceResponse F)
        → s.pc i ≡ paying n root resp
        → (Map.get s.shared.agg.batches_root_by_idx resp.task_index ≡ some root) × Logged feeds root
    paying-Logged i n root resp here =
        let (registered, in_history) = Reach-paying reach i n root resp here in
        let (b, mem, is_root) = root_of s.shared.history in_history in
        let (f, is_feed, e, in_sink, same) = heard b mem in
        let (raw, arrived, unpacked) = received-Raw bound (reached f is_feed) in_sink in
        (
          registered,
          record {
            feed = f;
            is_feed = is_feed;
            raw = raw;
            arrived = arrived;
            event = e;
            unpacked = unpacked;
            has_root = ap (λ c. c.batch_merkle_root) same ∙ is_root;
          },
        )
