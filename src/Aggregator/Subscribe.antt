-- ===== src/Aggregator/Subscribe.antt =====
-- aggregator/internal/pkg/subscriber.go: new batches reach the aggregator through a subscription, which
-- is made again when it breaks.
pub mod History
use beluuga.Prelude.{ℕ, zero, suc, ◌+◌, Option, none, some, List, [], ◌∷◌}
use beluuga.Go.Outcome.{Outcome, returned, ◌>>=◌}
use beluuga.Errors.{Error, subscribe_failed}
use beluuga.Types.{Bytes32}
use beluuga.Aggregator.State.{BlsAggregationService, Aggregator, add_new_task}

-- The fields of the event `NewBatch` that are read.
pub record NewBatch : Type 0 where
  pub batch_merkle_root : Bytes32
  pub task_created_block : ℕ

-- One round of the loop: what `WatchNewBatch` answers, and the batches that arrive on the channel
-- before the subscription reports an error.
pub record Session : Type 0 where
  pub creation_error : Option Error
  pub arrivals : List NewBatch

abbrev pub max_retries : ℕ
max_retries = 100

module _ (bls : BlsAggregationService) where
  open bls use {Service}

  -- `subscribeToNewTasks`: it returns at the subscription's error, behind the batches.
  unfoldable pub drain : List NewBatch → Aggregator Service → Outcome (Aggregator Service)
  drain [] agg = returned agg
  drain (b ∷ bs) agg = add_new_task bls b.batch_merkle_root b.task_created_block agg >>= drain bs

  -- `tryCreateTaskSubscriber`, and the loop over the batches if it succeeds.
  unfoldable pub serve_session : Session → Aggregator Service → Outcome (Aggregator Service)
  unfolding drain
  serve_session s agg = elim s.creation_error [
    | none ↦ drain s.arrivals agg
    | some e ↦ returned agg
  ]

  -- The loop of `SubscribeToNewTasks` with `n` rounds left, `i` rounds done.
  unfoldable pub subscribe_rounds :
      ℕ → ℕ → (ℕ → Session) → Aggregator Service → Outcome (Aggregator Service × Error)
  unfolding serve_session
  subscribe_rounds zero i sessions agg = returned (agg, subscribe_failed)
  subscribe_rounds (suc n) i sessions agg =
      serve_session (sessions i) agg >>= subscribe_rounds n (suc i) sessions

  unfoldable pub subscribe_to_new_tasks :
      (ℕ → Session) → Aggregator Service → Outcome (Aggregator Service × Error)
  unfolding subscribe_rounds
  subscribe_to_new_tasks = subscribe_rounds max_retries 0
