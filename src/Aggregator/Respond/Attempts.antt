-- ===== src/Aggregator/Respond/Attempts.antt =====
-- What the attempts to answer a task do.
use beluuga.Prelude.{ℕ, zero, suc, ◌+◌, ◌≡◌, ◌<◌, Option, none, some, List, arith, get_elem?}
use beluuga.Errors.{Result, ok, err}
use beluuga.Types.{Bytes32}
use beluuga.Retry.{retry, next, world_after, FailsFor, retry_succeeds, retry_gives_up}
use beluuga.Go.Call.{Call}
use beluuga.Chain.Client.{EthClient, NonSignerStakesAndSignature}
use beluuga.Aggregator.State.{Aggregator}
use beluuga.Aggregator.Registry.{Represents}
use beluuga.Aggregator.Respond.{
  BlsAggServiceResponse, Sending, Handled, service_error, responded, lost, pause,
  send_aggregated_response, respond, merkle_root, non_signer_stakes_and_signature,
  handle_bls_agg_service_response,
}

-- One for an answer that has a receipt.
abbrev pub answers {ℓ} : {R : Type ℓ} → Option R → ℕ
answers none = 0
answers (some r) = 1

abbrev pub answered : {R : Type 0} → Handled R → ℕ
answered (responded r) = 1
answered (service_error e) = 0
answered lost = 0

abbrev of_result : {R : Type 0} → Result R → ℕ
of_result (ok r) = 1
of_result (err e) = 0

module _ (eth : EthClient) (root : Bytes32) (stakes : NonSignerStakesAndSignature) where
  open eth use {World}

  attempt_counts :
      (s : Sending World)
      → (send_aggregated_response eth root stakes s).0.aggregated_responses
        ≡ s.aggregated_responses + of_result (send_aggregated_response eth root stakes s).1
  unfolding send_aggregated_response
  attempt_counts s = ground arith

  retry_counts :
      (n : ℕ) (s : Sending World)
      → let (s', r) = retry (send_aggregated_response eth root stakes) (pause eth) n s in
        s'.aggregated_responses ≡ s.aggregated_responses + answers r
  unfolding retry pause next
  retry_counts zero s = omega arith
  retry_counts (suc n) s = ground (
    arith,
    attempt_counts s,
    retry_counts n (next (send_aggregated_response eth root stakes) (pause eth) s),
  )

-- One attempt to answer with this root and the signature of this response.
abbrev pub answers_with :
    {F : Type 0} (eth : EthClient) (big_int : F → ℕ) (root : Bytes32)
    (resp : BlsAggServiceResponse F)
    → Call (Sending eth.World) eth.Receipt
answers_with eth big_int root resp =
    send_aggregated_response eth root (non_signer_stakes_and_signature big_int resp)

module _ {S F : Type 0} (eth : EthClient) (big_int : F → ℕ) (agg : Aggregator S) where
  open eth use {World, Receipt}

  -- The metric of aggregated responses grows by one when the handler ends with a receipt, and stays
  -- as it was when it ends with an error of the service or loses the batch, however often it tried.
  pub handle_counts :
      (resp : BlsAggServiceResponse F) (s : Sending World)
      → let (s', h) = handle_bls_agg_service_response eth big_int agg resp s in
        s'.aggregated_responses ≡ s.aggregated_responses + answered h
  unfolding handle_bls_agg_service_response respond
  handle_counts resp s = ground (
    arith,
    retry_counts eth (merkle_root agg resp.task_index)
        (non_signer_stakes_and_signature big_int resp) 5 s,
  )

  module _ (roots : List Bytes32) (root : Bytes32) (resp : BlsAggServiceResponse F)
      (s : Sending World) (rep : Represents agg roots) (no_error : resp.error ≡ none)
      (registered : get_elem? roots resp.task_index ≡ some root) where
    own_root : merkle_root agg resp.task_index ≡ root
    unfolding merkle_root
    own_root = ground (arith, rep.by_idx resp.task_index)

    handle-respond :
        handle_bls_agg_service_response eth big_int agg resp s
        ≡ respond eth root (non_signer_stakes_and_signature big_int resp) s
    unfolding handle_bls_agg_service_response
    handle-respond = rw (no_error, own_root)

    -- For a response without error to a registered task, its index being one of the list that the maps
    -- stand for, the handler sends the root that was registered at the task's index. If attempt `k` is
    -- the first to get a receipt, and `k` is below 5, the handler ends there with that receipt.
    pub handle_responds :
        (k : ℕ) (r : Receipt)
        → k < 5
        → FailsFor (answers_with eth big_int root resp) (pause eth) k s
        → (answers_with eth big_int root resp
            (world_after (answers_with eth big_int root resp) (pause eth) k s)).1
          ≡ ok r
        → handle_bls_agg_service_response eth big_int agg resp s ≡ (
          (answers_with eth big_int root resp
              (world_after (answers_with eth big_int root resp) (pause eth) k s)).0,
          responded r,
        )
    unfolding respond
    handle_responds k r lt f h = ground (
      arith,
      handle-respond,
      retry_succeeds (answers_with eth big_int root resp) (pause eth) 5 k s r lt f h,
    )

    -- For a response without error to a registered task, its index being one of the list that the maps
    -- stand for, the batch is lost after five attempts without a receipt.
    pub handle_loses :
        FailsFor (answers_with eth big_int root resp) (pause eth) 5 s
        → handle_bls_agg_service_response eth big_int agg resp s
          ≡ (world_after (answers_with eth big_int root resp) (pause eth) 5 s, lost)
    unfolding respond
    handle_loses f = ground (
      arith,
      handle-respond,
      retry_gives_up (answers_with eth big_int root resp) (pause eth) 5 s f,
    )
