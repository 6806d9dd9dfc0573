-- ===== src/Aggregator/Respond.antt =====
-- aggregator/internal/pkg/aggregator.go: `handleBlsAggServiceResponse` and `sendAggregatedResponse`.
pub mod Attempts
use beluuga.Prelude.{ℕ, ◌+◌, Option, none, some, List, map}
use beluuga.Prelude.Keys.{nat_eq}
use beluuga.Errors.{Error, Result, ok, err}
use beluuga.Types.{Bytes32, zero_bytes32}
use beluuga.Go.Call.{Call, ◌>>=◌, pure}
use beluuga.Go.Map
use beluuga.Retry.{retry}
use beluuga.Chain.Points.{G1Point, G2Point, convert_to_bn254_g1_point, convert_to_bn254_g2_point}
use beluuga.Chain.Client.{EthClient, NonSignerStakesAndSignature}
use beluuga.Chain.Receipt.{wait_for_transaction_receipt}
use beluuga.Chain.Writer
use beluuga.Aggregator.State.{Aggregator}

-- `BlsAggregationServiceResponse` of eigensdk, with the fields that the program reads.
pub record BlsAggServiceResponse (F : Type 0) : Type 0 where
  pub error : Option Error
  pub task_index : ℕ
  pub non_signers_pubkeys_g1 : List (G1Point F)
  pub quorum_apks_g1 : List (G1Point F)
  pub signers_apk_g2 : G2Point F
  pub signers_agg_sig_g1 : G1Point F
  pub non_signer_quorum_bitmap_indices : List ℕ
  pub quorum_apk_indices : List ℕ
  pub total_stake_indices : List ℕ
  pub non_signer_stake_indices : List (List ℕ)

-- What a goroutine that answers on chain can change: the chain's world and the metric.
pub record Sending (W : Type 0) : Type 0 where
  pub world : W
  pub aggregated_responses : ℕ

abbrev pub max_sent_tx_retries : ℕ
max_sent_tx_retries = 5

-- How the handler ends.
pub data Handled (R : Type 0) : Type 0 where
  service_error : Error → Handled R
  responded : R → Handled R
  lost : Handled R

-- The argument of the contract's call, put together from the response.
unfoldable pub non_signer_stakes_and_signature :
    {F : Type 0} → (F → ℕ) → BlsAggServiceResponse F → NonSignerStakesAndSignature
unfolding convert_to_bn254_g1_point convert_to_bn254_g2_point
non_signer_stakes_and_signature big_int resp = record {
  non_signer_quorum_bitmap_indices = resp.non_signer_quorum_bitmap_indices;
  non_signer_pubkeys = map (convert_to_bn254_g1_point big_int) resp.non_signers_pubkeys_g1;
  quorum_apks = map (convert_to_bn254_g1_point big_int) resp.quorum_apks_g1;
  apk_g2 = convert_to_bn254_g2_point big_int resp.signers_apk_g2;
  sigma = convert_to_bn254_g1_point big_int resp.signers_agg_sig_g1;
  quorum_apk_indices = resp.quorum_apk_indices;
  total_stake_indices = resp.total_stake_indices;
  non_signer_stake_indices = resp.non_signer_stake_indices;
}

-- `agg.batchesRootByIdx[index]`: a missing index reads as the zero value.
abbrev pub root_or_zero : Option Bytes32 → Bytes32
root_or_zero none = zero_bytes32
root_or_zero (some r) = r

unfoldable pub merkle_root : {S : Type 0} → Aggregator S → ℕ → Bytes32
merkle_root agg index = root_or_zero (Map.get agg.batches_root_by_idx index)

module _ (eth : EthClient) where
  open eth use {World, Receipt, sleep}

  -- A call of the chain, with the metric beside it.
  unfoldable pub on_chain : {A : Type 0} → Call World A → Call (Sending World) A
  on_chain call s = (record s { world = (call s.world).0 }, (call s.world).1)

  unfoldable pub inc_aggregated_responses : Receipt → Call (Sending World) Receipt
  inc_aggregated_responses r s =
      (record s { aggregated_responses = s.aggregated_responses + 1 }, ok r)

  -- The wallet mutex is held during the call of the writer alone, which other goroutines thus see as
  -- one step.
  unfoldable pub send_aggregated_response :
      Bytes32 → NonSignerStakesAndSignature → Call (Sending World) Receipt
  unfolding on_chain inc_aggregated_responses
  send_aggregated_response root stakes = do
    hash ← on_chain (Writer.send_aggregated_response eth root stakes)
    receipt ← on_chain (wait_for_transaction_receipt eth hash)
    inc_aggregated_responses receipt

  unfoldable pub pause : Error → Sending World → Sending World
  pause e s = record s { world = sleep 2 s.world }

  abbrev pub outcome : Option Receipt → Handled Receipt
  outcome none = lost
  outcome (some r) = responded r

  -- The loop over the attempts to answer.
  unfoldable pub respond :
      Bytes32 → NonSignerStakesAndSignature → Sending World → Sending World × Handled Receipt
  unfolding retry pause
  respond root stakes s =
      let (s', r) = retry (send_aggregated_response root stakes) pause max_sent_tx_retries s in
      (s', outcome r)

  module _ {S F : Type 0} (big_int : F → ℕ) (agg : Aggregator S) where
    unfoldable pub handle_bls_agg_service_response :
        BlsAggServiceResponse F → Sending World → Sending World × Handled Receipt
    unfolding merkle_root
    handle_bls_agg_service_response resp s = elim resp.error [
      | some e ↦ (s, service_error e)
      | none ↦
          respond (merkle_root agg resp.task_index) (non_signer_stakes_and_signature big_int resp) s
    ]
