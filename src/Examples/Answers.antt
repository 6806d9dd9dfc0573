-- ===== src/Examples/Answers.antt =====
-- A chain that simulates and sends every transaction, and one without receipts.
use beluuga.Prelude.{ℕ, suc, ◌+◌, ◌≡◌, false, none, [], ◌∷◌, refl, arith, if◌then◌else◌}
use beluuga.Prelude.Keys.{nat_eq, bytes_eq}
use beluuga.Errors.{Result, ok, err, library}
use beluuga.Types.{Bytes32}
use beluuga.Go.Map
use beluuga.Retry.{FailsFor, world_after, next}
use beluuga.Chain.Client.{EthClient, TxOpts, Tx, NonSignerStakesAndSignature}
use beluuga.Chain.Points.{G1Point}
use beluuga.Chain.Receipt.{wait_for_transaction_receipt}
use beluuga.Chain.Writer
use beluuga.Chain.Writer.{
  gas_with_margin, gas_with_margin_bounds, NoSendKeeps, simulation_fails, simulation_passes,
}
use beluuga.Aggregator.State.{Aggregator, new_aggregator}
use beluuga.Aggregator.Registry.{Represents, index_of}
use beluuga.Aggregator.AddTask.{Represents-new_aggregator, Represents-append}
use beluuga.Aggregator.Respond.{
  BlsAggServiceResponse, Sending, responded, lost, pause, send_aggregated_response,
  handle_bls_agg_service_response,
}
use beluuga.Aggregator.Respond.Attempts.{
  answers_with, answered, handle_counts, handle_responds, handle_loses,
}

-- A transaction that is sent costs one unit of the world.
abbrev respond_to : TxOpts → Bytes32 → NonSignerStakesAndSignature → ℕ → ℕ × Result Tx
respond_to opts root stakes w =
    ((if opts.no_send then w else suc w), ok (record { gas = 1000; hash = root }))

abbrev pub good : EthClient
good = record {
  World = ℕ;
  Receipt = Bytes32;
  transaction_receipt = λ hash w. (w, ok hash);
  get_tx_opts = record { no_send = false; gas_limit = 0 };
  create_new_task = λ opts root pointer w. (suc w, ok (record { gas = 10; hash = root }));
  respond_to_task = respond_to;
  sleep = λ n w. w + n;
}

-- Every simulation fails.
abbrev refusing : EthClient
refusing = record good { respond_to_task = λ opts root stakes w. (w, err (library "reverted")) }

abbrev root : Bytes32
root = 8 ∷ []

abbrev one_root : Aggregator ℕ
one_root = record {
  batches_root_by_idx = Map.put Map.make 0 root;
  batches_idx_by_root = Map.put Map.make root 0;
  next_batch_index = 1;
  task_mutex = false;
  bls_aggregation_service = 1;
}

one_root-Represents : Represents one_root (root ∷ [])
unfolding new_aggregator index_of
one_root-Represents =
    Represents-append (Represents-new_aggregator {S = ℕ} 0) root one_root (omega arith) refl refl
      refl refl

abbrev coordinates : G1Point ℕ
coordinates = record { x = 5; y = 6 }

abbrev pub resp : BlsAggServiceResponse ℕ
resp = record {
  error = none;
  task_index = 0;
  non_signers_pubkeys_g1 = [];
  quorum_apks_g1 = [];
  signers_apk_g2 = record { x = record { a0 = 2; a1 = 1 }; y = record { a0 = 4; a1 = 3 } };
  signers_agg_sig_g1 = coordinates;
  non_signer_quorum_bitmap_indices = [];
  quorum_apk_indices = [];
  total_stake_indices = [];
  non_signer_stake_indices = [];
}

abbrev pub as_number : ℕ → ℕ
as_number x = x

abbrev quiet : Sending ℕ
quiet = record { world = 0; aggregated_responses = 0 }

no_attempt : FailsFor (answers_with good as_number root resp) (pause good) 0 quiet
no_attempt j lt = absurd (omega arith)

handle_responds_example :
    handle_bls_agg_service_response good as_number one_root resp quiet
    ≡ (record { world = 1; aggregated_responses = 1 }, responded root)
unfolding world_after send_aggregated_response Writer.send_aggregated_response
    wait_for_transaction_receipt
handle_responds_example =
    handle_responds good as_number one_root (root ∷ []) root resp quiet one_root-Represents refl
      refl 0 root (omega arith) no_attempt refl

no_receipts : FailsFor (answers_with refusing as_number root resp) (pause refusing) 5 quiet
unfolding send_aggregated_response Writer.send_aggregated_response
no_receipts j lt = (library "reverted", refl)

handle_loses_example :
    handle_bls_agg_service_response refusing as_number one_root resp quiet
    ≡ (record { world = 10; aggregated_responses = 0 }, lost)
unfolding world_after next send_aggregated_response Writer.send_aggregated_response pause
handle_loses_example =
    handle_loses refusing as_number one_root (root ∷ []) root resp quiet one_root-Represents refl
      refl no_receipts

handle_counts_example :
    (handle_bls_agg_service_response good as_number one_root resp quiet).0.aggregated_responses
    ≡ 0 + answered (handle_bls_agg_service_response good as_number one_root resp quiet).1
handle_counts_example = handle_counts good as_number one_root resp quiet
