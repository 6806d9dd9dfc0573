-- ===== src/Examples/Commands.antt =====
-- The commands of an operator, run once.
use mathlib.Core.List.{reverse}
use beluuga.Prelude.{ℕ, ◌+◌, ◌≡◌, String, List, [], ◌∷◌, some, refl}
use beluuga.Prelude.Int.{pos_part}
use beluuga.Prelude.Keys.{string_eq}
use beluuga.Errors.{ok}
use beluuga.Types.{Bytes32}
use beluuga.Go.Outcome.{returned}
use beluuga.Config.Deployment.{
  new_aligned_layer_deployment_config, new_eigen_layer_deployment_config,
}
use beluuga.Config.Keys.{new_ecdsa_config, new_bls_config}
use beluuga.Config.Base.{new_base_config}
use beluuga.Config.Programs.{OperatorConfig, new_operator_config}
use beluuga.Chain.Connect.{
  new_avs_reader_from_config, new_avs_writer_from_config, new_avs_subscriber_from_config,
  new_avs_service_bindings,
}
use beluuga.Operator.Setup.{new_operator_from_config, register_operator}
use beluuga.Operator.Download.{get_batch_from_s3}
use beluuga.Operator.Verify.{verify, verify_sp1_proof}
use beluuga.Operator.Process.{process_new_batch_log}
use beluuga.Operator.Run.{start}
use beluuga.Operator.Commands.{Staking, Looping, operator_main}
use beluuga.Operator.Commands.Started.{Runs, operator_main-Runs}
use beluuga.Examples.Configs.{from, sdk}
use beluuga.Examples.Setup.{registration}
use beluuga.Examples.Batches.{libs, http, subs, events, idle, reverse-Reorders}

-- The world is what has been deposited.
abbrev pub staking : Staking from
staking = record {
  World = ℕ;
  SignerFn = String × ℕ;
  Wallet = String × ℕ;
  TxManager = String × ℕ;
  ElChainWriter = String × ℕ;
  hex_to_address = λ text. 77;
  signer_from_config = λ key chain. ok (key, chain);
  new_private_key_wallet = λ client signer address logger. ok signer;
  new_simple_tx_manager = λ wallet client logger address. wallet;
  build_el_chain_writer = λ delegation directory client logger manager. ok manager;
  deposit_erc20_into_strategy = λ writer strategy amount w. (w + pos_part amount, ok tt);
}

abbrev pub sign : String → Bytes32 → List ℕ
sign pair root = root

abbrev Running : Type 0
Running =
    Looping from sdk registration (λ path config. ok config) subs libs http reverse sign idle 0

abbrev running : Running
running = record {
  state = record { world = 4; operator_task_responses = 1 };
  chain = 2;
  sub = some 1;
  sent = record { batch_merkle_root = 4 ∷ []; bls_signature = 4 ∷ []; operator_id = 6 ∷ [] } ∷ [];
}

operator_main-Runs_example :
    (first : OperatorConfig from) × (config : OperatorConfig from) × (new_operator_config from
        "config.yaml"
      ≡ returned first)
    × (ok first ≡ ok config)
    × Runs from sdk registration
        (λ path c. ok c)
        subs
        libs
        http
        reverse
        sign
        idle
        0
        config
        events
        running
unfolding operator_main new_operator_from_config new_operator_config new_base_config
    new_aligned_layer_deployment_config new_eigen_layer_deployment_config new_ecdsa_config
    new_bls_config start verify process_new_batch_log get_batch_from_s3 verify_sp1_proof
    new_avs_reader_from_config new_avs_writer_from_config new_avs_subscriber_from_config
    new_avs_service_bindings register_operator
operator_main-Runs_example =
    operator_main-Runs from sdk registration (λ path config. ok config) subs libs http reverse sign
      idle 0 "config.yaml" events 0 reverse-Reorders refl
