-- ===== src/Operator/Commands.antt =====
-- operator/cmd/actions: the commands of the operator. The parser of the command line is a library; the
-- commands get the values of their flags.
pub mod Deposits
pub mod Started
pub mod Table
use beluuga.Prelude.{ℕ, ◌==◌, Bool, true, false, String, List, if◌then◌else◌}
use beluuga.Prelude.Int.{ℤ, pos, ltb_ℤ}
use beluuga.Prelude.Keys.{string_eq}
use beluuga.Errors
use beluuga.Errors.{Error, Result, ok, err}
use beluuga.Types.{Bytes32}
use beluuga.Go.Outcome.{Outcome, returned, panicked, exited, blocked}
use beluuga.Go.Script.{Script, ◌>>=◌, ◌>>◌, give, call, load}
use beluuga.Config.Deployment.{Address}
use beluuga.Config.Programs.{Sources, OperatorConfig, new_operator_config}
use beluuga.Chain.Connect.{Sdk}
use beluuga.Operator.Setup.{Registration, register_operator, salt_at, new_operator_from_config}
use beluuga.Operator.Download.{Http}
use beluuga.Operator.Verify.{Verifiers}
use beluuga.Operator.Process.{OperatorState}
use beluuga.Operator.Run.{Event, Subscriptions, Loop, start}

-- What a deposit calls of the EigenLayer SDK and of go-ethereum.
pub record Staking (from : Sources) : Type 1 where
  pub World : Type 0
  pub SignerFn : Type 0
  pub Wallet : Type 0
  pub TxManager : Type 0
  pub ElChainWriter : Type 0
  pub hex_to_address : String → Address
  pub signer_from_config : from.keys.EcdsaKey → ℕ → Result SignerFn
  pub new_private_key_wallet :
      from.services.Client → SignerFn → Address → from.services.Logger → Result Wallet
  pub new_simple_tx_manager :
      Wallet → from.services.Client → from.services.Logger → Address → TxManager
  -- the delegation manager and the directory of the services
  pub build_el_chain_writer :
      Address
      → Address
      → from.services.Client
      → from.services.Logger
      → TxManager
      → Result ElChainWriter
  pub deposit_erc20_into_strategy : ElChainWriter → Address → ℤ → World → World × Result (Unit {0})

module _ (from : Sources) (staking : Staking from) where
  open staking use {World, ElChainWriter}

  unfoldable pub wallet_of : OperatorConfig from → staking.SignerFn → Result staking.Wallet
  wallet_of config signer =
      staking.new_private_key_wallet config.base_config.eth_rpc_client signer
        config.operator.address config.base_config.logger

  -- The writer that pays with the operator's key.
  abbrev pub writer_over : OperatorConfig from → staking.Wallet → Result ElChainWriter
  writer_over config wallet =
      staking.build_el_chain_writer
        config.base_config.eigen_layer_deployment_config.delegation_manager_addr
        config.base_config.eigen_layer_deployment_config.avs_directory_addr
        config.base_config.eth_rpc_client config.base_config.logger
        (staking.new_simple_tx_manager wallet config.base_config.eth_rpc_client
          config.base_config.logger config.operator.address)

  unfoldable pub deposit : OperatorConfig from → String → ℤ → Script World (Unit {0})
  unfolding wallet_of
  deposit config strategy amount = do
    signer ←
        give
          (staking.signer_from_config config.ecdsa_config.private_key config.base_config.chain_id)
    wallet ← give (wallet_of config signer)
    writer ← give (writer_over config wallet)
    call (staking.deposit_erc20_into_strategy writer (staking.hex_to_address strategy) amount)

  -- The flags `amount`, `config` and `strategy-address`.
  unfoldable pub deposit_into_strategy_main : ℤ → String → String → Script World (Unit {0})
  unfolding deposit
  deposit_into_strategy_main amount path strategy =
      if ltb_ℤ (pos 0) amount
      then (load (new_operator_config from path) >>= λ config.
          if strategy == "" then give (ok tt) else deposit config strategy amount)
      else give (ok tt)

module _ (from : Sources) (sdk : Sdk from.services from.keys) (reg : Registration from sdk) where
  unfoldable pub register_operator_main : String → Script reg.World (Unit {0})
  register_operator_main path = do
    config ← load (new_operator_config from path)
    time ← call (λ w. ((reg.now_text w).0, ok (reg.now_text w).1))
    register_operator from sdk reg config (salt_at from sdk reg config time)

  -- `sdkutils.ReadYamlConfig`, which reads the file once more over the config.
  module _ (read_yaml_config : String → OperatorConfig from → Result (OperatorConfig from))
      (subs : Subscriptions) (libs : Verifiers) (http : Http) (order : List Bool → List Bool)
      {Signature : Type 0} (sign_message : from.keys.BlsKeyPair → Bytes32 → Signature)
      (state : OperatorState http.World) (chain : subs.Chain) where
    abbrev pub Looping : Type 0
    Looping = Loop http.World subs.Chain subs.Sub Signature

    -- `Start` with what the operator was built from, up to the events that have come.
    abbrev pub start_with : List Event → OperatorConfig from → Bytes32 → Script reg.World Looping
    start_with events config operator_id = load (
        start subs libs http config.operator.max_batch_size order
          (sign_message config.bls_config.key_pair) operator_id events state chain)

    unfoldable pub operator_main : String → List Event → Script reg.World Looping
    unfolding new_operator_from_config start
    operator_main path events = do
      first ← load (new_operator_config from path)
      config ← give (read_yaml_config path first)
      operator ← new_operator_from_config from sdk reg config
      start_with events config operator.operator_id
