-- ===== src/Config/Programs.antt =====
-- core/config/aggregator.go, core/config/operator.go and core/config/task_sender.go: the three programs'
-- configs, each on top of the base config and the key stores.
pub mod Loading
use beluuga.Prelude.{ℕ, Bool, Option, none, some, String}
use beluuga.Prelude.Int.{ℤ}
use beluuga.Errors.{Error, Result, ok, err}
use beluuga.Go.Outcome.{Outcome, returned, exited, ◌>>=◌, ◌>>◌}
use beluuga.Config.Deployment.{
  Address, AlignedLayerDeploymentConfig, DeploymentFiles, fatal_if, or_fatal, not_nil,
}
use beluuga.Config.Keys.{KeyFiles, EcdsaConfig, BlsConfig, new_ecdsa_config, new_bls_config}
use beluuga.Config.Base.{BaseConfigFromYaml, Services, BaseConfig, new_base_config}

pub record AggregatorSection : Type 0 where
  pub server_ip_port_address : String
  pub bls_public_key_compendium_address : Address
  pub avs_service_manager_address : Address
  pub enable_metrics : Bool
  pub metrics_ip_port_address : String

pub record OperatorSection : Type 0 where
  pub aggregator_server_ip_port_address : String
  pub address : Address
  pub earnings_receiver_address : Address
  pub delegation_approver_address : Address
  pub staker_opt_out_window_blocks : ℤ
  pub metadata_url : String
  pub register_operator_on_startup : Bool
  pub enable_metrics : Bool
  pub metrics_ip_port_address : String
  pub max_batch_size : ℤ

-- All that a config is read from.
pub record Sources : Type 1 where
  pub files : DeploymentFiles
  pub read_base_yaml : String → Result BaseConfigFromYaml
  pub read_aggregator_yaml : String → Result AggregatorSection
  pub read_operator_yaml : String → Result OperatorSection
  pub services : Services
  pub keys : KeyFiles

module _ (from : Sources) where
  abbrev pub Base : Type 0
  Base = BaseConfig from.services.Logger from.services.Client

  abbrev pub Ecdsa : Type 0
  Ecdsa = EcdsaConfig from.keys.EcdsaKey from.keys.Signer

  pub record AggregatorConfig : Type 0 where
    pub base_config : Base
    pub ecdsa_config : Ecdsa
    pub bls_config : BlsConfig from.keys.BlsKeyPair
    pub aggregator : AggregatorSection

  pub record OperatorConfig : Type 0 where
    pub base_config : Base
    pub ecdsa_config : Ecdsa
    pub bls_config : BlsConfig from.keys.BlsKeyPair
    pub aligned_layer_deployment_config : AlignedLayerDeploymentConfig
    pub operator : OperatorSection

  pub record TaskSenderConfig : Type 0 where
    pub base_config : Base
    pub ecdsa_config : Ecdsa

  abbrev pub base_of : String → Outcome (Option Base)
  base_of path = new_base_config from.files from.read_base_yaml from.services path

  unfoldable pub new_aggregator_config : String → Outcome AggregatorConfig
  new_aggregator_config path = do
    fatal_if (from.files.missing path)
    b ← base_of path
    base ← not_nil b
    e ← new_ecdsa_config from.keys path base.chain_id
    ecdsa ← not_nil e
    k ← new_bls_config from.keys path
    bls ← not_nil k
    section ← or_fatal (from.read_aggregator_yaml path)
    returned (record {
      base_config = base;
      ecdsa_config = ecdsa;
      bls_config = bls;
      aggregator = section;
    })

  unfoldable pub new_operator_config : String → Outcome OperatorConfig
  new_operator_config path = do
    fatal_if (from.files.missing path)
    b ← base_of path
    base ← not_nil b
    e ← new_ecdsa_config from.keys path base.chain_id
    ecdsa ← not_nil e
    k ← new_bls_config from.keys path
    bls ← not_nil k
    section ← or_fatal (from.read_operator_yaml path)
    returned (record {
      base_config = base;
      ecdsa_config = ecdsa;
      bls_config = bls;
      aligned_layer_deployment_config = base.aligned_layer_deployment_config;
      operator = section;
    })

  unfoldable pub new_task_sender_config : String → Outcome TaskSenderConfig
  new_task_sender_config path = do
    fatal_if (from.files.missing path)
    b ← base_of path
    base ← not_nil b
    e ← new_ecdsa_config from.keys path base.chain_id
    ecdsa ← not_nil e
    returned (record { base_config = base; ecdsa_config = ecdsa })
