-- ===== src/Config/Base.antt =====
-- core/config/base.go, with `NewLogger` of core/config/logger.go.
pub mod Complete
use beluuga.Prelude.{ℕ, ◌==◌, Bool, Option, none, some, String}
use beluuga.Prelude.Keys.{string_eq}
use beluuga.Errors.{Error, Result, ok, err}
use beluuga.Go.Outcome.{Outcome, returned, exited, ◌>>=◌, ◌>>◌}
use beluuga.Config.Deployment.{
  AlignedLayerDeploymentConfig, EigenLayerDeploymentConfig, DeploymentFiles,
  new_aligned_layer_deployment_config, new_eigen_layer_deployment_config, fatal_if, or_fatal,
  not_nil,
}

pub record BaseConfigFromYaml : Type 0 where
  pub aligned_layer_deployment_config_file_path : String
  pub eigen_layer_deployment_config_file_path : String
  pub environment : String
  pub eth_rpc_url : String
  pub eth_ws_url : String
  pub eigen_metrics_ip_port_address : String

-- The logging library and the Ethereum node, as they answer while the config is built.
pub record Services : Type 1 where
  pub Logger : Type 0
  pub Client : Type 0
  pub new_zap_logger : String → Result Logger
  pub new_client : String → Result Client
  pub chain_id : Client → Result ℕ

pub record BaseConfig (Logger Client : Type 0) : Type 0 where
  pub aligned_layer_deployment_config : AlignedLayerDeploymentConfig
  pub eigen_layer_deployment_config : EigenLayerDeploymentConfig
  pub logger : Logger
  pub eth_rpc_url : String
  pub eth_ws_url : String
  pub eth_rpc_client : Client
  pub eth_ws_client : Client
  pub eigen_metrics_ip_port_address : String
  pub chain_id : ℕ

module _ (files : DeploymentFiles) (read_base_yaml : String → Result BaseConfigFromYaml)
    (services : Services) where
  unfoldable pub new_logger : String → Result services.Logger
  new_logger level = services.new_zap_logger level

  -- The end of `NewBaseConfig`, once the node was asked for its chain id.
  pub with_chain_id :
      BaseConfigFromYaml
      → AlignedLayerDeploymentConfig
      → EigenLayerDeploymentConfig
      → services.Logger
      → services.Client
      → services.Client
      → Result ℕ
      → Outcome (Option (BaseConfig services.Logger services.Client))
  with_chain_id yaml aligned eigen logger ws rpc (err e) = returned none
  with_chain_id yaml aligned eigen logger ws rpc (ok id) = do
    fatal_if (yaml.eigen_metrics_ip_port_address == "")
    returned (
        some (record {
          aligned_layer_deployment_config = aligned;
          eigen_layer_deployment_config = eigen;
          logger = logger;
          eth_rpc_url = yaml.eth_rpc_url;
          eth_ws_url = yaml.eth_ws_url;
          eth_rpc_client = rpc;
          eth_ws_client = ws;
          eigen_metrics_ip_port_address = yaml.eigen_metrics_ip_port_address;
          chain_id = id;
        }))

  unfoldable pub new_base_config :
      String → Outcome (Option (BaseConfig services.Logger services.Client))
  unfolding new_logger with_chain_id
  new_base_config path = do
    fatal_if (files.missing path)
    yaml ← or_fatal (read_base_yaml path)
    fatal_if (yaml.aligned_layer_deployment_config_file_path == "")
    fatal_if (files.missing yaml.aligned_layer_deployment_config_file_path)
    found ← new_aligned_layer_deployment_config files yaml.aligned_layer_deployment_config_file_path
    aligned ← not_nil found
    fatal_if (yaml.eigen_layer_deployment_config_file_path == "")
    fatal_if (files.missing yaml.eigen_layer_deployment_config_file_path)
    found' ← new_eigen_layer_deployment_config files yaml.eigen_layer_deployment_config_file_path
    eigen ← not_nil found'
    logger ← or_fatal (new_logger yaml.environment)
    fatal_if (yaml.eth_ws_url == "")
    ws ← or_fatal (services.new_client yaml.eth_ws_url)
    fatal_if (yaml.eth_rpc_url == "")
    rpc ← or_fatal (services.new_client yaml.eth_rpc_url)
    with_chain_id yaml aligned eigen logger ws rpc (services.chain_id rpc)
