-- ===== src/Examples/Configs.antt =====
-- A config that is read from small files.
use beluuga.Prelude.{ℕ, true, false, String, refl}
use beluuga.Prelude.Int.{pos}
use beluuga.Prelude.Keys.{nat_eq, string_eq}
use beluuga.Errors.{ok}
use beluuga.Config.Deployment.{
  DeploymentFiles, AlignedLayerDeploymentConfig, EigenLayerDeploymentConfig,
  new_aligned_layer_deployment_config, new_eigen_layer_deployment_config,
}
use beluuga.Config.Keys.{KeyFiles, KeyStore, EcdsaConfig, new_ecdsa_config, new_bls_config}
use beluuga.Config.Base.{Services, BaseConfig, new_base_config}
use beluuga.Config.Base.Complete.{IsComplete}
use beluuga.Config.Programs.{Sources, OperatorSection, AggregatorSection, new_operator_config}
use beluuga.Config.Programs.Loading.{SignsFor, operator_config-IsComplete}
use beluuga.Chain.Connect.{Sdk}

abbrev pub aligned : AlignedLayerDeploymentConfig
aligned = record {
  aligned_layer_service_manager_addr = 11;
  aligned_layer_registry_coordinator_addr = 12;
  aligned_layer_operator_state_retriever_addr = 13;
}

abbrev eigen : EigenLayerDeploymentConfig
eigen = record { delegation_manager_addr = 21; avs_directory_addr = 22; slasher_addr = 23 }

abbrev deployment : DeploymentFiles
deployment = record {
  missing = λ path. false;
  read_aligned_layer = λ path. ok aligned;
  read_eigen_layer = λ path. ok eigen;
}

abbrev pub services : Services
services = record {
  Logger = String;
  Client = String;
  new_zap_logger = λ level. ok level;
  new_client = λ url. ok url;
  chain_id = λ client. ok 17000;
}

abbrev store : KeyStore
store = record { private_key_store_path = "key.json"; private_key_store_password = "" }

abbrev pub keys : KeyFiles
keys = record {
  EcdsaKey = String;
  Signer = String × ℕ;
  BlsKeyPair = String;
  missing = λ path. false;
  read_ecdsa_yaml = λ path. ok store;
  read_bls_yaml = λ path. ok store;
  read_ecdsa_key = λ path password. ok path;
  new_private_key_signer = λ key chain. ok (key, chain);
  read_bls_key = λ path password. ok path;
}

abbrev pub operator_section : OperatorSection
operator_section = record {
  aggregator_server_ip_port_address = "localhost:8090";
  address = 31;
  earnings_receiver_address = 31;
  delegation_approver_address = 0;
  staker_opt_out_window_blocks = pos 0;
  metadata_url = "";
  register_operator_on_startup = true;
  enable_metrics = false;
  metrics_ip_port_address = "";
  max_batch_size = pos 268435456;
}

abbrev pub aggregator_section : AggregatorSection
aggregator_section = record {
  server_ip_port_address = "localhost:8090";
  bls_public_key_compendium_address = 41;
  avs_service_manager_address = 11;
  enable_metrics = false;
  metrics_ip_port_address = "";
}

abbrev pub from : Sources
from = record {
  files = deployment;
  read_base_yaml = λ path. ok (record {
    aligned_layer_deployment_config_file_path = "aligned.json";
    eigen_layer_deployment_config_file_path = "eigen.json";
    environment = "production";
    eth_rpc_url = "http://node";
    eth_ws_url = "ws://node";
    eigen_metrics_ip_port_address = "localhost:9090";
  });
  read_aggregator_yaml = λ path. ok aggregator_section;
  read_operator_yaml = λ path. ok operator_section;
  services = services;
  keys = keys;
}

abbrev pub base : BaseConfig String String
base = record {
  aligned_layer_deployment_config = aligned;
  eigen_layer_deployment_config = eigen;
  logger = "production";
  eth_rpc_url = "http://node";
  eth_ws_url = "ws://node";
  eth_rpc_client = "http://node";
  eth_ws_client = "ws://node";
  eigen_metrics_ip_port_address = "localhost:9090";
  chain_id = 17000;
}

abbrev pub ecdsa : EcdsaConfig String (String × ℕ)
ecdsa = record { private_key = "key.json"; signer = ("key.json", 17000) }

operator_config-IsComplete_example : IsComplete services base × SignsFor from 17000 ecdsa
unfolding new_operator_config new_base_config new_aligned_layer_deployment_config
    new_eigen_layer_deployment_config new_ecdsa_config new_bls_config
operator_config-IsComplete_example = operator_config-IsComplete from "config.yaml" refl

abbrev pub sdk : Sdk services keys
sdk = record {
  RegistryReader = ℕ;
  RegistryWriter = ℕ;
  ServiceManager = ℕ × String;
  RegistrySubscriber = ℕ;
  build_all = λ config key logger. ok (record {
    avs_registry_chain_reader = 1;
    avs_registry_chain_writer = 2;
    avs_registry_chain_subscriber = 3;
  });
  new_service_manager = λ address client. ok (address, client);
}
