-- ===== src/Config/Deployment.antt =====
-- core/config/aligned_layer_deployment.go and core/config/eigen_layer_deployment.go: the addresses of
-- the contracts, with the three checks that a config file is read through.
use beluuga.Prelude.{ℕ, ◌==◌, Bool, true, false, Option, none, some, String}
use beluuga.Prelude.Keys.{nat_eq}
use beluuga.Errors.{Result, ok, err}
use beluuga.Go.Outcome.{Outcome, returned, exited, ◌>>=◌, ◌>>◌}

-- A `common.Address`, as the number that its 20 bytes write; `common.HexToAddress("")` is 0.
abbrev pub Address : Type 0
Address = ℕ

-- `if b { log.Fatal(...) }`
abbrev pub fatal_if : Bool → Outcome (Unit {0})
fatal_if true = exited
fatal_if false = returned tt

-- `if err != nil { log.Fatal(...) }` after a call.
abbrev pub or_fatal {ℓ} : {A : Type ℓ} → Result A → Outcome A
or_fatal (ok a) = returned a
or_fatal (err e) = exited

-- `if p == nil { log.Fatal(...) }`
abbrev pub not_nil {ℓ} : {A : Type ℓ} → Option A → Outcome A
not_nil none = exited
not_nil (some a) = returned a

pub record AlignedLayerDeploymentConfig : Type 0 where
  pub aligned_layer_service_manager_addr : Address
  pub aligned_layer_registry_coordinator_addr : Address
  pub aligned_layer_operator_state_retriever_addr : Address

pub record EigenLayerDeploymentConfig : Type 0 where
  pub delegation_manager_addr : Address
  pub avs_directory_addr : Address
  pub slasher_addr : Address

-- `missing` is whether `os.Stat` says that there is no such file; the other two are what
-- `ReadJsonConfig` reads.
pub record DeploymentFiles : Type 0 where
  pub missing : String → Bool
  pub read_aligned_layer : String → Result AlignedLayerDeploymentConfig
  pub read_eigen_layer : String → Result EigenLayerDeploymentConfig

module _ (files : DeploymentFiles) where
  unfoldable pub new_aligned_layer_deployment_config :
      String → Outcome (Option AlignedLayerDeploymentConfig)
  new_aligned_layer_deployment_config path = do
    fatal_if (files.missing path)
    config ← or_fatal (files.read_aligned_layer path)
    fatal_if (config.aligned_layer_service_manager_addr == 0)
    fatal_if (config.aligned_layer_registry_coordinator_addr == 0)
    fatal_if (config.aligned_layer_operator_state_retriever_addr == 0)
    returned (some config)

  unfoldable pub new_eigen_layer_deployment_config :
      String → Outcome (Option EigenLayerDeploymentConfig)
  new_eigen_layer_deployment_config path = do
    fatal_if (files.missing path)
    config ← or_fatal (files.read_eigen_layer path)
    fatal_if (config.delegation_manager_addr == 0)
    fatal_if (config.avs_directory_addr == 0)
    fatal_if (config.slasher_addr == 0)
    returned (some config)
