-- ===== src/Config/Base/Complete.antt =====
-- What a base config that could be loaded holds.
use beluuga.Prelude.{
  ◌≡◌, ◌≢◌, ◌==◌, Bool, true, false, Option, none, some, String, inl, inr, refl, sym, ap, ◌∙◌,
  arith, eq_refl_key,
}
use beluuga.Prelude.Keys.{nat_eq, string_eq}
use beluuga.Errors.{Result, Result-cases, ok, err}
use beluuga.Go.Outcome.{Outcome, returned, panicked, exited, blocked, ◌>>=◌, ◌>>◌}
use beluuga.Config.Deployment.{
  AlignedLayerDeploymentConfig, EigenLayerDeploymentConfig, DeploymentFiles, fatal_if, or_fatal,
  not_nil, new_aligned_layer_deployment_config, new_eigen_layer_deployment_config,
}
use beluuga.Config.Base.{BaseConfigFromYaml, Services, BaseConfig, new_base_config, with_chain_id}

pub passed {ℓ κ} :
    {A : Type ℓ} {P : Type κ} (b : Bool) {k : Outcome A} {a : A}
    → (fatal_if b >> k) ≡ returned a
    → (b ≡ false → k ≡ returned a → P)
    → P
passed true h f = absurd (cc)
passed false h f = f refl h

pub read {ℓ κ μ} :
    {A : Type ℓ} {B : Type κ} {P : Type μ} (r : Result A) (k : A → Outcome B) {b : B}
    → (or_fatal r >>= k) ≡ returned b
    → ((a : A) → r ≡ ok a → k a ≡ returned b → P)
    → P
read (ok a) k h f = f a refl h
read (err e) k h f = absurd (cc)

pub found {ℓ κ μ} :
    {A : Type ℓ} {B : Type κ} {P : Type μ} (r : Outcome (Option A)) (k : A → Outcome B) {b : B}
    → (r >>= λ o. not_nil o >>= k) ≡ returned b
    → ((a : A) → r ≡ returned (some a) → k a ≡ returned b → P)
    → P
found (returned (some a)) k h f = f a refl h
found (returned none) k h f = absurd (cc)
found panicked k h f = absurd (cc)
found exited k h f = absurd (cc)
found blocked k h f = absurd (cc)

differ : {a b : String} → (a == b) ≡ false → a ≢ b
differ {a} h e = cc (h, e, eq_refl_key a)

pub config_injective {ℓ} : {A : Type ℓ} {a b : A} → returned (some a) ≡ returned (some b) → a ≡ b
config_injective h = cc

-- No contract address is zero and no URL is empty; the chain id and the clients are the node's.
pub record IsComplete (services : Services) (c : BaseConfig services.Logger services.Client)
    : Type 0 where
  pub service_manager : c.aligned_layer_deployment_config.aligned_layer_service_manager_addr ≢ 0
  pub registry_coordinator :
      c.aligned_layer_deployment_config.aligned_layer_registry_coordinator_addr ≢ 0
  pub state_retriever :
      c.aligned_layer_deployment_config.aligned_layer_operator_state_retriever_addr ≢ 0
  pub delegation_manager : c.eigen_layer_deployment_config.delegation_manager_addr ≢ 0
  pub avs_directory : c.eigen_layer_deployment_config.avs_directory_addr ≢ 0
  pub slasher : c.eigen_layer_deployment_config.slasher_addr ≢ 0
  pub rpc_url : c.eth_rpc_url ≢ ""
  pub ws_url : c.eth_ws_url ≢ ""
  pub metrics_address : c.eigen_metrics_ip_port_address ≢ ""
  pub rpc_client : services.new_client c.eth_rpc_url ≡ ok c.eth_rpc_client
  pub ws_client : services.new_client c.eth_ws_url ≡ ok c.eth_ws_client
  pub chain : services.chain_id c.eth_rpc_client ≡ ok c.chain_id

module _ (files : DeploymentFiles) where
  aligned_addresses :
      (path : String) {c : AlignedLayerDeploymentConfig}
      → new_aligned_layer_deployment_config files path ≡ returned (some c)
      → (c.aligned_layer_service_manager_addr ≢ 0)
        × (c.aligned_layer_registry_coordinator_addr ≢ 0)
        × (c.aligned_layer_operator_state_retriever_addr ≢ 0)
  unfolding new_aligned_layer_deployment_config
  aligned_addresses path h = ground arith

  eigen_addresses :
      (path : String) {c : EigenLayerDeploymentConfig}
      → new_eigen_layer_deployment_config files path ≡ returned (some c)
      → (c.delegation_manager_addr ≢ 0) × (c.avs_directory_addr ≢ 0) × (c.slasher_addr ≢ 0)
  unfolding new_eigen_layer_deployment_config
  eigen_addresses path h = ground arith

  module _ (read_base_yaml : String → Result BaseConfigFromYaml) (services : Services) where
    -- A config that `with_chain_id` builds.
    Built :
        BaseConfigFromYaml
        → AlignedLayerDeploymentConfig
        → EigenLayerDeploymentConfig
        → services.Client
        → services.Client
        → BaseConfig services.Logger services.Client
        → Type 0
    Built yaml aligned eigen ws rpc c =
        (c.aligned_layer_deployment_config ≡ aligned)
        × (c.eigen_layer_deployment_config ≡ eigen)
        × (c.eth_rpc_url ≡ yaml.eth_rpc_url)
        × (c.eth_ws_url ≡ yaml.eth_ws_url)
        × (c.eth_rpc_client ≡ rpc)
        × (c.eth_ws_client ≡ ws)
        × (c.eigen_metrics_ip_port_address ≢ "")
        × (services.chain_id rpc ≡ ok c.chain_id)

    built :
        (yaml : BaseConfigFromYaml) (aligned : AlignedLayerDeploymentConfig)
        (eigen : EigenLayerDeploymentConfig) (logger : services.Logger) (ws rpc : services.Client)
        {c : BaseConfig services.Logger services.Client}
        → with_chain_id files read_base_yaml services yaml aligned eigen logger ws rpc
            (services.chain_id rpc)
          ≡ returned (some c)
        → Built yaml aligned eigen ws rpc c
    unfolding with_chain_id Built
    built yaml aligned eigen logger ws rpc {c} h = elim (Result-cases (services.chain_id rpc)) [
      | inr (e, bad) ↦ absurd (ground (arith, bad))
      | inl (id, r) ↦
          passed (yaml.eigen_metrics_ip_port_address == "") (rw r at h)
            (λ e h'. rw (← config_injective h') (refl, refl, refl, refl, refl, refl, differ e, r))
    ]

    completed :
        (yaml : BaseConfigFromYaml) (aligned : AlignedLayerDeploymentConfig)
        (eigen : EigenLayerDeploymentConfig) (ws rpc : services.Client)
        {c : BaseConfig services.Logger services.Client}
        → (aligned.aligned_layer_service_manager_addr ≢ 0)
          × (aligned.aligned_layer_registry_coordinator_addr ≢ 0)
          × (aligned.aligned_layer_operator_state_retriever_addr ≢ 0)
        → (eigen.delegation_manager_addr ≢ 0)
          × (eigen.avs_directory_addr ≢ 0)
          × (eigen.slasher_addr ≢ 0)
        → (yaml.eth_ws_url == "") ≡ false
        → services.new_client yaml.eth_ws_url ≡ ok ws
        → (yaml.eth_rpc_url == "") ≡ false
        → services.new_client yaml.eth_rpc_url ≡ ok rpc
        → Built yaml aligned eigen ws rpc c
        → IsComplete services c
    unfolding Built
    completed yaml aligned eigen ws rpc (a0, a1, a2) (g0, g1, g2) w w' r r'
          (b0, b1, b2, b3, b4, b5, b6, b7) =
        record {
          service_manager = rw b0 a0;
          registry_coordinator = rw b0 a1;
          state_retriever = rw b0 a2;
          delegation_manager = rw b1 g0;
          avs_directory = rw b1 g1;
          slasher = rw b1 g2;
          rpc_url = λ q. differ r (sym b2 ∙ q);
          ws_url = λ q. differ w (sym b3 ∙ q);
          metrics_address = b6;
          rpc_client = ap services.new_client b2 ∙ r' ∙ sym (ap ok b4);
          ws_client = ap services.new_client b3 ∙ w' ∙ sym (ap ok b5);
          chain = ap services.chain_id b4 ∙ b7;
        }

    pub base-IsComplete :
        (path : String) {c : BaseConfig services.Logger services.Client}
        → new_base_config files read_base_yaml services path ≡ returned (some c)
        → IsComplete services c
    unfolding new_base_config
    base-IsComplete path {c} h = passed (files.missing path) h (λ e1 h1.
        read (read_base_yaml path) _ h1 (λ yaml e2 h2.
          passed (yaml.aligned_layer_deployment_config_file_path == "") h2 (λ e3 h3.
            passed (files.missing yaml.aligned_layer_deployment_config_file_path) h3 (λ e4 h4.
              found
                (new_aligned_layer_deployment_config files
                  yaml.aligned_layer_deployment_config_file_path)
                _ h4
                (λ aligned e5 h5.
                  passed (yaml.eigen_layer_deployment_config_file_path == "") h5 (λ e6 h6.
                    passed (files.missing yaml.eigen_layer_deployment_config_file_path) h6 (λ e7 h7.
                      found
                        (new_eigen_layer_deployment_config files
                          yaml.eigen_layer_deployment_config_file_path)
                        _ h7
                        (λ eigen e8 h8.
                          read (services.new_zap_logger yaml.environment) _ h8 (λ logger e9 h9.
                            passed (yaml.eth_ws_url == "") h9 (λ e10 h10.
                              read (services.new_client yaml.eth_ws_url) _ h10 (λ ws e11 h11.
                                passed (yaml.eth_rpc_url == "") h11 (λ e12 h12.
                                  read (services.new_client yaml.eth_rpc_url) _ h12 (λ rpc e13 h13.
                                    completed yaml aligned eigen ws rpc (aligned_addresses _ e5)
                                      (eigen_addresses _ e8) e10 e11 e12 e13
                                      (built yaml aligned eigen logger ws rpc h13))))))))))))))
