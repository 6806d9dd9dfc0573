-- ===== src/Chain/Connect.antt =====
-- The constructors of core/chainio: bindings.go, avs_writer.go, avs_reader.go and avs_subscriber.go.
pub mod Targets
use beluuga.Prelude.{ℕ, String}
use beluuga.Errors.{Error, Result, ok, err, ◌>>=◌}
use beluuga.Config.Deployment.{Address}
use beluuga.Config.Keys.{KeyFiles, EcdsaConfig}
use beluuga.Config.Base.{Services, BaseConfig}

-- `clients.BuildAllConfig`.
pub record BuildAllConfig : Type 0 where
  pub eth_http_url : String
  pub eth_ws_url : String
  pub registry_coordinator_addr : Address
  pub operator_state_retriever_addr : Address
  pub avs_name : String
  pub prom_metrics_ip_port_address : String

-- `clients.Clients`, with the fields that the program reads.
pub record Clients (RegistryReader RegistryWriter RegistrySubscriber : Type 0) : Type 0 where
  pub avs_registry_chain_reader : RegistryReader
  pub avs_registry_chain_writer : RegistryWriter
  pub avs_registry_chain_subscriber : RegistrySubscriber

-- The constructors of the EigenLayer SDK and of the generated bindings.
pub record Sdk (services : Services) (keys : KeyFiles) : Type 1 where
  pub RegistryReader : Type 0
  pub RegistryWriter : Type 0
  pub RegistrySubscriber : Type 0
  pub ServiceManager : Type 0
  pub build_all :
      BuildAllConfig
      → keys.EcdsaKey
      → services.Logger
      → Result (Clients RegistryReader RegistryWriter RegistrySubscriber)
  pub new_service_manager : Address → services.Client → Result ServiceManager

pub record AvsServiceBindings (ServiceManager Client : Type 0) : Type 0 where
  pub service_manager : ServiceManager
  pub eth_client : Client

pub record AvsReader (RegistryReader Bindings : Type 0) : Type 0 where
  pub avs_registry_reader : RegistryReader
  pub avs_contract_bindings : Bindings

pub record AvsWriter (RegistryWriter Bindings Signer Client : Type 0) : Type 0 where
  pub avs_registry_writer : RegistryWriter
  pub avs_contract_bindings : Bindings
  pub signer : Signer
  pub client : Client

pub record AvsSubscriber (Bindings : Type 0) : Type 0 where
  pub avs_contract_bindings : Bindings

module _ (services : Services) (keys : KeyFiles) (sdk : Sdk services keys) where
  abbrev pub Base : Type 0
  Base = BaseConfig services.Logger services.Client

  abbrev pub Ecdsa : Type 0
  Ecdsa = EcdsaConfig keys.EcdsaKey keys.Signer

  abbrev pub Bindings : Type 0
  Bindings = AvsServiceBindings sdk.ServiceManager services.Client

  -- The address of the operator state retriever is not used.
  unfoldable pub new_avs_service_bindings : Address → Address → services.Client → Result Bindings
  new_avs_service_bindings service_manager_addr bls_operator_state_retriever_addr client = do
    manager ← sdk.new_service_manager service_manager_addr client
    ok (record { service_manager = manager; eth_client = client })

  abbrev pub build_all_config : Base → BuildAllConfig
  build_all_config c = record {
    eth_http_url = c.eth_rpc_url;
    eth_ws_url = c.eth_ws_url;
    registry_coordinator_addr =
        c.aligned_layer_deployment_config.aligned_layer_registry_coordinator_addr;
    operator_state_retriever_addr =
        c.aligned_layer_deployment_config.aligned_layer_operator_state_retriever_addr;
    avs_name = "AlignedLayer";
    prom_metrics_ip_port_address = c.eigen_metrics_ip_port_address;
  }

  -- `NewAvsServiceBindings` on the addresses of the deployment.
  abbrev pub bindings_over : Base → services.Client → Result Bindings
  bindings_over c client =
      new_avs_service_bindings c.aligned_layer_deployment_config.aligned_layer_service_manager_addr
        c.aligned_layer_deployment_config.aligned_layer_operator_state_retriever_addr client

  unfoldable pub new_avs_reader_from_config :
      Base → Ecdsa → Result (AvsReader sdk.RegistryReader Bindings)
  unfolding new_avs_service_bindings
  new_avs_reader_from_config base ecdsa = do
    clients ← sdk.build_all (build_all_config base) ecdsa.private_key base.logger
    bindings ← bindings_over base base.eth_rpc_client
    ok (record {
      avs_registry_reader = clients.avs_registry_chain_reader;
      avs_contract_bindings = bindings;
    })

  unfoldable pub new_avs_writer_from_config :
      Base → Ecdsa → Result (AvsWriter sdk.RegistryWriter Bindings keys.Signer services.Client)
  unfolding new_avs_service_bindings
  new_avs_writer_from_config base ecdsa = do
    clients ← sdk.build_all (build_all_config base) ecdsa.private_key base.logger
    bindings ← bindings_over base base.eth_rpc_client
    signer ← keys.new_private_key_signer ecdsa.private_key base.chain_id
    ok (record {
      avs_registry_writer = clients.avs_registry_chain_writer;
      avs_contract_bindings = bindings;
      signer = signer;
      client = base.eth_rpc_client;
    })

  unfoldable pub new_avs_subscriber_from_config : Base → Result (AvsSubscriber Bindings)
  unfolding new_avs_service_bindings
  new_avs_subscriber_from_config base = do
    bindings ← bindings_over base base.eth_ws_client
    ok (record { avs_contract_bindings = bindings })

  -- `GetErc20Mock`, over the constructor of the token's bindings.
  unfoldable pub get_erc20_mock :
      {Erc20Mock : Type 0}
      → (Address → services.Client → Result Erc20Mock)
      → AvsReader sdk.RegistryReader Bindings
      → Address
      → Result Erc20Mock
  get_erc20_mock new_erc20_mock r address =
      new_erc20_mock address r.avs_contract_bindings.eth_client

  -- `IsOperatorRegistered`, over the call of the registry.
  unfoldable pub is_operator_registered :
      {A : Type 0}
      → (sdk.RegistryReader → Address → A)
      → AvsReader sdk.RegistryReader Bindings
      → Address
      → A
  is_operator_registered ask r address = ask r.avs_registry_reader address
