-- ===== src/Aggregator/Setup.antt =====
-- aggregator/internal/pkg/aggregator.go: the struct `Aggregator`, and what `NewAggregator` connects.
use beluuga.Prelude.{Bool}
use beluuga.Errors.{Result, ok, ◌>>=◌}
use beluuga.Metrics.{Prometheus, Metrics}
use beluuga.Config.Programs.{Sources, AggregatorConfig, AggregatorSection}
use beluuga.Chain.Connect.{
  Sdk, Clients, BuildAllConfig, AvsReader, AvsWriter, AvsSubscriber, Base, Bindings,
  new_avs_reader_from_config, new_avs_writer_from_config, new_avs_subscriber_from_config,
}
use beluuga.Aggregator.State.{Aggregator}

-- The services of the EigenLayer SDK, each made out of the one before.
pub record AvsServices (from : Sources) (sdk : Sdk from.services from.keys) : Type 1 where
  pub OperatorPubkeysService : Type 0
  pub AvsRegistryService : Type 0
  pub Service : Type 0
  pub new_operator_pubkeys_service :
      sdk.RegistrySubscriber → sdk.RegistryReader → from.services.Logger → OperatorPubkeysService
  pub new_avs_registry_service :
      sdk.RegistryReader → OperatorPubkeysService → from.services.Logger → AvsRegistryService
  pub new_bls_aggregator_service : AvsRegistryService → from.services.Logger → Service

-- The fields of the struct `Aggregator`; those that its operations change are in `state`.
pub record Built (Service Reader Subscriber Writer Counter Registry : Type 0) : Type 0 where
  pub aggregator : AggregatorSection
  pub avs_reader : Reader
  pub avs_subscriber : Subscriber
  pub avs_writer : Writer
  pub state : Aggregator Service
  pub wallet_mutex : Bool
  pub metrics_reg : Registry
  pub metrics : Metrics Counter

module _ (from : Sources) (sdk : Sdk from.services from.keys) (avs : AvsServices from sdk)
    (prom : Prometheus) where
  abbrev pub Contract : Type 0
  Contract = Bindings from.services from.keys sdk

  abbrev pub BuiltAggregator : Type 0
  BuiltAggregator =
      Built avs.Service (AvsReader sdk.RegistryReader Contract) (AvsSubscriber Contract)
        (AvsWriter sdk.RegistryWriter Contract from.keys.Signer from.services.Client) prom.Counter
        prom.Registry

  -- The config of the SDK's clients, with an address for the SDK's metrics that is fixed.
  abbrev pub chainio_config : Base from.services from.keys sdk → BuildAllConfig
  chainio_config base = record {
    eth_http_url = base.eth_rpc_url;
    eth_ws_url = base.eth_ws_url;
    registry_coordinator_addr =
        base.aligned_layer_deployment_config.aligned_layer_registry_coordinator_addr;
    operator_state_retriever_addr =
        base.aligned_layer_deployment_config.aligned_layer_operator_state_retriever_addr;
    avs_name = "AlignedLayer";
    prom_metrics_ip_port_address = ":9090";
  }

  -- The BLS aggregation service, over the reader of the aggregator and the clients.
  abbrev pub bls_service :
      from.services.Logger
      → AvsReader sdk.RegistryReader Contract
      → Clients sdk.RegistryReader sdk.RegistryWriter sdk.RegistrySubscriber
      → avs.Service
  bls_service logger reader clients =
      avs.new_bls_aggregator_service
        (avs.new_avs_registry_service reader.avs_registry_reader
          (avs.new_operator_pubkeys_service clients.avs_registry_chain_subscriber
            clients.avs_registry_chain_reader logger)
          logger)
        logger

  -- What the aggregator is connected to: reader, subscriber, writer and BLS aggregation service.
  unfoldable pub connect :
      AggregatorConfig from
      → Result (
          AvsReader sdk.RegistryReader Contract
          × AvsSubscriber Contract
          × AvsWriter sdk.RegistryWriter Contract from.keys.Signer from.services.Client
          × avs.Service)
  connect config = do
    let base = config.base_config
    reader ← new_avs_reader_from_config from.services from.keys sdk base config.ecdsa_config
    subscriber ← new_avs_subscriber_from_config from.services from.keys sdk base
    writer ← new_avs_writer_from_config from.services from.keys sdk base config.ecdsa_config
    clients ← sdk.build_all (chainio_config base) config.ecdsa_config.private_key base.logger
    ok (reader, subscriber, writer, bls_service base.logger reader clients)
