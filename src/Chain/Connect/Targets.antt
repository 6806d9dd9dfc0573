-- ===== src/Chain/Connect/Targets.antt =====
-- Which contract, node and chain the connections of a program go to.
use beluuga.Prelude.{◌≡◌, arith}
use beluuga.Errors.{ok}
use beluuga.Config.Keys.{KeyFiles}
use beluuga.Config.Base.{Services}
use beluuga.Chain.Connect.{
  Sdk, AvsWriter, AvsReader, AvsSubscriber, Base, Ecdsa, Bindings, new_avs_service_bindings,
  new_avs_writer_from_config, new_avs_reader_from_config, new_avs_subscriber_from_config,
}

module _ (services : Services) (keys : KeyFiles) (sdk : Sdk services keys) where
  -- The reader, the writer and the subscriber of one config, where all three could be made, talk to the
  -- same contract, the service manager of the deployment: the first two over the RPC client, the
  -- subscriber over the websocket; and the writer signs for the chain of the config.
  pub connections_share_contract :
      (base : Base services keys sdk) (ecdsa : Ecdsa services keys sdk)
      (reader : AvsReader sdk.RegistryReader (Bindings services keys sdk))
      (writer : AvsWriter sdk.RegistryWriter
        (Bindings services keys sdk)
        keys.Signer
        services.Client)
      (subscriber : AvsSubscriber (Bindings services keys sdk))
      → new_avs_reader_from_config services keys sdk base ecdsa ≡ ok reader
      → new_avs_writer_from_config services keys sdk base ecdsa ≡ ok writer
      → new_avs_subscriber_from_config services keys sdk base ≡ ok subscriber
      → let address = base.aligned_layer_deployment_config.aligned_layer_service_manager_addr in
        (sdk.new_service_manager address base.eth_rpc_client
          ≡ ok reader.avs_contract_bindings.service_manager)
        × (sdk.new_service_manager address base.eth_rpc_client
            ≡ ok writer.avs_contract_bindings.service_manager)
        × (sdk.new_service_manager address base.eth_ws_client
            ≡ ok subscriber.avs_contract_bindings.service_manager)
        × (keys.new_private_key_signer ecdsa.private_key base.chain_id ≡ ok writer.signer)
        × (writer.client ≡ base.eth_rpc_client)
  unfolding new_avs_reader_from_config new_avs_writer_from_config new_avs_subscriber_from_config
      new_avs_service_bindings
  connections_share_contract base ecdsa reader writer subscriber hr hw hs = ground arith
