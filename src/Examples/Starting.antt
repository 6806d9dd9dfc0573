-- ===== src/Examples/Starting.antt =====
-- An aggregator that starts without metrics and gets two answers of the BLS service.
use beluuga.Prelude.{ℕ, suc, false, none, [], ◌∷◌, refl}
use beluuga.Errors.{ok}
use beluuga.Go.Outcome.{returned}
use beluuga.Metrics.{Prometheus, new_metrics}
use beluuga.Config.Deployment.{
  new_aligned_layer_deployment_config, new_eigen_layer_deployment_config,
}
use beluuga.Config.Keys.{new_ecdsa_config, new_bls_config}
use beluuga.Config.Base.{new_base_config}
use beluuga.Config.Programs.{new_aggregator_config}
use beluuga.Chain.Connect.{
  new_avs_service_bindings, new_avs_reader_from_config, new_avs_writer_from_config,
  new_avs_subscriber_from_config,
}
use beluuga.Aggregator.State.{new_aggregator}
use beluuga.Aggregator.Setup.{AvsServices, BuiltAggregator, connect}
use beluuga.Aggregator.Start.{
  RpcServer, response, metrics_served, on_event, start_events, new_aggregator_from_config,
  aggregator_main,
}
use beluuga.Aggregator.Commands.{main}
use beluuga.Aggregator.Commands.Started.{Started, main-Started}
use beluuga.Examples.Parser.{run_program, cli}
use beluuga.Examples.Configs.{from, sdk, aggregator_section}
use beluuga.Examples.Answers.{resp}

abbrev avs : AvsServices from sdk
avs = record {
  OperatorPubkeysService = ℕ;
  AvsRegistryService = ℕ;
  Service = ℕ;
  new_operator_pubkeys_service = λ subscriber reader logger. subscriber;
  new_avs_registry_service = λ reader pubkeys logger. reader;
  new_bls_aggregator_service = λ registry logger. registry;
}

-- A registry that counts its counters.
abbrev prom : Prometheus
prom = record {
  Registry = ℕ;
  Counter = ℕ;
  new_registry = 0;
  new_counter = λ namespace name reg. returned (suc reg, 0);
  inc = λ c. suc c;
  listen_and_serve = λ address reg. none;
}

abbrev rpc : RpcServer
rpc = record { register = ok tt; listen_and_serve = λ address. ok tt }

abbrev built : BuiltAggregator from sdk avs prom
built = record {
  aggregator = aggregator_section;
  avs_reader = record {
    avs_registry_reader = 1;
    avs_contract_bindings = record {
      service_manager = (11, "http://node");
      eth_client = "http://node";
    };
  };
  avs_subscriber = record {
    avs_contract_bindings = record {
      service_manager = (11, "ws://node");
      eth_client = "ws://node";
    };
  };
  avs_writer = record {
    avs_registry_writer = 2;
    avs_contract_bindings = record {
      service_manager = (11, "http://node");
      eth_client = "http://node";
    };
    signer = ("key.json", 17000);
    client = "http://node";
  };
  state = new_aggregator 1;
  wallet_mutex = false;
  metrics_reg = 2;
  metrics = record {
    ip_port_address = "";
    num_aggregated_responses = 0;
    num_operator_task_responses = 0;
  };
}

main-Started_example :
    Started from sdk avs prom rpc cli
      ("--config" ∷ "config.yaml" ∷ [])
      (response resp ∷ metrics_served ∷ response resp ∷ [])
      built
      (resp ∷ resp ∷ [])
unfolding main run_program aggregator_main new_aggregator_config new_base_config
    new_aligned_layer_deployment_config new_eigen_layer_deployment_config new_ecdsa_config
    new_bls_config new_aggregator_from_config connect new_avs_reader_from_config
    new_avs_writer_from_config new_avs_subscriber_from_config new_avs_service_bindings new_metrics
    start_events on_event
main-Started_example =
    main-Started from sdk avs prom rpc cli (response resp ∷ metrics_served ∷ response resp ∷ [])
      ("--config" ∷ "config.yaml" ∷ []) built (resp ∷ resp ∷ []) refl
