-- ===== src/Aggregator/Start.antt =====
-- `NewAggregator` and `Start` of aggregator/internal/pkg/aggregator.go, `ServeOperators` of server.go, and
-- `aggregatorMain` of aggregator/cmd/main.go. What the goroutines of the process report is a list of
-- events.
pub mod Running
use beluuga.Prelude.{Bool, true, false, Option, none, some, String, List, [], ◌∷◌, ◌++◌}
use beluuga.Errors.{Error, Result, ok, err}
use beluuga.Go.Outcome.{Outcome, returned, exited, ◌>>=◌}
use beluuga.Metrics.{Prometheus, Metrics, new_metrics}
use beluuga.Config.Programs.{Sources, AggregatorConfig, new_aggregator_config}
use beluuga.Chain.Connect.{Sdk, AvsReader, AvsWriter, AvsSubscriber}
use beluuga.Aggregator.State.{new_aggregator}
use beluuga.Aggregator.Respond.{BlsAggServiceResponse}
use beluuga.Aggregator.Setup.{AvsServices, Built, BuiltAggregator, Contract, connect}

-- `rpc.Register` and `http.ListenAndServe`, with the HTTP handler of net/rpc in between.
pub record RpcServer : Type 0 where
  pub register : Result (Unit {0})
  pub listen_and_serve : String → Result (Unit {0})

-- What the main loop receives, or a goroutine beside it ends with.
pub data Event (F : Type 0) : Type 0 where
  operators_served : Event F
  subscription_ended : Option Error → Event F
  metrics_served : Event F
  response : BlsAggServiceResponse F → Event F

unfoldable pub serve_operators : RpcServer → String → Result (Unit {0})
serve_operators rpc address = elim rpc.register [
  | ok _ ↦ rpc.listen_and_serve address
  | err e ↦ err e
]

-- `logger.Fatal` on an error.
abbrev fatal_on : {A : Type 0} → Result (Unit {0}) → A → Outcome A
fatal_on (ok _) a = returned a
fatal_on (err e) a = exited

module _ (from : Sources) (sdk : Sdk from.services from.keys) (avs : AvsServices from sdk)
    (prom : Prometheus) where
  abbrev pub with_metrics :
      AggregatorConfig from
      → AvsReader sdk.RegistryReader (Contract from sdk avs prom)
      → AvsSubscriber (Contract from sdk avs prom)
      → AvsWriter sdk.RegistryWriter
          (Contract from sdk avs prom)
          from.keys.Signer
          from.services.Client
      → avs.Service
      → prom.Registry × Metrics prom.Counter
      → BuiltAggregator from sdk avs prom
  with_metrics config reader subscriber writer service (reg, metrics) = record {
    aggregator = config.aggregator;
    avs_reader = reader;
    avs_subscriber = subscriber;
    avs_writer = writer;
    state = new_aggregator service;
    wallet_mutex = false;
    metrics_reg = reg;
    metrics = metrics;
  }

  -- An error is returned; the metrics may panic.
  unfoldable pub new_aggregator_from_config :
      AggregatorConfig from → Outcome (Result (BuiltAggregator from sdk avs prom))
  unfolding new_metrics
  new_aggregator_from_config config = elim (connect from sdk avs prom config) [
    | err e ↦ returned (err e)
    | ok (reader, subscriber, writer, service) ↦ do
      m ← new_metrics prom config.aggregator.metrics_ip_port_address prom.new_registry
      returned (ok (with_metrics config reader subscriber writer service m))
  ]

  module _ {F : Type 0} (rpc : RpcServer) where
    -- The responses that a goroutine was started for, the oldest first, behind one more event. Where
    -- the metrics are not enabled nothing is ever sent on their channel; where they are, any message
    -- on it, an error or nil, is fatal.
    unfoldable pub on_event :
        BuiltAggregator from sdk avs prom
        → Event F
        → List (BlsAggServiceResponse F)
        → Outcome (List (BlsAggServiceResponse F))
    unfolding serve_operators
    on_event agg operators_served started =
        fatal_on (serve_operators rpc agg.aggregator.server_ip_port_address) started
    on_event agg (subscription_ended none) started = returned started
    on_event agg (subscription_ended (some e)) started = exited
    on_event agg metrics_served started = elim agg.aggregator.enable_metrics [
      | true ↦ exited
      | false ↦ returned started
    ]
    on_event agg (response r) started = returned (started ++ r ∷ [])

    unfoldable pub start_events :
        BuiltAggregator from sdk avs prom
        → List (Event F)
        → List (BlsAggServiceResponse F)
        → Outcome (List (BlsAggServiceResponse F))
    unfolding on_event
    start_events agg [] started = returned started
    start_events agg (e ∷ es) started = on_event agg e started >>= start_events agg es

    -- An error of `NewAggregator` ends the command.
    abbrev pub run :
        List (Event F)
        → Result (BuiltAggregator from sdk avs prom)
        → Outcome (Result (BuiltAggregator from sdk avs prom × List (BlsAggServiceResponse F)))
    run events (err e) = returned (err e)
    run events (ok agg) = start_events agg events [] >>= λ started. returned (ok (agg, started))

    -- The command, up to the events that have come.
    unfoldable pub aggregator_main :
        String
        → List (Event F)
        → Outcome (Result (BuiltAggregator from sdk avs prom × List (BlsAggServiceResponse F)))
    unfolding new_aggregator_from_config start_events
    aggregator_main path events = do
      config ← new_aggregator_config from path
      r ← new_aggregator_from_config config
      run events r
