-- ===== src/Aggregator/Start/Running.antt =====
-- What holds of an aggregator that was started and still runs.
use beluuga.Prelude.{
  ◌≡◌, false, String, none, some, append-nil, append_assoc, List, [], ◌∷◌, ◌++◌, refl, sym, ◌∙◌,
  arith, inl, inr, ap,
}
use beluuga.Errors.{Result, ok, err, Result-cases, ok-injective}
use beluuga.Go.Outcome.{returned, ◌>>=◌, >>=-eq-returned, returned-injective}
use beluuga.Metrics.{Prometheus, new_metrics, new_metrics-ip_port_address}
use beluuga.Config.Programs.{Sources, AggregatorConfig, new_aggregator_config}
use beluuga.Chain.Connect.{
  Sdk, new_avs_reader_from_config, new_avs_writer_from_config, new_avs_subscriber_from_config,
}
use beluuga.Aggregator.Subscribe.History.{Stands, new-Stands}
use beluuga.Aggregator.Respond.{BlsAggServiceResponse}
use beluuga.Aggregator.Setup.{AvsServices, BuiltAggregator, connect}
use beluuga.Aggregator.Start.{
  RpcServer, Event, operators_served, subscription_ended, metrics_served, response, start_events,
  run, with_metrics, new_aggregator_from_config, aggregator_main,
}

-- The answers of the BLS service among the events.
abbrev pub answers_in : {F : Type 0} → List (Event F) → List (BlsAggServiceResponse F)
answers_in [] = []
answers_in (response r ∷ es) = r ∷ answers_in es
answers_in (operators_served ∷ es) = answers_in es
answers_in (subscription_ended _ ∷ es) = answers_in es
answers_in (metrics_served ∷ es) = answers_in es

module _ (from : Sources) (sdk : Sdk from.services from.keys) (avs : AvsServices from sdk)
    (prom : Prometheus) where
  -- The state is that of a new aggregator, the wallet is free, and the connections are those of `config`.
  pub record IsFresh (config : AggregatorConfig from) (agg : BuiltAggregator from sdk avs prom)
      : Type 0 where
    pub stands : Stands agg.state []
    pub wallet_free : agg.wallet_mutex ≡ false
    pub reader :
        new_avs_reader_from_config from.services from.keys sdk config.base_config
          config.ecdsa_config
        ≡ ok agg.avs_reader
    pub subscriber :
        new_avs_subscriber_from_config from.services from.keys sdk config.base_config
        ≡ ok agg.avs_subscriber
    pub writer :
        new_avs_writer_from_config from.services from.keys sdk config.base_config
          config.ecdsa_config
        ≡ ok agg.avs_writer
    pub address : agg.metrics.ip_port_address ≡ config.aggregator.metrics_ip_port_address

  connect-connections :
      (config : AggregatorConfig from) {r : _} {s : _} {w : _} {service : avs.Service}
      → connect from sdk avs prom config ≡ ok (r, s, w, service)
      → (new_avs_reader_from_config from.services from.keys sdk config.base_config
            config.ecdsa_config
          ≡ ok r)
        × (new_avs_subscriber_from_config from.services from.keys sdk config.base_config ≡ ok s)
        × (new_avs_writer_from_config from.services from.keys sdk config.base_config
              config.ecdsa_config
            ≡ ok w)
  unfolding connect
  connect-connections config h = ground arith

  new_aggregator-IsFresh :
      (config : AggregatorConfig from) (agg : BuiltAggregator from sdk avs prom)
      → new_aggregator_from_config from sdk avs prom config ≡ returned (ok agg)
      → IsFresh config agg
  unfolding new_aggregator_from_config
  new_aggregator-IsFresh config agg h = elim (Result-cases (connect from sdk avs prom config)) [
    | inr (e, bad) ↦ absurd (ground arith)
    | inl ((r, s, w, service), good) ↦
        let (rc, sc, wc) = connect-connections config good in
        let finish = with_metrics from sdk avs prom config r s w service in
        let (m, made, built) =
          >>=-eq-returned
            (new_metrics prom config.aggregator.metrics_ip_port_address prom.new_registry)
            (λ m. returned (ok (finish m))) (rw (new_aggregator_from_config, good) at h) in
        let same : finish m ≡ agg = ok-injective (returned-injective built) in
        rw (← same) (record {
          stands = new-Stands service;
          wallet_free = refl;
          reader = rc;
          subscriber = sc;
          writer = wc;
          address =
              new_metrics-ip_port_address prom config.aggregator.metrics_ip_port_address
                prom.new_registry made;
        })
  ]

  module _ {F : Type 0} (rpc : RpcServer) where
    start_events-answers :
        (agg : BuiltAggregator from sdk avs prom) (es : List (Event F))
        (before : List (BlsAggServiceResponse F)) {started : List (BlsAggServiceResponse F)}
        → start_events from sdk avs prom rpc agg es before ≡ returned started
        → started ≡ before ++ answers_in es
    unfolding start_events
    start_events-answers agg [] before h = sym (returned-injective h) ∙ sym (append-nil before)
    start_events-answers agg (operators_served ∷ es) before {started} h =
        ground (arith, start_events-answers agg es before {started = started})
    start_events-answers agg (subscription_ended none ∷ es) before h =
        start_events-answers agg es before h
    start_events-answers agg (subscription_ended (some e) ∷ es) before h = absurd cc
    start_events-answers agg (metrics_served ∷ es) before {started} h =
        ground (arith, start_events-answers agg es before {started = started})
    start_events-answers agg (response r ∷ es) before h =
        start_events-answers agg es (before ++ r ∷ []) h
        ∙ append_assoc before (r ∷ []) (answers_in es)

    run-answers :
        (es : List (Event F)) (r : Result (BuiltAggregator from sdk avs prom))
        {agg : BuiltAggregator from sdk avs prom} {started : List (BlsAggServiceResponse F)}
        → run from sdk avs prom rpc es r ≡ returned (ok (agg, started))
        → (r ≡ ok agg) × (started ≡ answers_in es)
    run-answers es (err e) h = absurd cc
    run-answers es (ok agg) h =
        let (mid, went, last) =
          >>=-eq-returned (start_events from sdk avs prom rpc agg es [])
            (λ started. returned (ok (agg, started))) h in
        let same = ok-injective (returned-injective last) in
        (ap (λ x. ok x.0) same, sym (ap (λ x. x.1) same) ∙ start_events-answers agg es [] went)

  -- If `aggregatorMain` has come to its main loop and the process still runs after these events, the
  -- aggregator was built from the config at that path: its maps stand for the empty list, both mutexes
  -- are free at the start, and its connections are made with that config; and one goroutine was started
  -- for each answer of the BLS service, in the order of the answers.
  pub main-IsFresh :
      {F : Type 0} (rpc : RpcServer) (path : String) (events : List (Event F))
      (agg : BuiltAggregator from sdk avs prom) (started : List (BlsAggServiceResponse F))
      → aggregator_main from sdk avs prom rpc path events ≡ returned (ok (agg, started))
      → (config : AggregatorConfig from) × (new_aggregator_config from path ≡ returned config)
        × IsFresh config agg
        × (started ≡ answers_in events)
  unfolding aggregator_main
  main-IsFresh rpc path events agg started h =
      let (config, loaded, h1) =
        >>=-eq-returned (new_aggregator_config from path)
          (λ config.
            new_aggregator_from_config from sdk avs prom config
            >>= run from sdk avs prom rpc events)
          h in
      let (r, built, h2) =
        >>=-eq-returned (new_aggregator_from_config from sdk avs prom config)
          (run from sdk avs prom rpc events) h1 in
      let (made, answers) = run-answers rpc events r h2 in
      (config, loaded, new_aggregator-IsFresh config agg (built ∙ ap returned made), answers)
