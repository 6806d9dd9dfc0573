-- ===== src/Aggregator/Commands/Started.antt =====
-- What the aggregator's program runs, whatever its command line.
use beluuga.Prelude.{String, List, Option, none, some, ◌≡◌, ◌⊎◌, inl, inr, ◌∙◌, ap}
use beluuga.Errors.{Error, Result, ok, err}
use beluuga.Go.Outcome.{Outcome, returned, >>=-eq-returned, returned-injective}
use beluuga.Metrics.{Prometheus}
use beluuga.Cli.{Cli}
use beluuga.Config.CommandLine.{config_file_flag}
use beluuga.Config.Programs.{Sources, AggregatorConfig, new_aggregator_config}
use beluuga.Chain.Connect.{Sdk}
use beluuga.Aggregator.Respond.{BlsAggServiceResponse}
use beluuga.Aggregator.Setup.{AvsServices, BuiltAggregator}
use beluuga.Aggregator.Start.{RpcServer, Event}
use beluuga.Aggregator.Start.Running.{IsFresh, answers_in, main-IsFresh}
use beluuga.Aggregator.Commands.{flags, or_fatal, finish, app, main}

or_fatal-some : {A : Type 0} (r : Result A) {a : A} → or_fatal r ≡ returned (some a) → r ≡ ok a
or_fatal-some (ok b) {a} h = ap (λ o. elim o [ none ↦ ok a | some x ↦ ok x ]) (returned-injective h)
or_fatal-some (err e) h = absurd cc

-- What runs is what the action has returned.
finish-some :
    {A : Type 0} (r : Option Error ⊎ Outcome (Result A)) {a : A}
    → finish r ≡ returned (some a)
    → r ≡ inr (returned (ok a))
finish-some (inl none) h = absurd cc
finish-some (inl (some e)) h = absurd cc
finish-some (inr running) h =
    let (r, done, value) = >>=-eq-returned running or_fatal h in
    ap inr (done ∙ ap returned (or_fatal-some r value))

module _ (from : Sources) (sdk : Sdk from.services from.keys) (avs : AvsServices from sdk)
    (prom : Prometheus) {F : Type 0} (rpc : RpcServer) (cli : Cli) where
  -- The aggregator that a command line asks for, behind the events.
  pub record Started (args : List String) (events : List (Event F))
      (agg : BuiltAggregator from sdk avs prom) (started : List (BlsAggServiceResponse F))
      : Type 0 where
    pub ctx : cli.Context
    pub parsed : cli.Parses flags args ctx
    pub config : AggregatorConfig from
    pub read : new_aggregator_config from (cli.string config_file_flag.name ctx) ≡ returned config
    pub fresh : IsFresh from sdk avs prom config agg
    pub answered : started ≡ answers_in events

  -- If the aggregator's program runs an aggregator and still runs after these events, then that was built
  -- from the config which the command line names: its maps stand for the empty list, both mutexes are
  -- free at the start, and its connections are made with that config; and one goroutine was started for
  -- each answer of the BLS service, in the order of the answers.
  pub main-Started :
      (events : List (Event F)) (args : List String) (agg : BuiltAggregator from sdk avs prom)
      (started : List (BlsAggServiceResponse F))
      → main from sdk avs prom rpc cli events args ≡ returned (some (agg, started))
      → Started args events agg started
  unfolding main app
  main-Started events args agg started h =
      let (ctx, parsed, done) =
        cli.run_app-calls (app from sdk avs prom rpc cli events) args (returned (ok (agg, started)))
          (finish-some (cli.run_app (app from sdk avs prom rpc cli events) args) h) in
      let (config, read, fresh, answered) =
        main-IsFresh from sdk avs prom rpc (cli.string config_file_flag.name ctx) events agg started
          done in
      record {
        ctx = ctx;
        parsed = parsed;
        config = config;
        read = read;
        fresh = fresh;
        answered = answered;
      }
