-- ===== src/Aggregator/Commands.antt =====
-- aggregator/cmd/main.go: the flags and `main`.
pub mod Started
use beluuga.Prelude.{String, List, [], ◌∷◌, Option, none, some, ◌⊎◌, inl, inr}
use beluuga.Errors.{Error, Result, ok, err}
use beluuga.Go.Outcome.{Outcome, returned, exited, ◌>>=◌}
use beluuga.Metrics.{Prometheus}
use beluuga.Cli.{Flag, Command, Cli}
use beluuga.Config.CommandLine.{config_file_flag}
use beluuga.Config.Programs.{Sources}
use beluuga.Chain.Connect.{Sdk}
use beluuga.Aggregator.Respond.{BlsAggServiceResponse}
use beluuga.Aggregator.Setup.{AvsServices, BuiltAggregator}
use beluuga.Aggregator.Start.{RpcServer, Event, aggregator_main}

unfoldable pub flags : List Flag
flags = config_file_flag ∷ []

-- `log.Fatalln` on the error of the action.
abbrev pub or_fatal : {A : Type 0} → Result A → Outcome (Option A)
or_fatal (ok a) = returned (some a)
or_fatal (err e) = exited

-- The same of `app.Run`; the help leaves nothing that runs.
abbrev pub finish : {A : Type 0} → Option Error ⊎ Outcome (Result A) → Outcome (Option A)
finish (inl none) = returned none
finish (inl (some e)) = exited
finish (inr running) = running >>= or_fatal

module _ (from : Sources) (sdk : Sdk from.services from.keys) (avs : AvsServices from sdk)
    (prom : Prometheus) {F : Type 0} (rpc : RpcServer) (cli : Cli) (events : List (Event F)) where
  -- The aggregator, and the answers that it has started goroutines for.
  abbrev pub Running : Type 0
  Running = BuiltAggregator from sdk avs prom × List (BlsAggServiceResponse F)

  unfoldable pub app : Command cli.Context (Outcome (Result Running))
  unfolding flags
  app = record {
    name = "aligned-layer-aggregator";
    flags = flags;
    action =
        λ ctx. aggregator_main from sdk avs prom rpc (cli.string config_file_flag.name ctx) events;
  }

  -- Up to the events that have come.
  unfoldable pub main : List String → Outcome (Option Running)
  unfolding app
  main args = finish (cli.run_app app args)
