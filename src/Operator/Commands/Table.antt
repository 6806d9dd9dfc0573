-- ===== src/Operator/Commands/Table.antt =====
-- operator/cmd/main.go, and the tables of flags in operator/cmd/actions.
pub mod Spends
use mathlib.Core.Path.{ap₂}
use beluuga.Prelude.{ℕ, true, false, String, List, [], ◌∷◌, ◌≡◌, ◌⊎◌, refl, ap, Memᴰ, mem_at, Bool}
use beluuga.Prelude.Int.{ℤ, pos}
use beluuga.Errors.{Error, Result, ok, err}
use beluuga.Types.{Bytes32}
use beluuga.Go.Outcome.{Outcome, returned, panicked, exited, blocked}
use beluuga.Go.Script.{Script}
use beluuga.Cli.{
  Flag, Command, Cli, AgreeOn, string_flag, int_flag, run_commands, run_commands-returned,
}
use beluuga.Config.CommandLine.{config_file_flag}
use beluuga.Config.Programs.{Sources, OperatorConfig}
use beluuga.Chain.Connect.{Sdk}
use beluuga.Operator.Setup.{Registration}
use beluuga.Operator.Download.{Http}
use beluuga.Operator.Verify.{Verifiers}
use beluuga.Operator.Process.{OperatorState}
use beluuga.Operator.Run.{Event, Subscriptions}
use beluuga.Operator.Commands.{
  Staking, register_operator_main, operator_main, deposit_into_strategy_main,
}

abbrev pub amount_flag : Flag
amount_flag = record {
  name = "amount";
  aliases = [];
  kind = int_flag (pos 100);
  required = true;
  env_vars = [];
}

abbrev pub strategy_address_flag : Flag
strategy_address_flag = record {
  name = "strategy-address";
  aliases = [];
  kind = string_flag;
  required = true;
  env_vars = "STRATEGY_ADDRESS" ∷ [];
}

unfoldable pub start_flags : List Flag
start_flags = config_file_flag ∷ []

unfoldable pub register_flags : List Flag
register_flags = config_file_flag ∷ []

unfoldable pub deposit_flags : List Flag
deposit_flags = amount_flag ∷ strategy_address_flag ∷ config_file_flag ∷ []

abbrev pub forget : {A : Type 0} → Result A → Result (Unit {0})
forget (ok a) = ok tt
forget (err e) = err e

-- A script on one of two worlds, whose value is not looked at.
module _ {U V A : Type 0} where
  abbrev pub left_of : V → Outcome (U × Result A) → Outcome ((U × V) × Result (Unit {0}))
  left_of v (returned (u, r)) = returned ((u, v), forget r)
  left_of v panicked = panicked
  left_of v exited = exited
  left_of v blocked = blocked

  abbrev pub right_of : V → Outcome (U × Result A) → Outcome ((V × U) × Result (Unit {0}))
  right_of v (returned (u, r)) = returned ((v, u), forget r)
  right_of v panicked = panicked
  right_of v exited = exited
  right_of v blocked = blocked

  abbrev pub on_left : Script U A → Script (U × V) (Unit {0})
  on_left script (u, v) = left_of v (script u)

  abbrev pub on_right : Script U A → Script (V × U) (Unit {0})
  on_right script (v, u) = right_of v (script u)

module _ (from : Sources) (sdk : Sdk from.services from.keys) (reg : Registration from sdk)
    (staking : Staking from)
    (read_yaml_config : String → OperatorConfig from → Result (OperatorConfig from))
    (subs : Subscriptions) (libs : Verifiers) (http : Http) (order : List Bool → List Bool)
    {Signature : Type 0} (sign_message : from.keys.BlsKeyPair → Bytes32 → Signature)
    (state : OperatorState http.World) (chain : subs.Chain) (events : List Event) (cli : Cli) where
  abbrev pub W : Type 0
  W = reg.World × staking.World

  unfoldable pub register_action : cli.Context → Script W (Unit {0})
  register_action c = on_left (register_operator_main from sdk reg (cli.string "config" c))

  -- Up to the events that have come.
  unfoldable pub start_action : cli.Context → Script W (Unit {0})
  start_action c = on_left (
      operator_main from sdk reg read_yaml_config subs libs http order sign_message state chain
        (cli.string "config" c) events)

  unfoldable pub deposit_action : cli.Context → Script W (Unit {0})
  deposit_action c = on_right (
      deposit_into_strategy_main from staking (cli.int amount_flag.name c)
        (cli.string config_file_flag.name c) (cli.string strategy_address_flag.name c))

  abbrev pub OperatorCommand : Type 0
  OperatorCommand = Command cli.Context (Script W (Unit {0}))

  unfoldable pub register_command : OperatorCommand
  unfolding register_flags register_action
  register_command = record { name = "register"; flags = register_flags; action = register_action }

  unfoldable pub start_command : OperatorCommand
  unfolding start_flags start_action
  start_command = record { name = "start"; flags = start_flags; action = start_action }

  unfoldable pub deposit_into_strategy_command : OperatorCommand
  unfolding deposit_flags deposit_action
  deposit_into_strategy_command = record {
    name = "deposit-into-strategy";
    flags = deposit_flags;
    action = deposit_action;
  }

  unfoldable pub commands : List OperatorCommand
  unfolding register_command start_command deposit_into_strategy_command
  commands = register_command ∷ start_command ∷ deposit_into_strategy_command ∷ []

  unfoldable pub main : List String → W → Outcome W
  unfolding commands
  main args w = run_commands cli commands args w
