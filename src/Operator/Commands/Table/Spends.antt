-- ===== src/Operator/Commands/Table/Spends.antt =====
-- What the operator's program spends, whichever command it is called with.
use beluuga.Prelude.{String, List, ◌≡◌, ◌⊎◌, inl, inr, ap, Memᴰ, Bool}
use beluuga.Prelude.Int.{pos, ◌<ℤ◌}
use beluuga.Errors.{Result, ok, err}
use beluuga.Types.{Bytes32}
use beluuga.Go.Outcome.{Outcome, returned, panicked, exited, blocked, returned-injective}
use beluuga.Go.Script.{Script}
use beluuga.Cli.{Command, Cli, run_commands-returned}
use beluuga.Config.CommandLine.{config_file_flag}
use beluuga.Config.Programs.{Sources, OperatorConfig, new_operator_config}
use beluuga.Chain.Connect.{Sdk}
use beluuga.Operator.Setup.{Registration}
use beluuga.Operator.Download.{Http}
use beluuga.Operator.Verify.{Verifiers}
use beluuga.Operator.Process.{OperatorState}
use beluuga.Operator.Run.{Event, Subscriptions}
use beluuga.Operator.Commands.{
  Staking, deposit_into_strategy_main, register_operator_main, operator_main,
}
use beluuga.Operator.Commands.Deposits.{PaysFrom, deposits_exactly}
use beluuga.Operator.Commands.Table.{
  amount_flag, strategy_address_flag, deposit_flags, left_of, right_of, register_action,
  start_action, deposit_action, commands, main,
}

module _ {U V A : Type 0} where
  left_of-keeps :
      (v : V) (o : Outcome (U × Result A)) {w : U × V} → left_of v o ≡ returned (w, ok tt) → v ≡ w.1
  left_of-keeps v (returned (u, r)) h = ap (λ p. p.0.1) (returned-injective h)
  left_of-keeps v panicked h = absurd cc
  left_of-keeps v exited h = absurd cc
  left_of-keeps v blocked h = absurd cc

right_of-ok :
    {U V : Type 0} (v : V) (o : Outcome (U × Result (Unit {0}))) {w : V × U}
    → right_of v o ≡ returned (w, ok tt)
    → o ≡ returned (w.1, ok tt)
right_of-ok v (returned (u, ok _)) h =
    ap (λ x. returned (x, ok tt)) (ap (λ p. p.0.1) (returned-injective h))
right_of-ok v (returned (u, err e)) h = absurd cc (ap (λ p. p.1) (returned-injective h))
right_of-ok v panicked h = absurd cc
right_of-ok v exited h = absurd cc
right_of-ok v blocked h = absurd cc

module _ (from : Sources) (sdk : Sdk from.services from.keys) (reg : Registration from sdk)
    (staking : Staking from)
    (read_yaml_config : String → OperatorConfig from → Result (OperatorConfig from))
    (subs : Subscriptions) (libs : Verifiers) (http : Http) (order : List Bool → List Bool)
    {Signature : Type 0} (sign_message : from.keys.BlsKeyPair → Bytes32 → Signature)
    (state : OperatorState http.World) (chain : subs.Chain) (events : List Event) (cli : Cli) where
  -- The deposit that a command line asks for.
  pub record Deposited (args : List String) (v v' : staking.World) : Type 0 where
    pub ctx : cli.Context
    pub parsed : cli.Parses deposit_flags args ctx
    pub positive : pos 0 <ℤ cli.int amount_flag.name ctx
    pub config : OperatorConfig from
    pub read : new_operator_config from (cli.string config_file_flag.name ctx) ≡ returned config
    pub writer : staking.ElChainWriter
    pub pays : PaysFrom from staking config writer
    pub deposited :
        staking.deposit_erc20_into_strategy writer
          (staking.hex_to_address (cli.string strategy_address_flag.name ctx))
          (cli.int amount_flag.name ctx)
          v
        ≡ (v', ok tt)

  deposit-Deposited :
      (args : List String) (ctx : cli.Context) (v : staking.World) {v' : staking.World}
      → cli.Parses deposit_flags args ctx
      → deposit_into_strategy_main from staking
          (cli.int amount_flag.name ctx)
          (cli.string config_file_flag.name ctx)
          (cli.string strategy_address_flag.name ctx)
          v
        ≡ returned (v', ok tt)
      → (v ≡ v') ⊎ Deposited args v v'
  deposit-Deposited args ctx v parsed h =
      elim (deposits_exactly from staking (cli.int amount_flag.name ctx)
        (cli.string config_file_flag.name ctx) (cli.string strategy_address_flag.name ctx) v h) [
          | inl (_, same) ↦ inl same
          | inr (positive, (config, read, writer, pays, paid)) ↦ inr (record {
            ctx = ctx;
            parsed = parsed;
            positive = positive;
            config = config;
            read = read;
            writer = writer;
            pays = pays;
            deposited = paid;
          })
        ]

  command-Deposited :
      (c : Command cli.Context (Script (reg.World × staking.World) (Unit {0}))) (args : List String)
      (ctx : cli.Context) (w : reg.World × staking.World) {w' : reg.World × staking.World}
      → Memᴰ c (
          commands from sdk reg staking read_yaml_config subs libs http order sign_message state
            chain events cli)
      → cli.Parses c.flags args ctx
      → c.action ctx w ≡ returned (w', ok tt)
      → (w.1 ≡ w'.1) ⊎ Deposited args w.1 w'.1
  unfolding commands register_action start_action deposit_action
  command-Deposited c args ctx w (Memᴰ.head e) parsed h = inl (
      left_of-keeps w.1
        (register_operator_main from sdk reg (cli.string config_file_flag.name ctx) w.0)
        (rw e at h))
  command-Deposited c args ctx w (Memᴰ.tail (Memᴰ.head e)) parsed h = inl (
      left_of-keeps w.1
        (operator_main from sdk reg read_yaml_config subs libs http order sign_message state chain
          (cli.string config_file_flag.name ctx) events w.0)
        (rw e at h))
  command-Deposited c args ctx w (Memᴰ.tail (Memᴰ.tail (Memᴰ.head e))) parsed h =
      deposit-Deposited args ctx w.1 (rw e at parsed) (
        right_of-ok w.0
          (deposit_into_strategy_main from staking (cli.int amount_flag.name ctx)
            (cli.string config_file_flag.name ctx) (cli.string strategy_address_flag.name ctx) w.1)
          (rw e at h))
  command-Deposited c args ctx w (Memᴰ.tail (Memᴰ.tail (Memᴰ.tail m))) parsed h = elim m [ ]

  -- If the operator's program ends by itself, then what can be staked is as it was, or its command line
  -- asked for a deposit of a positive amount, and exactly that was deposited, once and with success, into
  -- the strategy it names, by a writer that signs with the key of the config it names.
  pub main-Deposited :
      (args : List String) (w : reg.World × staking.World) {w' : reg.World × staking.World}
      → main from sdk reg staking read_yaml_config subs libs http order sign_message state chain
          events cli args w
        ≡ returned w'
      → (w.1 ≡ w'.1) ⊎ Deposited args w.1 w'.1
  unfolding main
  main-Deposited args w h =
      elim (run_commands-returned cli
        (commands from sdk reg staking read_yaml_config subs libs http order sign_message state
          chain events cli)
        args w h) [
          | inl same ↦ inl (ap (λ p. p.1) same)
          | inr (c, mem, ctx, parsed, done) ↦ command-Deposited c args ctx w mem parsed done
        ]
