-- ===== src/Operator/Commands/Started.antt =====
-- The operator's command from its config to its signatures.
use beluuga.Prelude.{◌≡◌, Bool, String, List}
use beluuga.Errors.{Result, ok}
use beluuga.Types.{Bytes32}
use beluuga.Go.Outcome.{returned}
use beluuga.Go.Script.{give, given, load, loaded, went}
use beluuga.Config.Programs.{Sources, OperatorConfig, new_operator_config}
use beluuga.Chain.Connect.{Sdk, AvsReader, Bindings, new_avs_reader_from_config}
use beluuga.Operator.Download.{Http}
use beluuga.Operator.Verify.{Verifiers}
use beluuga.Operator.Process.{OperatorState}
use beluuga.Operator.Process.Accept.{Reorders}
use beluuga.Operator.Run.{Event, Subscriptions, start}
use beluuga.Operator.Run.Signed.{All, IsJustified, sent-IsJustified}
use beluuga.Operator.Setup.{Registration, new_operator_from_config}
use beluuga.Operator.Setup.Registered.{IsRegistered, new_operator-IsRegistered}
use beluuga.Operator.Commands.{operator_main, Looping}

module _ (from : Sources) (sdk : Sdk from.services from.keys) (reg : Registration from sdk)
    (read_yaml_config : String → OperatorConfig from → Result (OperatorConfig from))
    (subs : Subscriptions) (libs : Verifiers) (http : Http) (order : List Bool → List Bool)
    {Signature : Type 0} (sign_message : from.keys.BlsKeyPair → Bytes32 → Signature)
    (state : OperatorState http.World) (chain : subs.Chain) where
  -- What is true of a running operator with this config, after these events.
  pub record Runs (config : OperatorConfig from) (events : List Event)
      (l : Looping from sdk reg read_yaml_config subs libs http order sign_message state chain)
      : Type 0 where
    pub reader : AvsReader sdk.RegistryReader (Bindings from.services from.keys sdk)
    pub connected :
        new_avs_reader_from_config from.services from.keys sdk config.base_config
          config.ecdsa_config
        ≡ ok reader
    pub registered : IsRegistered from sdk reg config reader
    pub justified :
        All
          (IsJustified libs http config.operator.max_batch_size order
            (sign_message config.bls_config.key_pair)
            (reg.operator_id_from_key_pair config.bls_config.key_pair)
            events)
          l.sent

  -- Whatever order the answers of the goroutines come in: if the operator's command runs after these
  -- events, its config was read at that path, it is registered with the contract of that config, and
  -- each response it has sent carries the id of the config's BLS key pair and answers, with that pair's
  -- signature, a batch that was announced, could be downloaded and of which each proof verifies.
  pub operator_main-Runs :
      (path : String) (events : List Event) (w : reg.World) {w' : reg.World}
      {l : Looping from sdk reg read_yaml_config subs libs http order sign_message state chain}
      → Reorders order
      → operator_main from sdk reg read_yaml_config subs libs http order sign_message state chain
          path events w
        ≡ returned (w', ok l)
      → (first : OperatorConfig from) × (config : OperatorConfig from) × (new_operator_config from
            path
          ≡ returned first)
        × (read_yaml_config path first ≡ ok config)
        × Runs config events l
  unfolding operator_main
  operator_main-Runs path events w p h =
      went (load (new_operator_config from path)) _ w h (λ w1 first e1 h1.
        went (give (read_yaml_config path first)) _ w1 h1 (λ w2 config e2 h2.
          went (new_operator_from_config from sdk reg config) _ w2 h2 (λ w3 operator e3 h3.
            let (reader, connected, registered, _, same_id, _) =
              new_operator-IsRegistered from sdk reg config w2 e3 in
            let (ran, _) =
              loaded
                (start subs libs http config.operator.max_batch_size order
                  (sign_message config.bls_config.key_pair) operator.operator_id events state chain)
                h3 in
            (
              first,
              config,
              (loaded (new_operator_config from path) e1).0,
              (given e2).0,
              record {
                reader = reader;
                connected = connected;
                registered = registered;
                justified = rw (← same_id) (
                    sent-IsJustified libs http config.operator.max_batch_size order
                      (sign_message config.bls_config.key_pair) operator.operator_id subs events
                      state chain p ran);
              },
            ))))
