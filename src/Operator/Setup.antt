-- ===== src/Operator/Setup.antt =====
-- `NewOperatorFromConfig` of operator/pkg/operator.go, and operator/pkg/register.go.
pub mod Registered
use beluuga.Prelude.{ℕ, ◌+◌, Bool, true, false, List, [], ◌∷◌, ◌++◌, String}
use beluuga.Errors.{Error, Result, ok, err, rpc_client_failed}
use beluuga.Types.{Bytes32, zero_bytes32}
use beluuga.Go.Outcome.{Outcome, returned, panicked, exited, blocked}
use beluuga.Go.Script.{Script, ◌>>=◌, ◌>>◌, give, call, fatal_on_error}
use beluuga.Go.Slice.{copy}
use beluuga.Config.Deployment.{Address}
use beluuga.Config.Programs.{Sources, OperatorConfig}
use beluuga.Chain.Connect.{
  Sdk, AvsReader, AvsWriter, AvsSubscriber, Bindings, is_operator_registered,
  new_avs_reader_from_config, new_avs_writer_from_config, new_avs_subscriber_from_config,
}

-- What the registration calls: the registry contracts, the clock, a hash and net/rpc.
pub record Registration (from : Sources) (sdk : Sdk from.services from.keys) : Type 1 where
  pub World : Type 0
  pub RpcClient : Type 0
  pub is_operator_registered : sdk.RegistryReader → Address → World → World × Result Bool
  -- `time.Now().String()`, and the seconds of `time.Now().Unix()`
  pub now_text : World → World × List ℕ
  pub now_unix : World → World × ℕ
  pub keccak256 : List ℕ → List ℕ
  pub private_key_text : from.keys.BlsKeyPair → List ℕ
  pub register_operator_in_quorum :
      sdk.RegistryWriter
      → from.keys.EcdsaKey
      → Bytes32
      → ℕ
      → from.keys.BlsKeyPair
      → List ℕ
      → String
      → World
      → World × Result (Unit {0})
  pub dial_http : String → World → World × Result RpcClient
  pub operator_id_from_key_pair : from.keys.BlsKeyPair → Bytes32

-- The fields of the operator that are set from what the construction obtains.
pub record Operator (Subscriber Client : Type 0) : Type 0 where
  pub address : Address
  pub operator_id : Bytes32
  pub avs_subscriber : Subscriber
  pub agg_rpc_client : Client

module _ (from : Sources) (sdk : Sdk from.services from.keys) (reg : Registration from sdk)
    (config : OperatorConfig from) where
  open reg use {World, RpcClient}

  abbrev pub Subscriber : Type 0
  Subscriber = AvsSubscriber (Bindings from.services from.keys sdk)

  -- `RegisterOperator`: quorum 0, and ten minutes until the signature expires.
  unfoldable pub register_operator : Bytes32 → Script World (Unit {0})
  register_operator salt = do
    writer ← give (
        new_avs_writer_from_config from.services from.keys sdk config.base_config
          config.ecdsa_config)
    now ← call (λ w. ((reg.now_unix w).0, ok (reg.now_unix w).1))
    call (
        reg.register_operator_in_quorum writer.avs_registry_writer config.ecdsa_config.private_key
          salt (now + 600) config.bls_config.key_pair (0 ∷ []) "Not Needed")

  -- The salt: the hash of its four parts, one behind the other; "churn" as bytes.
  abbrev pub salt_at : List ℕ → Bytes32
  salt_at time = copy zero_bytes32 (
      reg.keccak256 (
        (99 ∷ 104 ∷ 117 ∷ 114 ∷ 110 ∷ [])
        ++ (time ++ ((0 ∷ []) ++ reg.private_key_text config.bls_config.key_pair))))

  abbrev pub register_unless : Bool → Script World (Unit {0})
  register_unless true = give (ok tt)
  register_unless false = do
    time ← call (λ w. ((reg.now_text w).0, ok (reg.now_text w).1))
    fatal_on_error (register_operator (salt_at time))

  -- An error of the client is replaced by an error of the operator's own.
  abbrev pub dialed : Script World RpcClient
  dialed w = elim (reg.dial_http config.operator.aggregator_server_ip_port_address w).1 [
    | ok client ↦
        returned ((reg.dial_http config.operator.aggregator_server_ip_port_address w).0, ok client)
    | err e ↦ returned (
      (reg.dial_http config.operator.aggregator_server_ip_port_address w).0,
      err rpc_client_failed,
    )
  ]

  unfoldable pub new_operator_from_config : Script World (Operator Subscriber RpcClient)
  unfolding register_operator is_operator_registered
  new_operator_from_config = do
    reader ← fatal_on_error (
        give (
          new_avs_reader_from_config from.services from.keys sdk config.base_config
            config.ecdsa_config))
    registered ← fatal_on_error (
        call (
          is_operator_registered from.services from.keys sdk reg.is_operator_registered reader
            config.operator.address))
    register_unless registered
    subscriber ←
        fatal_on_error
          (give (new_avs_subscriber_from_config from.services from.keys sdk config.base_config))
    client ← dialed
    give (
        ok (record {
          address = config.operator.address;
          operator_id = reg.operator_id_from_key_pair config.bls_config.key_pair;
          avs_subscriber = subscriber;
          agg_rpc_client = client;
        }))
