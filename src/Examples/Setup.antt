-- ===== src/Examples/Setup.antt =====
-- An operator that has to register first.
use beluuga.Prelude.{ℕ, suc, false, [], ◌∷◌, String}
use beluuga.Errors.{ok}
use beluuga.Config.Programs.{OperatorConfig}
use beluuga.Operator.Setup.{Registration}
use beluuga.Examples.Configs.{from, sdk, base, ecdsa, aligned, operator_section}

abbrev pub registration : Registration from sdk
registration = record {
  World = ℕ;
  RpcClient = String;
  is_operator_registered = λ reader address w. (suc w, ok false);
  now_text = λ w. (w, 1 ∷ []);
  now_unix = λ w. (w, 1700000000);
  keccak256 = λ b. 5 ∷ [];
  private_key_text = λ pair. 2 ∷ [];
  register_operator_in_quorum = λ writer key salt expiry pair quorums socket w. (suc w, ok tt);
  dial_http = λ addr w. (w, ok addr);
  operator_id_from_key_pair = λ pair. 6 ∷ [];
}

abbrev pub operator_config : OperatorConfig from
operator_config = record {
  base_config = base;
  ecdsa_config = ecdsa;
  bls_config = record { key_pair = "key.json" };
  aligned_layer_deployment_config = aligned;
  operator = operator_section;
}
