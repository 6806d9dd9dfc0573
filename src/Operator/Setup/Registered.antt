-- ===== src/Operator/Setup/Registered.antt =====
-- What an operator that could be built has been through.
use beluuga.Prelude.{◌≡◌, ◌⊎◌, Bool, true, false, inl, inr, ap, sym, ◌∙◌}
use beluuga.Errors.{ok, ok-injective}
use beluuga.Types.{Bytes32}
use beluuga.Go.Outcome.{returned, returned-injective}
use beluuga.Go.Script.{give, given, call, went, went_past_fatal, fatal_on_error, fatal_on_error-ok}
use beluuga.Config.Programs.{Sources, OperatorConfig}
use beluuga.Chain.Connect.{
  Sdk, AvsReader, Bindings, is_operator_registered, new_avs_reader_from_config,
  new_avs_subscriber_from_config,
}
use beluuga.Operator.Setup.{
  Registration, Operator, Subscriber, register_operator, register_unless, dialed, salt_at,
  new_operator_from_config,
}

module _ (from : Sources) (sdk : Sdk from.services from.keys) (reg : Registration from sdk)
    (config : OperatorConfig from) where
  -- The registry says that the operator is registered, or its registration went through.
  abbrev pub IsRegistered :
      AvsReader sdk.RegistryReader (Bindings from.services from.keys sdk) → Type 0
  IsRegistered reader =
      (w : reg.World) × (((reg.is_operator_registered reader.avs_registry_reader
            config.operator.address w).1
          ≡ ok true)
        ⊎ ((salt : Bytes32) × (u : reg.World) × (u' : reg.World) × (register_operator from sdk reg
                config salt u
              ≡ returned (u', ok tt))))

  asked :
      (reader : AvsReader sdk.RegistryReader (Bindings from.services from.keys sdk))
      (registered : Bool) (w u : reg.World) {u' : reg.World}
      → (reg.is_operator_registered reader.avs_registry_reader config.operator.address w).1
        ≡ ok registered
      → register_unless from sdk reg config registered u ≡ returned (u', ok tt)
      → IsRegistered reader
  asked reader true w u e h = (w, inl e)
  asked reader false w u e h =
      went (call (λ k. ((reg.now_text k).0, ok (reg.now_text k).1)))
        (λ time.
          fatal_on_error (register_operator from sdk reg config (salt_at from sdk reg config time)))
        u h
        (λ u1 time e1 h1. (
          w,
          inr (
            salt_at from sdk reg config time,
            u1,
            _,
            fatal_on_error-ok
                (register_operator from sdk reg config (salt_at from sdk reg config time)) u1 h1,
          ),
        ))

  -- An operator that could be built is registered with the contract of its config: the registry said so
  -- when asked about its address, or its registration went through. Its id is that of its BLS key pair,
  -- and its subscriber goes over the websocket of the config.
  pub new_operator-IsRegistered :
      (w : reg.World) {w' : reg.World} {o : Operator (Subscriber from sdk reg config) reg.RpcClient}
      → new_operator_from_config from sdk reg config w ≡ returned (w', ok o)
      → (reader : AvsReader sdk.RegistryReader (Bindings from.services from.keys sdk))
        × (new_avs_reader_from_config from.services from.keys sdk config.base_config
              config.ecdsa_config
            ≡ ok reader)
        × IsRegistered reader
        × (new_avs_subscriber_from_config from.services from.keys sdk config.base_config
            ≡ ok o.avs_subscriber)
        × (o.operator_id ≡ reg.operator_id_from_key_pair config.bls_config.key_pair)
        × (o.address ≡ config.operator.address)
  unfolding new_operator_from_config is_operator_registered
  new_operator-IsRegistered w h =
      went_past_fatal
        (give (
          new_avs_reader_from_config from.services from.keys sdk config.base_config
            config.ecdsa_config))
        _ w h
        (λ w1 reader e1 h1.
          went_past_fatal
            (call (reg.is_operator_registered reader.avs_registry_reader config.operator.address)) _
            w1 h1
            (λ w2 registered e2 h2.
              went (register_unless from sdk reg config registered) _ w2 h2 (λ w3 t e3 h3.
                went_past_fatal
                  (give
                    (new_avs_subscriber_from_config from.services from.keys sdk config.base_config))
                  _ w3 h3
                  (λ w4 subscriber e4 h4.
                    went (dialed from sdk reg config) _ w4 h4 (λ w5 client e5 h5.
                      let built = (given h5).0 in
                      (
                        reader,
                        (given e1).0,
                        asked reader registered w1 w2 (ap (λ p. p.1) (returned-injective e2)) e3,
                        (given e4).0 ∙ ap (λ k. ok k.avs_subscriber) (ok-injective built),
                        sym (ap (λ k. k.operator_id) (ok-injective built)),
                        sym (ap (λ k. k.address) (ok-injective built)),
                      ))))))
