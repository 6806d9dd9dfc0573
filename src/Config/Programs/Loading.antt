-- ===== src/Config/Programs/Loading.antt =====
-- What the config that a program starts with holds.
use beluuga.Prelude.{ℕ, ◌≡◌, ◌==◌, some, String}
use beluuga.Prelude.Keys.{string_eq}
use beluuga.Errors.{ok}
use beluuga.Go.Outcome.{returned, returned-injective}
use beluuga.Config.Keys.{EcdsaConfig, new_ecdsa_config, new_bls_config}
use beluuga.Config.Base.Complete.{
  IsComplete, base-IsComplete, passed, read, found, config_injective,
}
use beluuga.Config.Programs.{
  Sources, OperatorConfig, AggregatorConfig, TaskSenderConfig, base_of, new_operator_config,
  new_aggregator_config, new_task_sender_config,
}

module _ (from : Sources) where
  -- The signer of a config signs for the chain of the node, with the key of the key store.
  abbrev pub SignsFor : ℕ → EcdsaConfig from.keys.EcdsaKey from.keys.Signer → Type 0
  SignsFor chain_id c = from.keys.new_private_key_signer c.private_key chain_id ≡ ok c.signer

  ecdsa_signs :
      (path : String) (chain_id : ℕ) {c : EcdsaConfig from.keys.EcdsaKey from.keys.Signer}
      → new_ecdsa_config from.keys path chain_id ≡ returned (some c)
      → SignsFor chain_id c
  unfolding new_ecdsa_config
  ecdsa_signs path chain_id {c} h = passed (from.keys.missing path) h (λ e1 h1.
      read (from.keys.read_ecdsa_yaml path) _ h1 (λ store e2 h2.
        passed (store.private_key_store_path == "") h2 (λ e3 h3.
          read
            (from.keys.read_ecdsa_key store.private_key_store_path store.private_key_store_password)
            _ h3
            (λ key e4 h4.
              read (from.keys.new_private_key_signer key chain_id) _ h4
                (λ signer e5 h5. rw (← config_injective h5) e5)))))

  -- An operator that has its config has every contract address, both clients and the chain id of the
  -- node, and signs transactions for that chain.
  pub operator_config-IsComplete :
      (path : String) {c : OperatorConfig from}
      → new_operator_config from path ≡ returned c
      → IsComplete from.services c.base_config × SignsFor c.base_config.chain_id c.ecdsa_config
  unfolding new_operator_config
  operator_config-IsComplete path {c} h = passed (from.files.missing path) h (λ e1 h1.
      found (base_of from path) _ h1 (λ base e2 h2.
        found (new_ecdsa_config from.keys path base.chain_id) _ h2 (λ ecdsa e3 h3.
          found (new_bls_config from.keys path) _ h3 (λ bls e4 h4.
            read (from.read_operator_yaml path) _ h4 (λ section e5 h5.
              rw (← returned-injective h5) (
                base-IsComplete from.files from.read_base_yaml from.services path e2,
                ecdsa_signs path base.chain_id e3,
              ))))))

  -- The same of an aggregator that has its config.
  pub aggregator_config-IsComplete :
      (path : String) {c : AggregatorConfig from}
      → new_aggregator_config from path ≡ returned c
      → IsComplete from.services c.base_config × SignsFor c.base_config.chain_id c.ecdsa_config
  unfolding new_aggregator_config
  aggregator_config-IsComplete path {c} h = passed (from.files.missing path) h (λ e1 h1.
      found (base_of from path) _ h1 (λ base e2 h2.
        found (new_ecdsa_config from.keys path base.chain_id) _ h2 (λ ecdsa e3 h3.
          found (new_bls_config from.keys path) _ h3 (λ bls e4 h4.
            read (from.read_aggregator_yaml path) _ h4 (λ section e5 h5.
              rw (← returned-injective h5) (
                base-IsComplete from.files from.read_base_yaml from.services path e2,
                ecdsa_signs path base.chain_id e3,
              ))))))

  -- The same of a task sender that has its config.
  pub task_sender_config-IsComplete :
      (path : String) {c : TaskSenderConfig from}
      → new_task_sender_config from path ≡ returned c
      → IsComplete from.services c.base_config × SignsFor c.base_config.chain_id c.ecdsa_config
  unfolding new_task_sender_config
  task_sender_config-IsComplete path {c} h = passed (from.files.missing path) h (λ e1 h1.
      found (base_of from path) _ h1 (λ base e2 h2.
        found (new_ecdsa_config from.keys path base.chain_id) _ h2 (λ ecdsa e3 h3.
          rw (← returned-injective h3) (
            base-IsComplete from.files from.read_base_yaml from.services path e2,
            ecdsa_signs path base.chain_id e3,
          ))))
