-- ===== src/Config/Keys.antt =====
-- core/config/ecdsa.go and core/config/bls.go: the operator's and the aggregator's key stores.
use beluuga.Prelude.{ℕ, ◌==◌, Bool, Option, some, String}
use beluuga.Prelude.Keys.{string_eq}
use beluuga.Errors.{Result}
use beluuga.Go.Outcome.{Outcome, returned, ◌>>=◌, ◌>>◌}
use beluuga.Config.Deployment.{fatal_if, or_fatal}

-- The section of a config file on a key store.
pub record KeyStore : Type 0 where
  pub private_key_store_path : String
  pub private_key_store_password : String

-- The libraries that read and use the key stores.
pub record KeyFiles : Type 1 where
  pub EcdsaKey : Type 0
  pub Signer : Type 0
  pub BlsKeyPair : Type 0
  pub missing : String → Bool
  pub read_ecdsa_yaml : String → Result KeyStore
  pub read_bls_yaml : String → Result KeyStore
  pub read_ecdsa_key : String → String → Result EcdsaKey
  pub new_private_key_signer : EcdsaKey → ℕ → Result Signer
  pub read_bls_key : String → String → Result BlsKeyPair

pub record EcdsaConfig (Key Signer : Type 0) : Type 0 where
  pub private_key : Key
  pub signer : Signer

pub record BlsConfig (KeyPair : Type 0) : Type 0 where
  pub key_pair : KeyPair

module _ (files : KeyFiles) where
  unfoldable pub new_ecdsa_config :
      String → ℕ → Outcome (Option (EcdsaConfig files.EcdsaKey files.Signer))
  new_ecdsa_config path chain_id = do
    fatal_if (files.missing path)
    store ← or_fatal (files.read_ecdsa_yaml path)
    fatal_if (store.private_key_store_path == "")
    key ←
        or_fatal
          (files.read_ecdsa_key store.private_key_store_path store.private_key_store_password)
    signer ← or_fatal (files.new_private_key_signer key chain_id)
    returned (some (record { private_key = key; signer = signer }))

  unfoldable pub new_bls_config : String → Outcome (Option (BlsConfig files.BlsKeyPair))
  new_bls_config path = do
    fatal_if (files.missing path)
    store ← or_fatal (files.read_bls_yaml path)
    fatal_if (store.private_key_store_path == "")
    pair ←
        or_fatal (files.read_bls_key store.private_key_store_path store.private_key_store_password)
    returned (some (record { key_pair = pair }))
