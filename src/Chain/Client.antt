-- ===== src/Chain/Client.antt =====
-- What the program calls of go-ethereum and of the generated contract bindings.
use beluuga.Prelude.{ℕ, Bool, String, List}
use beluuga.Errors.{Result}
use beluuga.Types.{Bytes32}
use beluuga.Chain.Points.{Bn254G1Point, Bn254G2Point}

-- The fields of `bind.TransactOpts` that the program sets.
pub record TxOpts : Type 0 where
  pub no_send : Bool
  pub gas_limit : ℕ

-- A transaction that the bindings have put together: `Gas()` and `Hash()`.
pub record Tx : Type 0 where
  pub gas : ℕ
  pub hash : Bytes32

-- `IBLSSignatureCheckerNonSignerStakesAndSignature` of the bindings.
pub record NonSignerStakesAndSignature : Type 0 where
  pub non_signer_quorum_bitmap_indices : List ℕ
  pub non_signer_pubkeys : List Bn254G1Point
  pub quorum_apks : List Bn254G1Point
  pub apk_g2 : Bn254G2Point
  pub sigma : Bn254G1Point
  pub quorum_apk_indices : List ℕ
  pub total_stake_indices : List ℕ
  pub non_signer_stake_indices : List (List ℕ)

-- Calls change the world: the chain, the node, and the clock.
pub record EthClient : Type 1 where
  pub World : Type 0
  pub Receipt : Type 0
  pub transaction_receipt : Bytes32 → World → World × Result Receipt
  -- `*Signer.GetTxOpts()`
  pub get_tx_opts : TxOpts
  pub create_new_task : TxOpts → Bytes32 → String → World → World × Result Tx
  pub respond_to_task : TxOpts → Bytes32 → NonSignerStakesAndSignature → World → World × Result Tx
  -- `time.Sleep`, in seconds
  pub sleep : ℕ → World → World
