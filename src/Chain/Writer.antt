-- ===== src/Chain/Writer.antt =====
-- core/chainio/avs_writer.go: the two transactions that the program sends.
use beluuga.Prelude.{ℕ, ◌*◌, ◌/◌, ◌≤◌, ◌<◌, ◌≡◌, ◌↔◌, true, false, String, arith}
use beluuga.Errors.{Error, ok, err}
use beluuga.Types.{Bytes32}
use beluuga.Go.Word.{u64, u64_mod}
use beluuga.Go.Call.{Call, ◌>>=◌, ◌>>◌, pure}
use beluuga.Chain.Client.{EthClient, TxOpts, Tx, NonSignerStakesAndSignature}
use beluuga.Chain.Receipt.{wait_for_transaction_receipt}

-- `tx.Gas() * 110 / 100` on `uint64`.
unfoldable pub gas_with_margin : ℕ → ℕ
gas_with_margin gas = u64 (gas * 110) / 100

module _ (eth : EthClient) where
  open eth use {World, get_tx_opts, create_new_task, respond_to_task}

  unfoldable pub send_task : Bytes32 → String → Call World (Unit {0})
  unfolding wait_for_transaction_receipt
  send_task root pointer = do
    tx ← create_new_task get_tx_opts root pointer
    wait_for_transaction_receipt eth tx.hash
    pure tt

  -- The first call has the node simulate the transaction, the second sends it.
  unfoldable pub send_aggregated_response :
      Bytes32 → NonSignerStakesAndSignature → Call World Bytes32
  unfolding gas_with_margin
  send_aggregated_response root stakes = do
    let opts = record get_tx_opts { no_send = true }
    simulated ← respond_to_task opts root stakes
    tx ←
        respond_to_task (record opts { no_send = false; gas_limit = gas_with_margin simulated.gas })
          root stakes
    pure tx.hash

-- For gas on 64 bits: the gas limit covers the gas of the simulation exactly when the product does not
-- wrap; then it is at most a tenth above, rounded down.
pub gas_with_margin_bounds :
    (gas : ℕ)
    → gas < u64_mod
    → ((gas ≤ gas_with_margin gas) ↔ (gas * 110 < u64_mod))
      × (gas_with_margin gas * 100 ≤ gas * 110)
unfolding gas_with_margin
gas_with_margin_bounds gas h = (((λ p. omega arith), (λ p. omega arith)), omega arith)

-- Documented of `bind.TransactOpts`: with `NoSend` nothing is sent, so the world stays as it is.
abbrev pub NoSendKeeps : EthClient → Type 0
NoSendKeeps eth =
    (opts : TxOpts) (root : Bytes32) (stakes : NonSignerStakesAndSignature) (w : eth.World)
    → opts.no_send ≡ true
    → (eth.respond_to_task opts root stakes w).0 ≡ w

module _ (eth : EthClient) where
  open eth use {World, get_tx_opts, respond_to_task}

  -- Where a call with `NoSend` leaves the world as it is: a response whose simulation fails is not
  -- sent: the world stays as it was and the error comes back.
  pub simulation_fails :
      (root : Bytes32) (stakes : NonSignerStakesAndSignature) (w : World) (e : Error)
      → NoSendKeeps eth
      → (respond_to_task (record get_tx_opts { no_send = true }) root stakes w).1 ≡ err e
      → send_aggregated_response eth root stakes w ≡ (w, err e)
  unfolding send_aggregated_response
  simulation_fails root stakes w e quiet failed =
      ground (arith, quiet (record get_tx_opts { no_send = true }) root stakes w)

  -- Where a call with `NoSend` leaves the world as it is: a response whose simulation passes is sent
  -- once, for the same root and signature, with the margin on the gas of the simulation; the result is
  -- the hash of that transaction, or its error.
  pub simulation_passes :
      (root : Bytes32) (stakes : NonSignerStakesAndSignature) (w : World) (tx : Tx)
      → NoSendKeeps eth
      → (respond_to_task (record get_tx_opts { no_send = true }) root stakes w).1 ≡ ok tx
      → let sent =
          respond_to_task
            (record { no_send = false; gas_limit = gas_with_margin tx.gas })
            root
            stakes
            w in
        send_aggregated_response eth root stakes w
        ≡ (sent.0, elim sent.1 [ ok t ↦ ok t.hash | err e ↦ err e ])
  unfolding send_aggregated_response
  simulation_passes root stakes w tx quiet passed =
      ground (arith, quiet (record get_tx_opts { no_send = true }) root stakes w)
