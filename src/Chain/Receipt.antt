-- ===== src/Chain/Receipt.antt =====
-- core/utils/eth_client_utils.go
use beluuga.Prelude.{ℕ, ◌≡◌, ◌<◌, Option, none, some, List, map, arith}
use beluuga.Errors.{Error, Result, ok, err, receipt_not_found}
use beluuga.Types.{Bytes32}
use beluuga.Retry.{retry, world_after, FailsFor, retry_succeeds, retry_gives_up}
use beluuga.Chain.Client.{EthClient}

abbrev pub max_retries : ℕ
max_retries = 25

abbrev pub sleep_time : ℕ
sleep_time = 5

abbrev found {ℓ} : {R : Type ℓ} → Option R → Result R
found none = err receipt_not_found
found (some r) = ok r

-- The pause between two questions, whatever the error was.
abbrev pub wait_seconds : (eth : EthClient) → ℕ → Error → eth.World → eth.World
wait_seconds eth n e w = eth.sleep n w

module _ (eth : EthClient) where
  open eth use {World, Receipt, transaction_receipt}

  unfoldable pub wait_for_transaction_receipt : Bytes32 → World → World × Result Receipt
  unfolding retry
  wait_for_transaction_receipt hash w =
      let (w', r) = retry (transaction_receipt hash) (wait_seconds eth sleep_time) max_retries w in
      (w', found r)

  -- If the node has the receipt at question `k` for the first time, and `k` is below 25, the call
  -- returns that receipt and asks no more.
  pub wait_finds_receipt :
      (hash : Bytes32) (w : World) (k : ℕ) (r : Receipt)
      → k < 25
      → FailsFor (transaction_receipt hash) (wait_seconds eth 5) k w
      → (transaction_receipt hash
          (world_after (transaction_receipt hash) (wait_seconds eth 5) k w)).1
        ≡ ok r
      → wait_for_transaction_receipt hash w ≡ (
        (transaction_receipt hash
            (world_after (transaction_receipt hash) (wait_seconds eth 5) k w)).0,
        ok r,
      )
  unfolding wait_for_transaction_receipt
  wait_finds_receipt hash w k r lt f s =
      ground (arith, retry_succeeds (transaction_receipt hash) (wait_seconds eth 5) 25 k w r lt f s)

  -- The call gives up after 25 questions without a receipt.
  pub wait_gives_up :
      (hash : Bytes32) (w : World)
      → FailsFor (transaction_receipt hash) (wait_seconds eth 5) 25 w
      → wait_for_transaction_receipt hash w
        ≡ (world_after (transaction_receipt hash) (wait_seconds eth 5) 25 w, err receipt_not_found)
  unfolding wait_for_transaction_receipt
  wait_gives_up hash w f =
      ground (arith, retry_gives_up (transaction_receipt hash) (wait_seconds eth 5) 25 w f)

-- `BytesToQuorumNumbers` and `BytesToQuorumThresholdPercentages`: each byte is converted to the
-- library's type of numbers, which is a `uint8` too.
unfoldable pub bytes_to_quorum_numbers : List ℕ → List ℕ
bytes_to_quorum_numbers = map (λ b. b)
