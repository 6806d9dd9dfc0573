-- ===== src/Aggregator/Threads.antt =====
-- aggregator/internal/pkg: the goroutines of a running aggregator, interleaved. Goroutine 0 runs the
-- loop of subscriber.go over the batches, every other one serves a call of an operator (server.go) or an
-- answer of the BLS service (aggregator.go). A goroutine moves from one access to shared state to the
-- next; between its moves any others may come. `initialize_new_task` and the two map writes before it
-- are one move, since the maps are only read under the mutex that is held. The wait for a
-- receipt is one move too: it takes no mutex. A call that ends the process has no move.
pub mod Invariant
pub mod Moves
pub mod Reached
pub mod Safety
pub mod Vacancy
pub mod Progress
pub mod Proceeds
pub mod Nearer
pub mod Ends
pub mod Heard
pub mod Undisturbed
pub mod Calls
use beluuga.Prelude.{
  ℕ, zero, suc, ◌+◌, Bool, true, false, Option, none, some, List, [], ◌∷◌, ◌++◌, ◌≡◌, ◌≢◌,
}
use beluuga.Prelude.Keys.{nat_eq, bytes_eq}
use beluuga.Go.Map
use beluuga.Go.Mutex.{move_to}
use beluuga.Go.Outcome.{returned}
use beluuga.Errors.{Error, ok, err}
use beluuga.Types.{Bytes32, SignedTaskResponse}
use beluuga.Chain.Client.{EthClient}
use beluuga.Chain.Receipt.{wait_for_transaction_receipt}
use beluuga.Chain.Writer
use beluuga.Aggregator.State.{
  BlsAggregationService, Aggregator, new_aggregator, lock, unlock, add_locked,
}
use beluuga.Aggregator.Server.{SignatureCall, Reply, hand_over, wait_for_event_retries}
use beluuga.Aggregator.Subscribe.{NewBatch}
use beluuga.Aggregator.Respond.{
  BlsAggServiceResponse, Sending, Handled, service_error, responded, lost, max_sent_tx_retries,
  non_signer_stakes_and_signature, merkle_root, on_chain, pause,
}

-- Where a goroutine stands, with the local variables that are live there.
pub data Thread (Signature F Receipt : Type 0) : Type 0 where
  unborn : Thread Signature F Receipt
  -- the loop of `subscribeToNewTasks`; before the `Lock` of `AddNewTask`; behind it
  listening : Thread Signature F Receipt
  adding : NewBatch → Thread Signature F Receipt
  registering : NewBatch → Thread Signature F Receipt
  -- `ProcessOperatorSignedTaskResponse` with rounds left: before the `Lock`; behind it; in the sleep
  asking : ℕ → SignedTaskResponse Signature → Thread Signature F Receipt
  looking : ℕ → SignedTaskResponse Signature → Thread Signature F Receipt
  sleeping : ℕ → SignedTaskResponse Signature → Thread Signature F Receipt
  -- in the `select`; behind it; returned
  handing : ℕ → SignedTaskResponse Signature → Thread Signature F Receipt
  leaving : Reply Signature → Thread Signature F Receipt
  replied : Reply Signature → Thread Signature F Receipt
  -- `handleBlsAggServiceResponse`: before the `Lock`; behind it
  answering : BlsAggServiceResponse F → Thread Signature F Receipt
  reading : BlsAggServiceResponse F → Thread Signature F Receipt
  -- its attempts, with those that are left: before the `Lock` of the wallet; behind it; waiting for the
  -- receipt of a transaction; before the sleep; returned
  sending : ℕ → Bytes32 → BlsAggServiceResponse F → Thread Signature F Receipt
  paying : ℕ → Bytes32 → BlsAggServiceResponse F → Thread Signature F Receipt
  confirming : ℕ → Bytes32 → Bytes32 → BlsAggServiceResponse F → Thread Signature F Receipt
  pausing : ℕ → Error → Bytes32 → BlsAggServiceResponse F → Thread Signature F Receipt
  handled : Handled Receipt → Thread Signature F Receipt

-- Between `taskMutex.Lock()` and `taskMutex.Unlock()`.
abbrev pub in_task : {Signature F R : Type 0} → Thread Signature F R → Bool
in_task (registering _) = true
in_task (looking _ _) = true
in_task (handing _ _) = true
in_task (leaving _) = true
in_task (reading _) = true
in_task _ = false

-- Between `walletMutex.Lock()` and `walletMutex.Unlock()`.
abbrev pub in_wallet : {Signature F R : Type 0} → Thread Signature F R → Bool
in_wallet (paying _ _ _) = true
in_wallet _ = false

-- What the goroutines share, and the batches that arrived so far.
pub record Shared (Service World : Type 0) : Type 0 where
  pub agg : Aggregator Service
  pub wallet_mutex : Bool
  pub out : Sending World
  pub history : List NewBatch

module _ (bls : BlsAggregationService) (eth : EthClient) {F : Type 0} (big_int : F → ℕ) where
  open bls use {Service, Signature, process_new_signature}
  open eth use {World, Receipt}

  -- The service's state behind a call of `ProcessNewSignature` that ran on.
  abbrev pub signed : SignatureCall Signature → Aggregator Service → Aggregator Service
  signed c agg = record agg {
    bls_aggregation_service =
        (process_new_signature c.task_index c.response.batch_merkle_root c.response.bls_signature
          c.response.operator_id agg.bls_aggregation_service).0;
  }

  -- One move of a goroutine.
  pub data Move (m : Shared Service World)
      : Thread Signature F Receipt
        → Shared Service World
        → Thread Signature F Receipt
        → Type 0 where
    arrive :
        (b : NewBatch) → Move m listening (record m { history = m.history ++ b ∷ [] }) (adding b)
    add_lock :
        {b : NewBatch} {agg : Aggregator Service}
        → lock m.agg ≡ returned agg
        → Move m (adding b) (record m { agg = agg }) (registering b)
    add :
        {b : NewBatch} {agg : Aggregator Service}
        → add_locked bls b.batch_merkle_root b.task_created_block m.agg ≡ returned agg
        → Move m (registering b) (record m { agg = agg }) listening
    call : (r : SignedTaskResponse Signature) → Move m unborn m (asking wait_for_event_retries r)
    give_up :
        {r : SignedTaskResponse Signature}
        → Move m (asking 0 r) m (replied (record { reply = 1; running = none }))
    look :
        {n : ℕ} {r : SignedTaskResponse Signature} {agg : Aggregator Service}
        → lock m.agg ≡ returned agg
        → Move m (asking (suc n) r) (record m { agg = agg }) (looking n r)
    find :
        {n index : ℕ} {r : SignedTaskResponse Signature}
        → Map.get m.agg.batches_idx_by_root r.batch_merkle_root ≡ some index
        → Move m (looking n r) m (handing index r)
    miss :
        {n : ℕ} {r : SignedTaskResponse Signature} {agg : Aggregator Service}
        → Map.get m.agg.batches_idx_by_root r.batch_merkle_root ≡ none
        → unlock m.agg ≡ returned agg
        → Move m (looking n r) (record m { agg = agg }) (sleeping n r)
    wake : {n : ℕ} {r : SignedTaskResponse Signature} → Move m (sleeping n r) m (asking n r)
    -- The `select`: the call of the service is done in time, or not.
    hand :
        {index : ℕ} {r : SignedTaskResponse Signature} (in_time : Bool)
        → Move m
            (handing index r)
            (record m { agg = (hand_over bls in_time r index m.agg).0 })
            (leaving (hand_over bls in_time r index m.agg).1)
    leave :
        {reply : Reply Signature} {agg : Aggregator Service}
        → unlock m.agg ≡ returned agg
        → Move m (leaving reply) (record m { agg = agg }) (replied reply)
    -- The call that was not waited for is done, before the handler returns or behind it.
    end_early :
        {n : ℕ} {c : SignatureCall Signature}
        → Move m
            (leaving (record { reply = n; running = some c }))
            (record m { agg = signed c m.agg })
            (leaving (record { reply = n; running = none }))
    end_late :
        {n : ℕ} {c : SignatureCall Signature}
        → Move m
            (replied (record { reply = n; running = some c }))
            (record m { agg = signed c m.agg })
            (replied (record { reply = n; running = none }))
    -- The service answers for a task that it was given.
    service_answers :
        {resp : BlsAggServiceResponse F} {root : Bytes32}
        → Map.get m.agg.batches_root_by_idx resp.task_index ≡ some root
        → Move m unborn m (answering resp)
    drop :
        {resp : BlsAggServiceResponse F} {e : Error}
        → resp.error ≡ some e
        → Move m (answering resp) m (handled (service_error e))
    read_lock :
        {resp : BlsAggServiceResponse F} {agg : Aggregator Service}
        → resp.error ≡ none
        → lock m.agg ≡ returned agg
        → Move m (answering resp) (record m { agg = agg }) (reading resp)
    read :
        {resp : BlsAggServiceResponse F} {agg : Aggregator Service}
        → unlock m.agg ≡ returned agg
        → Move m
            (reading resp)
            (record m { agg = agg })
            (sending max_sent_tx_retries (merkle_root m.agg resp.task_index) resp)
    wallet_lock :
        {n : ℕ} {root : Bytes32} {resp : BlsAggServiceResponse F}
        → m.wallet_mutex ≡ false
        → Move m (sending (suc n) root resp) (record m { wallet_mutex = true }) (paying n root resp)
    pay :
        {n : ℕ} {root hash : Bytes32} {resp : BlsAggServiceResponse F} {out : Sending World}
        → on_chain eth
            (Writer.send_aggregated_response eth root
              (non_signer_stakes_and_signature big_int resp))
            m.out
          ≡ (out, ok hash)
        → Move m
            (paying n root resp)
            (record m { wallet_mutex = false; out = out })
            (confirming n hash root resp)
    pay_fails :
        {n : ℕ} {root : Bytes32} {e : Error} {resp : BlsAggServiceResponse F} {out : Sending World}
        → on_chain eth
            (Writer.send_aggregated_response eth root
              (non_signer_stakes_and_signature big_int resp))
            m.out
          ≡ (out, err e)
        → Move m
            (paying n root resp)
            (record m { wallet_mutex = false; out = out })
            (pausing n e root resp)
    confirm :
        {n : ℕ} {hash root : Bytes32} {resp : BlsAggServiceResponse F} {out : Sending World}
        {receipt : Receipt}
        → on_chain eth (wait_for_transaction_receipt eth hash) m.out ≡ (out, ok receipt)
        → Move m
            (confirming n hash root resp)
            (record m { out = record out { aggregated_responses = out.aggregated_responses + 1 } })
            (handled (responded receipt))
    confirm_fails :
        {n : ℕ} {hash root : Bytes32} {resp : BlsAggServiceResponse F} {out : Sending World}
        {e : Error}
        → on_chain eth (wait_for_transaction_receipt eth hash) m.out ≡ (out, err e)
        → Move m (confirming n hash root resp) (record m { out = out }) (pausing n e root resp)
    retry :
        {n : ℕ} {root : Bytes32} {e : Error} {resp : BlsAggServiceResponse F}
        → Move m
            (pausing n e root resp)
            (record m { out = pause eth e m.out })
            (sending n root resp)
    lose :
        {root : Bytes32} {resp : BlsAggServiceResponse F}
        → Move m (sending 0 root resp) m (handled lost)

  pub record System : Type 0 where
    pub shared : Shared Service World
    pub pc : ℕ → Thread Signature F Receipt

  -- Some goroutine moves.
  pub data Step (s : System) : System → Type 0 where
    pick :
        (i : ℕ) {m : Shared Service World} {p : Thread Signature F Receipt}
        → Move s.shared (s.pc i) m p
        → Step s (record { shared = m; pc = move_to s.pc i p })

  abbrev pub at_start : ℕ → Thread Signature F Receipt
  at_start zero = listening
  at_start (suc _) = unborn

  -- A new aggregator, with the subscriber's goroutine alone.
  abbrev pub init : Service → Sending World → System
  init service out = record {
    shared = record { agg = new_aggregator service; wallet_mutex = false; out = out; history = [] };
    pc = at_start;
  }

  pub data Reach : System → Type 0 where
    start : (service : Service) (out : Sending World) → Reach (init service out)
    later : {s t : System} → Reach s → Step s t → Reach t
