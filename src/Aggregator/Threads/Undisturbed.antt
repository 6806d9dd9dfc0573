-- ===== src/Aggregator/Threads/Undisturbed.antt =====
-- The moves of a goroutine that no other disturbs, against the operations of State, Server and Respond.
use beluuga.Prelude.{ℕ, zero, suc, ◌≡◌, ap, refl, false, none, some, inl, inr, arith, Option-cases}
use beluuga.Prelude.Keys.{nat_eq}
use beluuga.Errors.{Error, Result, ok, err, Result-cases, ok-injective}
use beluuga.Go.Call.{Call, ◌>>=◌, >>=-eq-ok, >>=-eq-err}
use beluuga.Go.Outcome.{returned, >>=-eq-returned}
use beluuga.Types.{Bytes32}
use beluuga.Retry.{retry, retry-zero, retry_ok, retry_err}
use beluuga.Chain.Client.{EthClient}
use beluuga.Chain.Receipt.{wait_for_transaction_receipt}
use beluuga.Chain.Writer
use beluuga.Aggregator.State.{
  BlsAggregationService, Aggregator, lock, lock_free, unlock_held, add_locked, add_new_task,
}
use beluuga.Aggregator.Subscribe.{NewBatch}
use beluuga.Aggregator.Respond.{
  BlsAggServiceResponse, Sending, service_error, responded, outcome, pause, on_chain,
  inc_aggregated_responses, send_aggregated_response, respond, merkle_root,
  non_signer_stakes_and_signature, handle_bls_agg_service_response, max_sent_tx_retries,
}
use beluuga.Aggregator.Threads.{
  listening, adding, answering, sending, handled, Shared, add_lock, add, drop, read_lock, read,
  wallet_lock, pay, pay_fails, confirm, confirm_fails, retry as move_retry, lose,
}
use beluuga.Aggregator.Threads.Progress.{Alone, stop, go, join}

module _ (bls : BlsAggregationService) (eth : EthClient) {F : Type 0} (big_int : F → ℕ) where
  open bls use {Service, Signature}
  open eth use {World, Receipt}

  AddNewTask-Alone :
      (m : Shared Service World) (b : NewBatch) {agg' : Aggregator Service}
      → add_new_task bls b.batch_merkle_root b.task_created_block m.agg ≡ returned agg'
      → Alone bls eth big_int 2 m (adding b) (record m { agg = agg' }) listening
  unfolding add_new_task
  AddNewTask-Alone m b h =
      let (agg, locked, rest) =
        >>=-eq-returned (lock m.agg) (add_locked bls b.batch_merkle_root b.task_created_block) h in
      go (add_lock locked) (go (add rest) stop)

  module _ (m : Shared Service World) (root : Bytes32) (resp : BlsAggServiceResponse F) where
    -- The wallet is free, and the chain and the metric are these.
    abbrev at_out : Sending World → Shared Service World
    at_out s = record m { wallet_mutex = false; out = s }

    abbrev attempt : Sending World → Sending World × Result Receipt
    attempt = send_aggregated_response eth root (non_signer_stakes_and_signature big_int resp)

    abbrev pays : Call (Sending World) Bytes32
    pays =
        on_chain eth
          (Writer.send_aggregated_response eth root (non_signer_stakes_and_signature big_int resp))

    abbrev confirms : Bytes32 → Call (Sending World) Receipt
    confirms hash = on_chain eth (wait_for_transaction_receipt eth hash)

    attempt_ok :
        (n : ℕ) (s : Sending World) {s' : Sending World} {receipt : Receipt}
        → attempt s ≡ (s', ok receipt)
        → Alone bls eth big_int 3
            (at_out s)
            (sending (suc n) root resp)
            (at_out s')
            (handled (responded receipt))
    unfolding send_aggregated_response inc_aggregated_responses
    attempt_ok n s h =
        let (s1, hash, paid, h') =
          >>=-eq-ok pays (λ hash. confirms hash >>= inc_aggregated_responses eth) h in
        let (s2, receipt, confirmed, last) =
          >>=-eq-ok (confirms hash) (inc_aggregated_responses eth) h' in
        let same_out = ap (λ r. r.0) last in
        let same = ok-injective (ap (λ r. r.1) last) in
        rw (← same_out, ← same)
          (go (wallet_lock refl) (go (pay paid) (go (confirm confirmed) stop)))

    attempt_err :
        (n : ℕ) (s : Sending World) {s' : Sending World} {e : Error}
        → attempt s ≡ (s', err e)
        → (k : ℕ) × Alone bls eth big_int k
            (at_out s)
            (sending (suc n) root resp)
            (at_out (pause eth e s'))
            (sending n root resp)
    unfolding send_aggregated_response inc_aggregated_responses
    attempt_err n s h =
        elim (>>=-eq-err pays (λ hash. confirms hash >>= inc_aggregated_responses eth) h) [
          | inl unpaid ↦ (3, go (wallet_lock refl) (go (pay_fails unpaid) (go move_retry stop)))
          | inr (s1, hash, paid, h') ↦
              elim (>>=-eq-err (confirms hash) (inc_aggregated_responses eth) h') [
                | inl lost_out ↦ (
                  4,
                  go (wallet_lock refl)
                      (go (pay paid) (go (confirm_fails lost_out) (go move_retry stop))),
                )
                | inr (s2, receipt, _, never) ↦ absurd cc
              ]
        ]

    retry-Alone :
        (n : ℕ) (s : Sending World)
        → let (s', r) = retry attempt (pause eth) n s in
          (k : ℕ) × Alone bls eth big_int k
            (at_out s)
            (sending n root resp)
            (at_out s')
            (handled (outcome eth r))
    retry-Alone zero s = rw (retry-zero attempt (pause eth) s) (1, go lose stop)
    retry-Alone (suc n) s = elim (Result-cases (attempt s).1) [
      | inl (receipt, e) ↦
          rw (retry_ok attempt (pause eth) n s e) (3, attempt_ok n s (λ i. ((attempt s).0, e i)))
      | inr (bad, e) ↦
          let (k, first) = attempt_err n s (λ i. ((attempt s).0, e i)) in
          let (l, rest) = retry-Alone n (pause eth bad (attempt s).0) in
          rw (retry_err attempt (pause eth) n s e) (join bls eth big_int first rest)
    ]

  handle_error :
      (m : Shared Service World) (resp : BlsAggServiceResponse F) {e : Error}
      → resp.error ≡ some e
      → handle_bls_agg_service_response eth big_int m.agg resp m.out ≡ (m.out, service_error e)
  unfolding handle_bls_agg_service_response
  handle_error m resp bad = ground arith

  handle_answer :
      (m : Shared Service World) (resp : BlsAggServiceResponse F)
      → resp.error ≡ none
      → handle_bls_agg_service_response eth big_int m.agg resp m.out
        ≡ respond eth
            (merkle_root m.agg resp.task_index)
            (non_signer_stakes_and_signature big_int resp)
            m.out
  unfolding handle_bls_agg_service_response
  handle_answer m resp good = ground arith

  -- From a state with both mutexes free, a goroutine that answers the BLS service and that no other
  -- disturbs ends as
  -- `handleBlsAggServiceResponse` does, with its result and with what it did to the chain and the
  -- metric, and leaves everything else as it was.
  pub handle-Alone :
      (m : Shared Service World) (resp : BlsAggServiceResponse F)
      → m.agg.task_mutex ≡ false
      → let (out', h) = handle_bls_agg_service_response eth big_int m.agg resp m.out in
        (k : ℕ) × Alone bls eth big_int k
          (record m { wallet_mutex = false })
          (answering resp)
          (record m { wallet_mutex = false; out = out' })
          (handled h)
  unfolding respond merkle_root
  handle-Alone m resp free = elim (Option-cases resp.error) [
    | inr (e, bad) ↦ rw (handle_error m resp bad) (1, go (drop bad) stop)
    | inl good ↦
        let root = merkle_root m.agg resp.task_index in
        let (k, run) = retry-Alone m root resp max_sent_tx_retries m.out in
        rw (handle_answer m resp good) (
          suc (suc k),
          go (read_lock good (lock_free m.agg free)) (go (read (unlock_held m.agg free)) run),
        )
  ]
