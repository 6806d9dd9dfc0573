-- ===== src/Aggregator/Threads/Nearer.antt =====
-- The next move of each goroutine on its way to its end, and the moves of others that it waits for.
use beluuga.Prelude.{
  ℕ, zero, suc, ◌+◌, ◌*◌, ◌<◌, arith, ◌≡◌, ◌⊎◌, refl, ap, Bool, true, false, inl, inr, Option-cases,
}
use beluuga.Prelude.Keys.{bytes_eq, nat_eq}
use beluuga.Errors.{Result-cases}
use beluuga.Go.Map
use beluuga.Chain.Client.{EthClient}
use beluuga.Chain.Receipt.{wait_for_transaction_receipt}
use beluuga.Chain.Writer
use beluuga.Aggregator.State.{BlsAggregationService, lock_free}
use beluuga.Aggregator.Server.{hand_over}
use beluuga.Aggregator.AddTask.Returns.{TaskLaws}
use beluuga.Aggregator.Threads.Vacancy.{StartedEmpty, Reach-Vacant}
use beluuga.Aggregator.Respond.{on_chain, non_signer_stakes_and_signature, max_sent_tx_retries}
use beluuga.Aggregator.Threads.{
  Thread, unborn, listening, adding, registering, asking, looking, sleeping, handing, leaving,
  replied, answering, reading, sending, paying, confirming, pausing, handled, in_task, in_wallet,
  Shared, Move, add_lock, add, give_up, look, find, miss, wake, hand, leave, drop, read_lock, read,
  wallet_lock, pay, pay_fails, confirm, confirm_fails, retry, lose, System, Reach,
}
use beluuga.Aggregator.Threads.Invariant.{subscribes}
use beluuga.Aggregator.Threads.Reached.{Reach-Inv}
use beluuga.Aggregator.Threads.Progress.{unlocks, add_locked_returns}
use beluuga.Aggregator.Threads.Proceeds.{now, Gets, task_freed, wallet_freed}

module _ {Signature F R : Type 0} where
  -- It was started.
  abbrev pub born : Thread Signature F R → Bool
  born unborn = false
  born _ = true

  -- The subscriber waits for a batch again; a call or an answer returned.
  abbrev pub ended : Thread Signature F R → Bool
  ended listening = true
  ended (replied _) = true
  ended (handled _) = true
  ended _ = false

  -- It serves a call of an operator.
  abbrev asks : Thread Signature F R → Bool
  asks (asking _ _) = true
  asks (looking _ _) = true
  asks (sleeping _ _) = true
  asks (handing _ _) = true
  asks (leaving _) = true
  asks _ = false

  -- It serves an answer of the BLS service.
  abbrev answers : Thread Signature F R → Bool
  answers (answering _) = true
  answers (reading _) = true
  answers (sending _ _ _) = true
  answers (paying _ _ _) = true
  answers (confirming _ _ _ _) = true
  answers (pausing _ _ _ _) = true
  answers _ = false

  roles :
      (p : Thread Signature F R)
      → born p ≡ true
      → ended p ≡ false
      → (subscribes p ≡ true) ⊎ (asks p ≡ true) ⊎ (answers p ≡ true)
  roles unborn b on = absurd cc
  roles listening b on = absurd cc
  roles (adding _) b on = inl refl
  roles (registering _) b on = inl refl
  roles (asking _ _) b on = inr (inl refl)
  roles (looking _ _) b on = inr (inl refl)
  roles (sleeping _ _) b on = inr (inl refl)
  roles (handing _ _) b on = inr (inl refl)
  roles (leaving _) b on = inr (inl refl)
  roles (replied _) b on = absurd cc
  roles (handled _) b on = absurd cc
  roles (answering _) b on = inr (inr refl)
  roles (reading _) b on = inr (inr refl)
  roles (sending _ _ _) b on = inr (inr refl)
  roles (paying _ _ _) b on = inr (inr refl)
  roles (confirming _ _ _ _) b on = inr (inr refl)
  roles (pausing _ _ _ _) b on = inr (inr refl)

  -- The moves that a goroutine has before it at most.
  unfoldable pub rank : Thread Signature F R → ℕ
  rank unborn = 0
  rank listening = 0
  rank (adding _) = 2
  rank (registering _) = 1
  rank (asking n _) = 3 * n + 1
  rank (looking n _) = 3 * n + 3
  rank (sleeping n _) = 3 * n + 2
  rank (handing _ _) = 2
  rank (leaving _) = 1
  rank (replied _) = 0
  rank (answering _) = 4 * max_sent_tx_retries + 3
  rank (reading _) = 4 * max_sent_tx_retries + 2
  rank (sending n _ _) = 4 * n + 1
  rank (paying n _ _) = 4 * n + 4
  rank (confirming n _ _ _) = 4 * n + 3
  rank (pausing n _ _ _) = 4 * n + 2
  rank (handled _) = 0

module _ {bls : BlsAggregationService} {eth : EthClient} {F : Type 0} {big_int : F → ℕ}
    {s : System bls eth big_int} (reach : Reach bls eth big_int s) (laws : TaskLaws bls)
    (empty : StartedEmpty laws reach) where
  open bls use {Service, Signature}
  open eth use {World, Receipt}

  -- A move to the goroutine's next place, one that is nearer to its end.
  abbrev Nearer : Thread Signature F Receipt → Shared Service World → Type 0
  Nearer p m =
      (m' : Shared Service World) × (p' : Thread Signature F Receipt) × Move bls eth big_int m p m'
        p'
      × (rank p' < rank p)
      × (born p' ≡ true)

  abbrev held_by : (i : ℕ) → in_task (s.pc i) ≡ true → s.shared.agg.task_mutex ≡ true
  held_by i inside = let (roots, inv) = Reach-Inv reach in inv.task.held i inside

  adding-Nearer :
      (i : ℕ) (p : Thread Signature F Receipt)
      → s.pc i ≡ p
      → subscribes p ≡ true
      → ended p ≡ false
      → Gets bls eth big_int s i (Nearer p)
  unfolding rank
  adding-Nearer i (adding b) here sub on =
      let (t, l, same, free) = task_freed reach laws empty i (ap in_task here) in
      (t, l, same, (_, _, add_lock (lock_free t.shared.agg free), omega arith, refl))
  adding-Nearer i (registering b) here sub on =
      let (roots, inv) = Reach-Inv reach in
      let (agg', run) =
        add_locked_returns bls eth big_int laws b.batch_merkle_root b.task_created_block
          inv.represents (Reach-Vacant laws reach empty) (held_by i (ap in_task here)) in
      (s, now, refl, (_, _, add run, omega arith, refl))
  adding-Nearer i p here sub on = absurd cc

  asking-Nearer :
      (i : ℕ) (p : Thread Signature F Receipt)
      → s.pc i ≡ p
      → asks p ≡ true
      → Gets bls eth big_int s i (Nearer p)
  unfolding rank hand_over
  asking-Nearer i (asking zero r) here ask = (s, now, refl, (_, _, give_up, omega arith, refl))
  asking-Nearer i (asking (suc n) r) here ask =
      let (t, l, same, free) = task_freed reach laws empty i (ap in_task here) in
      (t, l, same, (_, _, look (lock_free t.shared.agg free), omega arith, refl))
  asking-Nearer i (looking n r) here ask =
      let freed = unlocks bls eth big_int s.shared.agg (held_by i (ap in_task here)) in
      elim (Option-cases (Map.get s.shared.agg.batches_idx_by_root r.batch_merkle_root)) [
        | inl absent ↦ (s, now, refl, (_, _, miss absent freed, omega arith, refl))
        | inr (index, present) ↦ (s, now, refl, (_, _, find present, omega arith, refl))
      ]
  asking-Nearer i (sleeping n r) here ask = (s, now, refl, (_, _, wake, omega arith, refl))
  asking-Nearer i (handing index r) here ask = (s, now, refl, (_, _, hand true, omega arith, refl))
  asking-Nearer i (leaving reply) here ask =
      let freed = unlocks bls eth big_int s.shared.agg (held_by i (ap in_task here)) in
      (s, now, refl, (_, _, leave freed, omega arith, refl))
  asking-Nearer i p here ask = absurd cc

  answering-Nearer :
      (i : ℕ) (p : Thread Signature F Receipt)
      → s.pc i ≡ p
      → answers p ≡ true
      → Gets bls eth big_int s i (Nearer p)
  unfolding rank
  answering-Nearer i (answering resp) here ans = elim (Option-cases resp.error) [
    | inl none_ ↦
        let (t, l, same, free) = task_freed reach laws empty i (ap in_task here) in
        (t, l, same, (_, _, read_lock none_ (lock_free t.shared.agg free), omega arith, refl))
    | inr (e, failed) ↦ (s, now, refl, (_, _, drop failed, omega arith, refl))
  ]
  answering-Nearer i (reading resp) here ans =
      let freed = unlocks bls eth big_int s.shared.agg (held_by i (ap in_task here)) in
      (s, now, refl, (_, _, read freed, omega arith, refl))
  answering-Nearer i (sending zero root resp) here ans =
      (s, now, refl, (_, _, lose, omega arith, refl))
  answering-Nearer i (sending (suc n) root resp) here ans =
      let (t, l, same, free) = wallet_freed reach laws empty i (ap in_wallet here) in
      (t, l, same, (_, _, wallet_lock free, omega arith, refl))
  answering-Nearer i (paying n root resp) here ans =
      let sent =
        on_chain eth
          (Writer.send_aggregated_response eth root (non_signer_stakes_and_signature big_int resp))
          s.shared.out in
      elim (Result-cases sent.1) [
        | inl (hash, e) ↦
            (s, now, refl, (_, _, pay {out = sent.0} (λ j. (sent.0, e j)), omega arith, refl))
        | inr (x, e) ↦
            (s, now, refl, (_, _, pay_fails {out = sent.0} (λ j. (sent.0, e j)), omega arith, refl))
      ]
  answering-Nearer i (confirming n hash root resp) here ans =
      let seen = on_chain eth (wait_for_transaction_receipt eth hash) s.shared.out in
      elim (Result-cases seen.1) [
        | inl (receipt, e) ↦
            (s, now, refl, (_, _, confirm {out = seen.0} (λ j. (seen.0, e j)), omega arith, refl))
        | inr (x, e) ↦ (
          s,
          now,
          refl,
          (_, _, confirm_fails {out = seen.0} (λ j. (seen.0, e j)), omega arith, refl),
        )
      ]
  answering-Nearer i (pausing n e root resp) here ans =
      (s, now, refl, (_, _, retry, omega arith, refl))
  answering-Nearer i p here ans = absurd cc

  pub Reach-Nearer :
      (i : ℕ)
      → born (s.pc i) ≡ true
      → ended (s.pc i) ≡ false
      → Gets bls eth big_int s i (Nearer (s.pc i))
  Reach-Nearer i b on = elim (roles (s.pc i) b on) [
    | inl sub ↦ adding-Nearer i (s.pc i) refl sub on
    | inr (inl ask) ↦ asking-Nearer i (s.pc i) refl ask
    | inr (inr ans) ↦ answering-Nearer i (s.pc i) refl ans
  ]
