-- ===== src/Aggregator/Threads/Proceeds.antt =====
-- What the goroutines of a running aggregator can reach from a state in which one waits for a mutex.
use beluuga.Prelude.{ℕ, ◌≡◌, ◌≢◌, ◌∙◌, refl, ap, true, false, inl, inr, Bool-cases}
use beluuga.Prelude.Keys.{bytes_eq, nat_eq}
use beluuga.Errors.{Result-cases}
use beluuga.Go.Mutex.{move_to, move_to_here, move_to_other}
use beluuga.Chain.Client.{EthClient}
use beluuga.Chain.Writer
use beluuga.Aggregator.State.{BlsAggregationService}
use beluuga.Aggregator.AddTask.Returns.{TaskLaws}
use beluuga.Aggregator.Threads.Vacancy.{StartedEmpty, Reach-Vacant}
use beluuga.Aggregator.Respond.{on_chain, non_signer_stakes_and_signature}
use beluuga.Aggregator.Threads.{
  Thread, paying, in_task, in_wallet, Shared, Move, pay, pay_fails, System, Step, pick, Reach,
}
use beluuga.Aggregator.Threads.Reached.{Reach-Inv}
use beluuga.Aggregator.Threads.Progress.{Alone, stop, go, in_task-Frees}

module _ (bls : BlsAggregationService) (eth : EthClient) {F : Type 0} (big_int : F → ℕ) where
  open bls use {Service, Signature}
  open eth use {World, Receipt}

  -- What can be reached from a state.
  pub data Later (s : System bls eth big_int) : System bls eth big_int → Type 0 where
    now : Later s s
    then_step : {t u : System bls eth big_int} → Later s t → Step bls eth big_int t u → Later s u

  abbrev pub moved :
      System bls eth big_int
      → ℕ
      → Shared Service World
      → Thread Signature F Receipt
      → System bls eth big_int
  moved s j m p = record { shared = m; pc = move_to s.pc j p }

  pub step_at :
      (s : System bls eth big_int) (j : ℕ) {m m' : Shared Service World}
      {p p' : Thread Signature F Receipt}
      → s.shared ≡ m
      → s.pc j ≡ p
      → Move bls eth big_int m p m' p'
      → Step bls eth big_int s (moved s j m' p')
  step_at s j {m' = m'} {p' = p'} same here mv =
      let mv' : Move bls eth big_int s.shared (s.pc j) m' p' = rw (same, here) mv in pick j mv'

  -- Moves of goroutine `j` alone leave the places of the others.
  Alone-Later :
      {k : ℕ} {m m' : Shared Service World} {p p' : Thread Signature F Receipt}
      (run : Alone bls eth big_int k m p m' p') (s t : System bls eth big_int) (j : ℕ)
      → Later s t
      → t.shared ≡ m
      → t.pc j ≡ p
      → (u : System bls eth big_int) × Later s u
        × (u.shared ≡ m')
        × ((i : ℕ) → j ≢ i → u.pc i ≡ t.pc i)
  Alone-Later stop s t j l same here = (t, l, same, λ i ne. refl)
  Alone-Later (go {m' = m1} {p' = p1} mv rest) s t j l same here =
      let (u, l', same', others) =
        Alone-Later rest s (moved t j m1 p1) j (then_step l (step_at t j same here mv)) refl
          (move_to_here t.pc j j p1 refl) in
      (u, l', same', λ i ne. others i ne ∙ move_to_other t.pc j i p1 ne)

  -- Goroutine `i` stands where it stood, and the state has the property.
  abbrev pub Gets : System bls eth big_int → ℕ → (Shared Service World → Type 0) → Type 0
  Gets s i P = (t : System bls eth big_int) × Later s t × (t.pc i ≡ s.pc i) × P t.shared

  -- The sending of a transaction ends, with a hash or with an error.
  paying-Frees :
      (m : Shared Service World) (p : Thread Signature F Receipt)
      → in_wallet p ≡ true
      → (m' : Shared Service World) × (p' : Thread Signature F Receipt) × Move bls eth big_int m p
          m' p'
        × (m'.wallet_mutex ≡ false)
  paying-Frees m (paying n root resp) h =
      let sent =
        on_chain eth
          (Writer.send_aggregated_response eth root (non_signer_stakes_and_signature big_int resp))
          m.out in
      elim (Result-cases sent.1) [
        | inl (hash, e) ↦ (_, _, pay {out = sent.0} (λ i. (sent.0, e i)), refl)
        | inr (x, e) ↦ (_, _, pay_fails {out = sent.0} (λ i. (sent.0, e i)), refl)
      ]
  paying-Frees m p h = absurd cc

module _ {bls : BlsAggregationService} {eth : EthClient} {F : Type 0} {big_int : F → ℕ}
    {s : System bls eth big_int} (reach : Reach bls eth big_int s) (laws : TaskLaws bls)
    (empty : StartedEmpty laws reach) where
  open bls use {Service, Signature}
  open eth use {World, Receipt}

  pub task_freed :
      (i : ℕ) → in_task (s.pc i) ≡ false → Gets bls eth big_int s i (λ m. m.agg.task_mutex ≡ false)
  task_freed i out = elim (Bool-cases s.shared.agg.task_mutex) [
    | inr free ↦ (s, now, refl, free)
    | inl taken ↦
        let (roots, inv) = Reach-Inv reach in
        let (j, inside) = inv.task.owned taken in
        let (n, m', p', run, free, _) =
          in_task-Frees bls eth big_int laws s.shared (s.pc j) inv.represents
            (Reach-Vacant laws reach empty) taken inside in
        let (u, l, same, others) = Alone-Later bls eth big_int run s s j now refl refl in
        (
          u,
          l,
          others i (λ e. cc (ap (λ k. in_task (s.pc k)) e, inside, out)),
          ap (λ m. m.agg.task_mutex) same ∙ free,
        )
  ]

  pub wallet_freed :
      (i : ℕ) → in_wallet (s.pc i) ≡ false → Gets bls eth big_int s i (λ m. m.wallet_mutex ≡ false)
  wallet_freed i out = elim (Bool-cases s.shared.wallet_mutex) [
    | inr free ↦ (s, now, refl, free)
    | inl taken ↦
        let (roots, inv) = Reach-Inv reach in
        let (j, inside) = inv.wallet.owned taken in
        let (m', p', mv, free) = paying-Frees bls eth big_int s.shared (s.pc j) inside in
        (
          moved bls eth big_int s j m' p',
          then_step now (pick j mv),
          move_to_other s.pc j i p' (λ e. cc (ap (λ k. in_wallet (s.pc k)) e, inside, out)),
          free,
        )
  ]
