-- ===== src/Aggregator/Threads/Ends.antt =====
-- How a goroutine of a running aggregator comes to the end of its work.
use mathlib.Core.Path.{subst}
use beluuga.Prelude.{ℕ, zero, suc, ◌<◌, arith, ◌≡◌, ◌∙◌, refl, sym, ap, true, inl, inr, Bool-cases}
use beluuga.Prelude.Keys.{bytes_eq, nat_eq}
use beluuga.Go.Mutex.{move_to_here}
use beluuga.Chain.Client.{EthClient}
use beluuga.Aggregator.State.{BlsAggregationService}
use beluuga.Aggregator.AddTask.Returns.{TaskLaws}
use beluuga.Aggregator.Threads.Vacancy.{StartedEmpty}
use beluuga.Aggregator.Threads.{System, Reach, later}
use beluuga.Aggregator.Threads.Proceeds.{Later, now, then_step, step_at}
use beluuga.Aggregator.Threads.Nearer.{born, ended, rank, Reach-Nearer}

module _ (bls : BlsAggregationService) (eth : EthClient) {F : Type 0} (big_int : F → ℕ) where
  Later-Reach :
      {s t : System bls eth big_int}
      → Later bls eth big_int s t
      → Reach bls eth big_int s
      → Reach bls eth big_int t
  Later-Reach now reach = reach
  Later-Reach (then_step l st) reach = later (Later-Reach l reach) st

  Later-StartedEmpty :
      {s t : System bls eth big_int} (laws : TaskLaws bls) (l : Later bls eth big_int s t)
      (reach : Reach bls eth big_int s)
      → StartedEmpty laws reach
      → StartedEmpty laws (Later-Reach l reach)
  unfolding Later-Reach
  Later-StartedEmpty laws now reach empty = empty
  Later-StartedEmpty laws (then_step l st) reach empty = Later-StartedEmpty laws l reach empty

  Later-trans :
      {s t u : System bls eth big_int}
      → Later bls eth big_int s t
      → Later bls eth big_int t u
      → Later bls eth big_int s u
  Later-trans l now = l
  Later-trans l (then_step l' st) = then_step (Later-trans l l') st

  -- Some order of moves brings goroutine `i` to its end.
  abbrev pub Ends : System bls eth big_int → ℕ → Type 0
  Ends s i = (t : System bls eth big_int) × Later bls eth big_int s t × (ended (t.pc i) ≡ true)

  Reach-Ends_within :
      (laws : TaskLaws bls) (n : ℕ) {s : System bls eth big_int} (reach : Reach bls eth big_int s)
      → StartedEmpty laws reach
      → (i : ℕ) → rank (s.pc i) < n
      → born (s.pc i) ≡ true
      → Ends s i
  Reach-Ends_within laws zero reach empty i less b = absurd (omega arith)
  Reach-Ends_within laws (suc n) {s} reach empty i less b = elim (Bool-cases (ended (s.pc i))) [
    | inl over ↦ (s, now, over)
    | inr on ↦
        let (t, l, same, (m', p', mv, nearer, b')) = Reach-Nearer reach laws empty i b on in
        let st = step_at bls eth big_int t i refl same mv in
        let here = move_to_here t.pc i i p' refl in
        let (u, l', over) =
          Reach-Ends_within laws n (later (Later-Reach l reach) st)
            (Later-StartedEmpty laws l reach empty) i
            (subst (λ p. rank p < n) (sym here) (omega (arith, less, nearer)))
            (ap born here ∙ b') in
        (u, Later-trans (then_step l st) l', over)
  ]

module _ {bls : BlsAggregationService} {eth : EthClient} {F : Type 0} {big_int : F → ℕ}
    {s : System bls eth big_int} (reach : Reach bls eth big_int s) where
  -- In every state that the aggregator reaches from a BLS service without tasks, which refuses an index
  -- only if it has a task there, and for every goroutine that was started: the goroutines can go on
  -- such that this one ends, that is, the subscriber waits for the next batch, an operator's call has
  -- its reply, or an answer of the service is handled.
  pub Reach-Ends :
      (laws : TaskLaws bls)
      → StartedEmpty laws reach
      → (i : ℕ) → born (s.pc i) ≡ true
      → Ends bls eth big_int s i
  Reach-Ends laws empty i b =
      Reach-Ends_within bls eth big_int laws (suc (rank (s.pc i))) reach empty i (omega arith) b
