-- ===== src/Aggregator/Subscribe/History.antt =====
-- What the aggregator's maps stand for after a history of subscriptions.
use beluuga.Prelude.{
  ℕ, zero, suc, ◌≡◌, refl, ap, false, inl, inr, none, some, List, [], ◌∷◌, ◌++◌, Option-cases,
}
use beluuga.Go.Outcome.{returned, ◌>>=◌, >>=-eq-returned, returned-injective}
use beluuga.Errors.{Error, subscribe_failed}
use beluuga.Types.{Bytes32}
use beluuga.Aggregator.State.{BlsAggregationService, Aggregator, new_aggregator, add_new_task}
use beluuga.Aggregator.Registry.{enroll, Represents}
use beluuga.Aggregator.AddTask.{Represents-new_aggregator, add_new_task-enroll}
use beluuga.Aggregator.AddTask.Returns.{
  TaskLaws, Vacant, NoTasks, Vacant-new_aggregator, add_new_task_returns, add_new_task-Vacant,
}
use beluuga.Aggregator.Subscribe.{
  NewBatch, Session, drain, serve_session, subscribe_rounds, subscribe_to_new_tasks,
}

-- The roots of the batches, enrolled one after the other.
abbrev pub enroll_batches : List NewBatch → List Bytes32 → List Bytes32
enroll_batches [] roots = roots
enroll_batches (b ∷ bs) roots = enroll_batches bs (enroll b.batch_merkle_root roots)

-- A session that could not be created delivers nothing.
abbrev pub delivered : Session → List NewBatch
delivered s = elim s.creation_error [ none ↦ s.arrivals | some e ↦ [] ]

-- The batches of `n` sessions from session `i` on.
abbrev pub delivered_by : ℕ → ℕ → (ℕ → Session) → List NewBatch
delivered_by zero i sessions = []
delivered_by (suc n) i sessions = delivered (sessions i) ++ delivered_by n (suc i) sessions

pub enroll_batches-append :
    (xs ys : List NewBatch) (roots : List Bytes32)
    → enroll_batches (xs ++ ys) roots ≡ enroll_batches ys (enroll_batches xs roots)
enroll_batches-append [] ys roots = refl
enroll_batches-append (x ∷ xs) ys roots =
    enroll_batches-append xs ys (enroll x.batch_merkle_root roots)

-- The maps stand for the list, and the mutex is free.
pub record Stands {S : Type 0} (agg : Aggregator S) (roots : List Bytes32) : Type 0 where
  pub represents : Represents agg roots
  pub free : agg.task_mutex ≡ false

pub new-Stands : {S : Type 0} (service : S) → Stands (new_aggregator service) []
unfolding new_aggregator
new-Stands service = record { represents = Represents-new_aggregator service; free = refl }

module _ (bls : BlsAggregationService) where
  open bls use {Service}

  drain-Stands :
      (bs : List NewBatch) (agg : Aggregator Service) {agg' : Aggregator Service}
      (roots : List Bytes32)
      → Stands agg roots
      → drain bls bs agg ≡ returned agg'
      → Stands agg' (enroll_batches bs roots)
  unfolding drain
  drain-Stands [] agg roots st h = let same = returned-injective h in rw (← same) st
  drain-Stands (b ∷ bs) agg roots st h =
      let (mid, first, rest) =
        >>=-eq-returned (add_new_task bls b.batch_merkle_root b.task_created_block agg)
          (drain bls bs) h in
      let (rep, free) =
        add_new_task-enroll bls b.batch_merkle_root b.task_created_block st.represents st.free
          first in
      drain-Stands bs mid (enroll b.batch_merkle_root roots)
        (record { represents = rep; free = free }) rest

  session-Stands :
      (s : Session) (agg : Aggregator Service) {agg' : Aggregator Service} (roots : List Bytes32)
      → Stands agg roots
      → serve_session bls s agg ≡ returned agg'
      → Stands agg' (enroll_batches (delivered s) roots)
  unfolding serve_session
  session-Stands s agg roots st h = elim (Option-cases s.creation_error) [
    | inl good ↦ rw good (drain-Stands s.arrivals agg roots st (rw good at h))
    | inr (e, bad) ↦ let same = returned-injective (rw bad at h) in rw (bad, ← same) st
  ]

  rounds-Stands :
      (n i : ℕ) (sessions : ℕ → Session) (agg : Aggregator Service) (roots : List Bytes32)
      {agg' : Aggregator Service} {e : Error}
      → Stands agg roots
      → subscribe_rounds bls n i sessions agg ≡ returned (agg', e)
      → Stands agg' (enroll_batches (delivered_by n i sessions) roots) × (e ≡ subscribe_failed)
  unfolding subscribe_rounds
  rounds-Stands zero i sessions agg roots st h =
      let same = returned-injective h in
      let same_agg : agg ≡ _ = ap (λ p. p.0) same in (rw (← same_agg) st, cc same)
  rounds-Stands (suc n) i sessions agg roots st h =
      let (mid, first, rest) =
        >>=-eq-returned (serve_session bls (sessions i) agg)
          (subscribe_rounds bls n (suc i) sessions) h in
      rw enroll_batches-append (
        rounds-Stands n (suc i) sessions mid (enroll_batches (delivered (sessions i)) roots)
          (session-Stands (sessions i) agg roots st first) rest)

module _ (bls : BlsAggregationService) (laws : TaskLaws bls) where
  open bls use {Service}

  drain_returns :
      (bs : List NewBatch) (agg : Aggregator Service) (roots : List Bytes32)
      → Stands agg roots
      → Vacant laws agg
      → (agg' : Aggregator Service) × (drain bls bs agg ≡ returned agg') × Vacant laws agg'
  unfolding drain
  drain_returns [] agg roots st vacant = (agg, refl, vacant)
  drain_returns (b ∷ bs) agg roots st vacant =
      let (mid, first) =
        add_new_task_returns laws b.batch_merkle_root b.task_created_block st.represents vacant
          st.free in
      let (rep, free) =
        add_new_task-enroll bls b.batch_merkle_root b.task_created_block st.represents st.free
          first in
      let (last, rest, vacant') =
        drain_returns bs mid (enroll b.batch_merkle_root roots)
          (record { represents = rep; free = free })
          (add_new_task-Vacant laws b.batch_merkle_root b.task_created_block agg vacant first) in
      (last, rw (first, ◌>>=◌) rest, vacant')

  session_returns :
      (s : Session) (agg : Aggregator Service) (roots : List Bytes32)
      → Stands agg roots
      → Vacant laws agg
      → (agg' : Aggregator Service) × (serve_session bls s agg ≡ returned agg') × Vacant laws agg'
  unfolding serve_session
  session_returns s agg roots st vacant = elim (Option-cases s.creation_error) [
    | inl good ↦ rw good (drain_returns s.arrivals agg roots st vacant)
    | inr (e, bad) ↦ (agg, rw bad, vacant)
  ]

  rounds_return :
      (n i : ℕ) (sessions : ℕ → Session) (agg : Aggregator Service) (roots : List Bytes32)
      → Stands agg roots
      → Vacant laws agg
      → (agg' : Aggregator Service) × (subscribe_rounds bls n i sessions agg
          ≡ returned (agg', subscribe_failed))
  unfolding subscribe_rounds
  rounds_return zero i sessions agg roots st vacant = (agg, refl)
  rounds_return (suc n) i sessions agg roots st vacant =
      let (mid, first, vacant') = session_returns (sessions i) agg roots st vacant in
      let (last, rest) =
        rounds_return n (suc i) sessions mid (enroll_batches (delivered (sessions i)) roots)
          (session-Stands bls (sessions i) agg roots st first) vacant' in
      (last, rw (first, ◌>>=◌) rest)

  -- With a service that has no task at the start and refuses an index only if it has a task there,
  -- `SubscribeToNewTasks` of a new aggregator ends after 100 sessions with its error, whether or not they
  -- could be created; then the maps stand for the roots of all delivered batches, enrolled in the order
  -- of their arrival.
  pub subscribe_returns :
      (service : Service) (sessions : ℕ → Session)
      → NoTasks laws service
      → (agg' : Aggregator Service) × (subscribe_to_new_tasks bls sessions (new_aggregator service)
          ≡ returned (agg', subscribe_failed))
        × Represents agg' (enroll_batches (delivered_by 100 0 sessions) [])
  unfolding subscribe_to_new_tasks
  subscribe_returns service sessions empty =
      let st = new-Stands service in
      let (last, run) =
        rounds_return 100 0 sessions (new_aggregator service) [] st
          (Vacant-new_aggregator laws service empty) in
      (
        last,
        run,
        (rounds-Stands bls 100 0 sessions (new_aggregator service) [] st run).0.represents,
      )
