-- ===== src/Operator/Run.antt =====
-- `Start` of operator/pkg/operator.go, with the subscription of core/chainio/avs_subscriber.go.
pub mod Signed
pub mod Heard
use beluuga.Prelude.{ℕ, Bool, Option, none, some, List, [], ◌∷◌}
use beluuga.Prelude.Int.{ℤ}
use beluuga.Errors.{Error, Result, ok, err}
use beluuga.Types.{Bytes32, SignedTaskResponse}
use beluuga.Go.Outcome.{Outcome, returned, panicked, exited, ◌>>=◌}
use beluuga.Operator.Download.{Http}
use beluuga.Operator.Verify.{Verifiers}
use beluuga.Operator.Process.{NewBatchLog, OperatorState, process_new_batch_log}

-- What one pass of the `select` receives. The background context is never done.
pub data Event : Type 0 where
  metrics_failed : Error → Event
  subscription_failed : Error → Event
  new_batch : NewBatchLog → Event

-- `WatchNewBatch` and `Unsubscribe` of the bindings, on a world of their own.
pub record Subscriptions : Type 1 where
  pub Chain : Type 0
  pub Sub : Type 0
  pub watch_new_batch : Chain → Chain × Result Sub
  pub unsubscribe : Sub → Chain → Chain

-- A nil subscription is `none`.
abbrev pub sub_or_nil : {S : Type 0} → Result S → Option S
sub_or_nil (ok sub) = some sub
sub_or_nil (err e) = none

-- The variables of the loop, and the responses whose sending was started, the newest first.
pub record Loop (W C S G : Type 0) : Type 0 where
  pub state : OperatorState W
  pub chain : C
  pub sub : Option S
  pub sent : List (SignedTaskResponse G)

-- The response to a batch: its root, signed.
abbrev pub signed_task_response :
    {G : Type 0} → (Bytes32 → G) → Bytes32 → NewBatchLog → SignedTaskResponse G
signed_task_response sign_message operator_id log = record {
  batch_merkle_root = log.batch_merkle_root;
  bls_signature = sign_message log.batch_merkle_root;
  operator_id = operator_id;
}

module _ (subs : Subscriptions) where
  open subs use {Chain, Sub, watch_new_batch, unsubscribe}

  -- `SubscribeToNewTasks`: an error is logged, and what the bindings gave, nil, is returned.
  unfoldable pub subscribe_to_new_tasks : Chain → Chain × Option Sub
  subscribe_to_new_tasks chain = ((watch_new_batch chain).0, sub_or_nil (watch_new_batch chain).1)

  module _ (libs : Verifiers) (http : Http) (max_batch_size : ℤ) (order : List Bool → List Bool)
      {Signature : Type 0} (sign_message : Bytes32 → Signature) (operator_id : Bytes32) where
    abbrev OperatorLoop : Type 0
    OperatorLoop = Loop http.World Chain Sub Signature

    -- The case of the `select` for a batch: without an error it is signed and sent.
    pub on_result :
        NewBatchLog → OperatorLoop → OperatorState http.World × Option Error → OperatorLoop
    on_result log l (s, some e) = record l { state = s }
    on_result log l (s, none) = record l {
      state = s;
      sent = signed_task_response sign_message operator_id log ∷ l.sent;
    }

    pub on_new_batch : NewBatchLog → OperatorLoop → Outcome OperatorLoop
    unfolding on_result
    on_new_batch log l = do
      answer ← process_new_batch_log libs http max_batch_size order log l.state
      returned (on_result log l answer)

    pub resubscribe : Sub → OperatorLoop → OperatorLoop
    unfolding subscribe_to_new_tasks
    resubscribe sub l =
        let (chain, new) = subscribe_to_new_tasks (unsubscribe sub l.chain) in
        record l { chain = chain; sub = new }

    -- One pass. The `select` reads `sub.Err()`, which panics on a nil subscription.
    pub pass : Option Sub → Event → OperatorLoop → Outcome OperatorLoop
    unfolding on_new_batch resubscribe
    pass none event l = panicked
    pass (some sub) (metrics_failed e) l = exited
    pass (some sub) (subscription_failed e) l = returned (resubscribe sub l)
    pass (some sub) (new_batch log) l = on_new_batch log l

    -- The loop that waits for its next event.
    abbrev pub waiting : Option Sub → OperatorLoop → Outcome OperatorLoop
    waiting none l = panicked
    waiting (some sub) l = returned l

    unfoldable pub run_events : List Event → OperatorLoop → Outcome OperatorLoop
    unfolding pass
    run_events [] l = waiting l.sub l
    run_events (event ∷ events) l = pass l.sub event l >>= run_events events

    -- `Start` up to the events that have come: it subscribes, and loops.
    unfoldable pub start : List Event → OperatorState http.World → Chain → Outcome OperatorLoop
    unfolding run_events subscribe_to_new_tasks
    start events s chain =
        let (chain', sub) = subscribe_to_new_tasks chain in
        run_events events (record { state = s; chain = chain'; sub = sub; sent = [] })
