-- ===== src/Operator/Run/Heard.antt =====
-- An operator whose batches come from its subscriptions: operator/pkg/operator.go over the goroutines of
-- contracts/bindings/AlignedLayerServiceManager/binding.go.
use beluuga.Prelude.{◌≡◌, ◌∙◌, Bool, List, [], ◌∷◌, sym, ap, Memᴰ}
use beluuga.Prelude.Int.{ℤ}
use beluuga.Errors.{ok}
use beluuga.Types.{Bytes32, SignedTaskResponse}
use beluuga.Go.Outcome.{returned}
use beluuga.Chain.Watch.{Bound, NewBatchEvent, Feed, parse_new_batch, Reach}
use beluuga.Chain.Watch.Received.{received-Raw}
use beluuga.Operator.Data.{VerificationData}
use beluuga.Operator.Download.{Http, get_batch_from_s3}
use beluuga.Operator.Verify.{Verifiers}
use beluuga.Operator.Process.{NewBatchLog, OperatorState}
use beluuga.Operator.Process.Accept.{Reorders, AllVerify}
use beluuga.Operator.Run.{Event, new_batch, Subscriptions, Loop, signed_task_response, start}
use beluuga.Operator.Run.Signed.{All, IsJustified, sent-IsJustified}

-- What the operator reads of an event of the contract.
abbrev pub seen : {Log : Type 0} → NewBatchEvent Log → NewBatchLog
seen e = record {
  batch_merkle_root = e.batch_merkle_root;
  batch_data_pointer = e.batch_data_pointer;
}

All-map :
    {A : Type 0} {P Q : A → Type 0} (xs : List A) → ((x : A) → P x → Q x) → All P xs → All Q xs
All-map [] f all = tt
All-map (x ∷ xs) f (p, all) = (f x p, All-map xs f all)

module _ (bound : Bound) where
  open bound use {Log}

  -- Each batch among the events of the loop was delivered by one of the subscriptions.
  abbrev pub Heard : List (Feed Log) → List Event → Type 0
  Heard feeds events =
      (log : NewBatchLog)
      → Memᴰ (new_batch log) events
      → (f : Feed Log) × Memᴰ f feeds × (e : NewBatchEvent Log) × Memᴰ e f.sink × (seen e ≡ log)

module _ (bound : Bound) (libs : Verifiers) (http : Http) (max_batch_size : ℤ)
    (order : List Bool → List Bool) {Signature : Type 0} (sign_message : Bytes32 → Signature)
    (operator_id : Bytes32) where
  open bound use {Log}

  -- The response signs the root in a log that had arrived at a subscription; the batch of that log could
  -- be downloaded, and each of its proofs verifies.
  pub record AnswersLog (feeds : List (Feed Log)) (response : SignedTaskResponse Signature)
      : Type 0 where
    pub feed : Feed Log
    pub is_feed : Memᴰ feed feeds
    pub raw : Log
    pub arrived : Memᴰ raw feed.history
    pub event : NewBatchEvent Log
    pub unpacked : parse_new_batch bound raw ≡ ok event
    pub is_response : response ≡ signed_task_response sign_message operator_id (seen event)
    pub before : http.World
    pub after : http.World
    pub batch : List VerificationData
    pub downloaded :
        get_batch_from_s3 http max_batch_size event.batch_data_pointer before ≡ (after, ok batch)
    pub all_verify : AllVerify libs batch

  IsJustified-AnswersLog :
      (feeds : List (Feed Log)) (events : List Event) (response : SignedTaskResponse Signature)
      → ((f : Feed Log) → Memᴰ f feeds → Reach bound f)
      → Heard bound feeds events
      → IsJustified libs http max_batch_size order sign_message operator_id events response
      → AnswersLog feeds response
  IsJustified-AnswersLog feeds events response reached heard j =
      let (f, is_feed, e, mem, same) = heard j.log j.announced in
      let (raw, arrived, unpacked) = received-Raw bound (reached f is_feed) mem in
      record {
        feed = f;
        is_feed = is_feed;
        raw = raw;
        arrived = arrived;
        event = e;
        unpacked = unpacked;
        is_response = j.is_response ∙ ap (signed_task_response sign_message operator_id) (sym same);
        before = j.before;
        after = j.after;
        batch = j.batch;
        downloaded =
            ap (λ log. get_batch_from_s3 http max_batch_size log.batch_data_pointer j.before) same
            ∙ j.downloaded;
        all_verify = j.all_verify;
      }

  -- Let the batches that the operator's loop hears of be delivered by the subscriptions it made, one or
  -- several, in any states that they reach, and let the answers of its goroutines come in any order. Each
  -- response that `Start` has sent signs the root in a raw log of the event NewBatch that had arrived at
  -- one of the subscriptions; the batch that this log points to could be downloaded, and each of its
  -- proofs verifies.
  pub sent-AnswersLog :
      (subs : Subscriptions) (feeds : List (Feed Log)) (events : List Event)
      (s : OperatorState http.World) (chain : subs.Chain)
      {l' : Loop http.World subs.Chain subs.Sub Signature}
      → Reorders order
      → ((f : Feed Log) → Memᴰ f feeds → Reach bound f)
      → Heard bound feeds events
      → start subs libs http max_batch_size order sign_message operator_id events s chain
        ≡ returned l'
      → All (AnswersLog feeds) l'.sent
  sent-AnswersLog subs feeds events s chain {l'} p reached heard h =
      All-map l'.sent (λ response j. IsJustified-AnswersLog feeds events response reached heard j)
        (sent-IsJustified libs http max_batch_size order sign_message operator_id subs events s
          chain p h)
