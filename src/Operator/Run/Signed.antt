-- ===== src/Operator/Run/Signed.antt =====
-- What the operator has signed.
use mathlib.Core.List.{Memᴰ}
use beluuga.Prelude.{
  ◌+◌, length, ◌≡◌, ◌⊎◌, Bool, Option, none, some, List, [], ◌∷◌, refl, sym, ap, inl, inr, arith,
}
use beluuga.Prelude.Int.{ℤ}
use beluuga.Errors.{Error, ok}
use beluuga.Types.{Bytes32, SignedTaskResponse}
use beluuga.Go.Outcome.{returned, >>=-eq-returned, returned-injective}
use beluuga.Operator.Data.{VerificationData}
use beluuga.Operator.Download.{Http, get_batch_from_s3}
use beluuga.Operator.Verify.{Verifiers}
use beluuga.Operator.Process.{NewBatchLog, OperatorState, process_new_batch_log}
use beluuga.Operator.Process.Accept.{Reorders, AllVerify, accepted, accepts_iff_AllVerify}
use beluuga.Operator.Run.{
  Event, new_batch, metrics_failed, subscription_failed, Subscriptions, Loop, signed_task_response,
  on_result, on_new_batch, resubscribe, pass, waiting, run_events, start,
}

-- Each element of the list satisfies `P`.
abbrev pub All : {A : Type 0} → (A → Type 0) → List A → Type 0
All P [] = Unit
All P (x ∷ xs) = P x × All P xs

module _ (libs : Verifiers) (http : Http) (max_batch_size : ℤ) (order : List Bool → List Bool)
    {Signature : Type 0} (sign_message : Bytes32 → Signature) (operator_id : Bytes32) where
  -- The response answers a batch that was announced, could be downloaded, and verifies in each proof.
  pub record IsJustified (events : List Event) (response : SignedTaskResponse Signature)
      : Type 0 where
    pub log : NewBatchLog
    pub announced : Memᴰ (new_batch log) events
    pub is_response : response ≡ signed_task_response sign_message operator_id log
    pub before : http.World
    pub after : http.World
    pub batch : List VerificationData
    pub downloaded :
        get_batch_from_s3 http max_batch_size log.batch_data_pointer before ≡ (after, ok batch)
    pub all_verify : AllVerify libs batch

  IsJustified-later :
      (event : Event) (events : List Event) (response : SignedTaskResponse Signature)
      → IsJustified events response
      → IsJustified (event ∷ events) response
  IsJustified-later event events response j = record {
    log = j.log;
    announced = Memᴰ.tail j.announced;
    is_response = j.is_response;
    before = j.before;
    after = j.after;
    batch = j.batch;
    downloaded = j.downloaded;
    all_verify = j.all_verify;
  }

  module _ (subs : Subscriptions) where
    abbrev OperatorLoop : Type 0
    OperatorLoop = Loop http.World subs.Chain subs.Sub Signature

    abbrev Adds : List Event → OperatorLoop → OperatorLoop → Type 0
    Adds events l l' =
        (l'.sent ≡ l.sent)
        ⊎ ((response : SignedTaskResponse Signature) × (l'.sent ≡ response ∷ l.sent)
            × IsJustified events response)

    result-Adds :
        (log : NewBatchLog) (events : List Event) (l : OperatorLoop)
        (answer : OperatorState http.World × Option Error)
        → Reorders order
        → Memᴰ (new_batch log) events
        → process_new_batch_log libs http max_batch_size order log l.state ≡ returned answer
        → Adds events l
            (on_result subs libs http max_batch_size order sign_message operator_id log l answer)
    unfolding on_result
    result-Adds log events l (s, some x) p m e = inl refl
    result-Adds log events l (s, none) p m e =
        let (batch, got, all) = accepted libs http max_batch_size order log l.state p e in
        inr (
          signed_task_response sign_message operator_id log,
          refl,
          record {
            log = log;
            announced = m;
            is_response = refl;
            before = l.state.world;
            after = (get_batch_from_s3 http max_batch_size log.batch_data_pointer l.state.world).0;
            batch = batch;
            downloaded = λ i. (
              (get_batch_from_s3 http max_batch_size log.batch_data_pointer l.state.world).0,
              got i,
            );
            all_verify = all;
          },
        )

    -- What a pass adds to the responses that are sent.
    pass-Adds :
        (sub : Option subs.Sub) (event : Event) (events : List Event) (l : OperatorLoop)
        {l' : OperatorLoop}
        → Reorders order
        → pass subs libs http max_batch_size order sign_message operator_id sub event l
          ≡ returned l'
        → Adds (event ∷ events) l l'
    unfolding pass on_new_batch resubscribe
    pass-Adds none event events l p h = absurd (cc)
    pass-Adds (some sub) (metrics_failed x) events l p h = absurd (cc)
    pass-Adds (some sub) (subscription_failed x) events l p h =
        inl (sym (ap (λ k. k.sent) (returned-injective h)))
    pass-Adds (some sub) (new_batch log) events l p h =
        let (answer, e, h') =
          >>=-eq-returned (process_new_batch_log libs http max_batch_size order log l.state)
            (λ a.
              returned
                (on_result subs libs http max_batch_size order sign_message operator_id log l a))
            h in
        rw (← returned-injective h')
          (result-Adds log (new_batch log ∷ events) l answer p (Memᴰ.head refl) e)

    Adds-All :
        (P : SignedTaskResponse Signature → Type 0) (events : List Event) (l l' : OperatorLoop)
        → ((response : SignedTaskResponse Signature) → IsJustified events response → P response)
        → Adds events l l'
        → All P l.sent
        → All P l'.sent
    Adds-All P events l l' good (inl e) before = rw e before
    Adds-All P events l l' good (inr (response, e, j)) before = rw e (good response j, before)

    waiting_same :
        (sub : Option subs.Sub) (l : OperatorLoop) {l' : OperatorLoop}
        → waiting subs libs http max_batch_size order sign_message operator_id sub l ≡ returned l'
        → l ≡ l'
    waiting_same none l h = absurd (cc)
    waiting_same (some sub) l h = returned-injective h

    run-All :
        (P : SignedTaskResponse Signature → Type 0) (events : List Event) (l : OperatorLoop)
        {l' : OperatorLoop}
        → Reorders order
        → ((response : SignedTaskResponse Signature) → IsJustified events response → P response)
        → run_events subs libs http max_batch_size order sign_message operator_id events l
          ≡ returned l'
        → All P l.sent
        → All P l'.sent
    unfolding run_events
    run-All P [] l p good h before = rw (← waiting_same l.sub l h) before
    run-All P (event ∷ events) l p good h before =
        let (next, e, h') =
          >>=-eq-returned
            (pass subs libs http max_batch_size order sign_message operator_id l.sub event l)
            (run_events subs libs http max_batch_size order sign_message operator_id events) h in
        run-All P events next p
          (λ response j. good response (IsJustified-later event events response j)) h'
          (Adds-All P (event ∷ events) l next good (pass-Adds l.sub event events l p e) before)

    -- Whatever order the answers of the goroutines come in, each response that `Start` has sent answers
    -- a batch that was announced by one of the events, that could be downloaded, and of which each proof
    -- verifies; it is the signature of that batch's root.
    pub sent-IsJustified :
        (events : List Event) (s : OperatorState http.World) (chain : subs.Chain)
        {l' : OperatorLoop}
        → Reorders order
        → start subs libs http max_batch_size order sign_message operator_id events s chain
          ≡ returned l'
        → All (IsJustified events) l'.sent
    unfolding start
    sent-IsJustified events s chain p h =
        run-All (IsJustified events) events _ p (λ response j. j) h tt

    -- A batch that is announced while the operator is subscribed, that can be downloaded, and of which
    -- each proof verifies, is answered: one pass counts its proofs and sends the signature of the root that
    -- was announced, which is not compared with the batch.
    pub verified_batch_is_sent :
        (sub : subs.Sub) (log : NewBatchLog) (l : OperatorLoop) (batch : List VerificationData)
        (w : http.World)
        → Reorders order
        → get_batch_from_s3 http max_batch_size log.batch_data_pointer l.state.world ≡ (w, ok batch)
        → AllVerify libs batch
        → pass subs libs http max_batch_size order sign_message operator_id
            (some sub)
            (new_batch log)
            l
          ≡ returned (record l {
            state = record {
              world = w;
              operator_task_responses = l.state.operator_task_responses + length batch;
            };
            sent = signed_task_response sign_message operator_id log ∷ l.sent;
          })
    unfolding pass on_new_batch on_result
    verified_batch_is_sent sub log l batch w p got all = ground (
      arith,
      (accepts_iff_AllVerify libs http max_batch_size order log l.state batch w p got).0.1 all,
    )
