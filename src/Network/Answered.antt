-- ===== src/Network/Answered.antt =====
-- The way of a signature that completes a quorum to the chain.
use beluuga.Prelude.{
  ℕ, ◌<◌, ◌+◌, length, ◌≡◌, ◌≢◌, ◌⊎◌, ◌∙◌, false, none, some, List, [], ◌∷◌, inl, inr, refl, ap,
  Memᴰ, get_elem?,
}
use beluuga.Prelude.Keys.{bytes_eq, nat_eq}
use beluuga.Errors.{ok}
use beluuga.Retry.{world_after, FailsFor}
use beluuga.Types.{Bytes32, SignedTaskResponse}
use beluuga.Go.Map
use beluuga.Go.Mutex.{move_to_here}
use beluuga.Go.Outcome.{returned}
use beluuga.Chain.Client.{EthClient}
use beluuga.Aggregator.State.{BlsAggregationService}
use beluuga.Aggregator.Server.{SignatureCall}
use beluuga.Aggregator.Respond.{BlsAggServiceResponse, responded, pause}
use beluuga.Aggregator.Respond.Attempts.{answers_with, handle_responds}
use beluuga.Aggregator.Threads.{unborn, answering, handled, service_answers}
use beluuga.Aggregator.Threads.Undisturbed.{handle-Alone}
use beluuga.Operator.Process.{OperatorState}
use beluuga.Operator.Data.{VerificationData}
use beluuga.Operator.Download.{get_batch_from_s3}
use beluuga.Operator.Process.Accept.{AllVerify}
use beluuga.Operator.Run
use beluuga.Operator.Run.{new_batch, signed_task_response}
use beluuga.Operator.Run.Signed.{verified_batch_is_sent}
use beluuga.Network.{
  BatchEvent, for_operator, Setting, NodeLoop, run_node, Genuine, HasSigned, QuorumSigned, Network,
  Step, send, Reach,
}
use beluuga.Network.Runs.{
  moved, act_at, Later, now, then_step, Later-Reach, Alone-Later, root_at, hands,
}

module _ {Signature : Type 0} (net : Setting Signature) where
  HasSigned-later :
      (c : SignatureCall Signature) (handed : List (SignatureCall Signature)) (index : ℕ)
      (id : Bytes32)
      → HasSigned net handed index id
      → HasSigned net (c ∷ handed) index id
  HasSigned-later c handed index id h = record {
    call = h.call;
    is_handed = Memᴰ.tail h.is_handed;
    has_index = h.has_index;
    has_id = h.has_id;
    valid = h.valid;
  }

  -- The signature that was missing.
  completed :
      (handed : List (SignatureCall Signature)) (index : ℕ) (r : SignedTaskResponse Signature)
      (ids : List Bytes32)
      → net.Valid r.operator_id r.batch_merkle_root r.bls_signature
      → net.Quorum ids
      → ((id : Bytes32) → Memᴰ id ids → (r.operator_id ≡ id) ⊎ HasSigned net handed index id)
      → QuorumSigned net (record { task_index = index; response = r } ∷ handed) index
  completed handed index r ids valid quorum rest = (
    ids,
    quorum,
    λ id mem. elim (rest id mem) [
      | inl own ↦ record {
        call = record { task_index = index; response = r };
        is_handed = Memᴰ.head refl;
        has_index = refl;
        has_id = own;
        valid = valid;
      }
      | inr before ↦
          HasSigned-later (record { task_index = index; response = r }) handed index id before
    ],
  )

  -- An honest operator's signature of the root of an event.
  abbrev pub response_to : Bytes32 → BatchEvent → SignedTaskResponse Signature
  response_to id e = signed_task_response (net.node id).sign_message id (for_operator e)

  -- What the process of an honest operator sends when it hears of a batch that verifies.
  run_node-signs :
      (id : Bytes32) (e : BatchEvent) (s : OperatorState (net.node id).http.World)
      (chain : (net.node id).subs.Chain) (sub : (net.node id).subs.Sub)
      (batch : List VerificationData) (w : (net.node id).http.World)
      → ((net.node id).subs.watch_new_batch chain).1 ≡ ok sub
      → get_batch_from_s3
          (net.node id).http
          (net.node id).max_batch_size
          e.batch_data_pointer
          s.world
        ≡ (w, ok batch)
      → AllVerify (net.node id).libs batch
      → run_node net id (new_batch (for_operator e) ∷ []) s chain
        ≡ returned (record {
          state = record {
            world = w;
            operator_task_responses = s.operator_task_responses + length batch;
          };
          chain = ((net.node id).subs.watch_new_batch chain).0;
          sub = some sub;
          sent = response_to id e ∷ [];
        })
  unfolding Run.start
  run_node-signs id e s chain sub batch w subscribed got all =
      let v = net.node id in
      let l : NodeLoop net id = record {
        state = s;
        chain = (v.subs.watch_new_batch chain).0;
        sub = some sub;
        sent = [];
      } in
      let one =
        verified_batch_is_sent v.libs v.http v.max_batch_size v.order v.sign_message id v.subs sub
          (for_operator e) l batch w v.order-Reorders got all in
      rw (subscribed, one) refl

module _ {bls : BlsAggregationService} {eth : EthClient} {F : Type 0} {big_int : F → ℕ}
    (net : Setting bls.Signature) where
  open bls use {Service, Signature}
  open eth use {World, Receipt}

  -- From a state with both mutexes free, a new goroutine can answer the service without an error for the
  -- task of a registered root, if the service has got the signatures of a quorum.
  answers_task :
      {before n : Network bls eth big_int net} (j index : ℕ) (root : Bytes32)
      (resp : BlsAggServiceResponse F) (k : ℕ) (receipt : Receipt) (c : SignatureCall Signature)
      → Memᴰ c n.handed
      → Reach bls eth big_int net n
      → Later net before n
      → n.system.pc j ≡ unborn
      → n.system.shared.agg.task_mutex ≡ false
      → n.system.shared.wallet_mutex ≡ false
      → Map.get n.system.shared.agg.batches_idx_by_root root ≡ some index
      → QuorumSigned net n.handed index
      → resp.error ≡ none
      → index ≡ resp.task_index
      → k < 5
      → FailsFor (answers_with eth big_int root resp) (pause eth) k n.system.shared.out
      → (answers_with eth big_int root resp
          (world_after (answers_with eth big_int root resp) (pause eth) k n.system.shared.out)).1
        ≡ ok receipt
      → (n' : Network bls eth big_int net) × Later net before n'
        × Memᴰ c n'.handed
        × (n'.system.pc j ≡ handled (responded receipt))
  answers_task {before} {n} j index root resp k receipt c was_handed reach l new free wallet found
        quorum good same lt fails got =
      let m = n.system.shared in
      let (roots, rep, at_index) = root_at net reach found in
      let registered : get_elem? roots resp.task_index ≡ some root = rw same at at_index in
      let n1 = moved net n j m (answering resp) n.handed in
      let s1 : Step bls eth big_int net n n1 =
        act_at net n j refl new
          (service_answers {resp = resp} {root = root} (rep.by_idx resp.task_index ∙ registered))
          (λ e. rw same at quorum) in
      let (steps, run) = handle-Alone bls eth big_int m resp free in
      let shared_same : m ≡ record m { wallet_mutex = false } =
        ap (λ b. record m { wallet_mutex = b }) wallet in
      let (n2, reached, _, here, kept) =
        Alone-Later net run before n1 j (then_step l s1) shared_same
          (move_to_here n.system.pc j j _ refl) refl in
      (
        n2,
        reached,
        kept c was_handed,
        here
            ∙ ap (λ p. handled p.1)
                (handle_responds eth big_int m.agg roots root resp m.out rep good registered k
                  receipt lt fails got),
      )

  -- Let the operators and the aggregator have reached a state with both mutexes free, in which a batch is
  -- announced and its root registered, and only the signature of one honest operator is missing of a
  -- quorum. If that operator can subscribe and download the batch, and each proof verifies, they can go on
  -- from this state, so that it signs the announced root (without a look at the root of the batch), its
  -- signature is handed over and the task is answered: if attempt `k`, below 5, is the first to get a
  -- receipt, a goroutine ends with that receipt.
  pub verified_batch-responded :
      {n : Network bls eth big_int net} (i j : ℕ) (id : Bytes32) (e : BatchEvent)
      (s : OperatorState (net.node id).http.World) (chain : (net.node id).subs.Chain)
      (sub : (net.node id).subs.Sub) (batch : List VerificationData) (w : (net.node id).http.World)
      (index : ℕ) (ids : List Bytes32) (resp : BlsAggServiceResponse F) (k : ℕ) (receipt : Receipt)
      → Reach bls eth big_int net n
      → i ≢ j
      → n.system.pc i ≡ unborn
      → n.system.pc j ≡ unborn
      → n.system.shared.agg.task_mutex ≡ false
      → n.system.shared.wallet_mutex ≡ false
      → net.Honest id
      → Memᴰ e n.announced
      → ((net.node id).subs.watch_new_batch chain).1 ≡ ok sub
      → get_batch_from_s3
          (net.node id).http
          (net.node id).max_batch_size
          e.batch_data_pointer
          s.world
        ≡ (w, ok batch)
      → AllVerify (net.node id).libs batch
      → net.Valid id e.batch_merkle_root ((net.node id).sign_message e.batch_merkle_root)
      → Map.get n.system.shared.agg.batches_idx_by_root e.batch_merkle_root ≡ some index
      → net.Quorum ids
      → ((id' : Bytes32) → Memᴰ id' ids → (id ≡ id') ⊎ HasSigned net n.handed index id')
      → resp.error ≡ none
      → index ≡ resp.task_index
      → k < 5
      → let attempt = answers_with eth big_int e.batch_merkle_root resp in
        FailsFor attempt (pause eth) k n.system.shared.out
        → (attempt (world_after attempt (pause eth) k n.system.shared.out)).1 ≡ ok receipt
        → (n' : Network bls eth big_int net) × Later net n n'
          × Memᴰ (record { task_index = index; response = response_to net id e }) n'.handed
          × (n'.system.pc j ≡ handled (responded receipt))
  verified_batch-responded {n} i j id e s chain sub batch w index ids resp k receipt reach apart
        new_i new_j free wallet honest announced subscribed got_batch all valid found quorum rest
        good same lt fails got =
      let r = response_to net id e in
      let a : Network bls eth big_int net = record n { sent = r ∷ n.sent } in
      let signed : Step bls eth big_int net n a =
        send id (new_batch (for_operator e) ∷ []) s chain honest ((e, announced, refl), tt)
          (run_node-signs net id e s chain sub batch w subscribed got_batch all) (Memᴰ.head refl) in
      let genuine : Genuine net a.sent r =
        λ _ _. record { response = r; is_sent = Memᴰ.head refl; has_id = refl; has_root = refl } in
      let (n', reached, is_shared, others, is_handed) =
        hands net a i r index (then_step now signed) new_i free genuine found in
      let call_handed : Memᴰ (record { task_index = index; response = r }) n'.handed =
        rw is_handed (Memᴰ.head refl) in
      answers_task j index e.batch_merkle_root resp k receipt _ call_handed
        (Later-Reach net reached reach) reached (others j apart ∙ new_j)
        (ap (λ m. m.agg.task_mutex) is_shared ∙ free) (ap (λ m. m.wallet_mutex) is_shared ∙ wallet)
        (ap (λ m. Map.get m.agg.batches_idx_by_root e.batch_merkle_root) is_shared ∙ found)
        (rw is_handed (completed net n.handed index r ids valid quorum rest)) good same lt
        (rw (ap (λ m. m.out) is_shared) fails) (rw (ap (λ m. m.out) is_shared) got)
