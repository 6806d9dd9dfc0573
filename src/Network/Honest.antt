-- ===== src/Network/Honest.antt =====
-- What an honest operator has sent: a signature of a root whose batch it verified.
use beluuga.Prelude.{◌≡◌, List, [], ◌∷◌, Memᴰ, sym, ap, ◌∙◌}
use beluuga.Errors.{ok}
use beluuga.Types.{Bytes32, SignedTaskResponse}
use beluuga.Go.Outcome.{returned}
use beluuga.Operator.Data.{VerificationData}
use beluuga.Operator.Download.{get_batch_from_s3}
use beluuga.Operator.Process.{OperatorState}
use beluuga.Operator.Process.Accept.{AllVerify}
use beluuga.Operator.Run.{Event, new_batch}
use beluuga.Operator.Run.Signed.{All, IsJustified, sent-IsJustified}
use beluuga.Network.{BatchEvent, Setting, Heard, AllHeard, NodeLoop, run_node}

pub All-mem : {A : Type 0} (P : A → Type 0) {x : A} (xs : List A) → All P xs → Memᴰ x xs → P x
All-mem P [] all m = elim m [ ]
All-mem P (y ∷ ys) all (Memᴰ.head e) = rw e all.0
All-mem P (y ∷ ys) all (Memᴰ.tail m) = All-mem P ys all.1 m

AllHeard-mem :
    (announced : List BatchEvent) (event : Event) (events : List Event)
    → AllHeard announced events
    → Memᴰ event events
    → Heard announced event
AllHeard-mem announced event [] all m = elim m [ ]
AllHeard-mem announced event (y ∷ ys) all (Memᴰ.head e) = rw e all.0
AllHeard-mem announced event (y ∷ ys) all (Memᴰ.tail m) = AllHeard-mem announced event ys all.1 m

module _ {Signature : Type 0} (net : Setting Signature) where
  open net use {Honest, node}

  -- An event with the root was announced; the operator downloaded its batch, and each proof verifies.
  pub record IsVerified (announced : List BatchEvent) (id root : Bytes32) : Type 0 where
    pub event : BatchEvent
    pub is_announced : Memᴰ event announced
    pub has_root : event.batch_merkle_root ≡ root
    pub before : (node id).http.World
    pub after : (node id).http.World
    pub batch : List VerificationData
    pub downloaded :
        get_batch_from_s3 (node id).http (node id).max_batch_size event.batch_data_pointer before
        ≡ (after, ok batch)
    pub all_verify : AllVerify (node id).libs batch

  pub IsVerified-later :
      (e : BatchEvent) {announced : List BatchEvent} {id root : Bytes32}
      → IsVerified announced id root
      → IsVerified (e ∷ announced) id root
  IsVerified-later e v = record {
    event = v.event;
    is_announced = Memᴰ.tail v.is_announced;
    has_root = v.has_root;
    before = v.before;
    after = v.after;
    batch = v.batch;
    downloaded = v.downloaded;
    all_verify = v.all_verify;
  }

  -- A response that carries the id of an honest operator, which verified the batch with its root.
  pub record Vouched (announced : List BatchEvent) (r : SignedTaskResponse Signature) : Type 0 where
    pub honest : Honest r.operator_id
    pub verified : IsVerified announced r.operator_id r.batch_merkle_root

  IsJustified-IsVerified :
      {announced : List BatchEvent} (id : Bytes32) {events : List Event}
      {r : SignedTaskResponse Signature}
      → AllHeard announced events
      → (let n = node id in
          IsJustified n.libs n.http n.max_batch_size n.order n.sign_message id events r)
      → (r.operator_id ≡ id) × IsVerified announced id r.batch_merkle_root
  IsJustified-IsVerified {announced} id {events} heard j =
      let (e, mem, is_log) = AllHeard-mem announced (new_batch j.log) events heard j.announced in
      (
        ap (λ x. x.operator_id) j.is_response,
        record {
          event = e;
          is_announced = mem;
          has_root =
              ap (λ x. x.batch_merkle_root) is_log
              ∙ sym (ap (λ x. x.batch_merkle_root) j.is_response);
          before = j.before;
          after = j.after;
          batch = j.batch;
          downloaded = rw (ap (λ x. x.batch_data_pointer) is_log) j.downloaded;
          all_verify = j.all_verify;
        },
      )

  -- Whatever an honest operator's process sends is vouched for.
  pub run_node-Vouched :
      {announced : List BatchEvent} (id : Bytes32) (events : List Event)
      (s : OperatorState (node id).http.World) (chain : (node id).subs.Chain) {l : NodeLoop net id}
      {r : SignedTaskResponse Signature}
      → Honest id
      → AllHeard announced events
      → run_node net id events s chain ≡ returned l
      → Memᴰ r l.sent
      → Vouched announced r
  run_node-Vouched {announced} id events s chain {l} {r} honest heard ran mem =
      let n = node id in
      let all =
        sent-IsJustified n.libs n.http n.max_batch_size n.order n.sign_message id n.subs events s
          chain n.order-Reorders ran in
      let (same, verified) = IsJustified-IsVerified id heard (
        All-mem (IsJustified n.libs n.http n.max_batch_size n.order n.sign_message id events) l.sent
          all mem) in
      record { honest = rw same honest; verified = rw same verified }
