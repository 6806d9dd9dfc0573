-- ===== src/Network.antt =====
-- The contract's events, the operators and one aggregator together. An honest operator is a process of
-- operator/pkg on batches that were announced; it may be started again at any time. Anyone may call the
-- aggregator (aggregator/internal/pkg) with anything, but only the owner of a key makes signatures that
-- are valid under it; whatever was sent can be sent again. The BLS service answers a task without an
-- error only when a quorum's valid signatures were handed to it for that task.
pub mod Honest
pub mod Backing
pub mod Moves
pub mod Verified
pub mod Runs
pub mod Answered
use beluuga.Prelude.{ℕ, Bool, true, false, none, String, List, [], ◌∷◌, ◌≡◌, Memᴰ}
use beluuga.Prelude.Int.{ℤ}
use beluuga.Types.{Bytes32, SignedTaskResponse}
use beluuga.Go.Mutex.{move_to}
use beluuga.Go.Outcome.{Outcome, returned}
use beluuga.Chain.Client.{EthClient}
use beluuga.Operator.Download.{Http}
use beluuga.Operator.Verify.{Verifiers}
use beluuga.Operator.Process.{NewBatchLog, OperatorState}
use beluuga.Operator.Process.Accept.{Reorders}
use beluuga.Operator.Run.{Event, new_batch, Subscriptions, Loop}
use beluuga.Operator.Run
use beluuga.Aggregator.State.{BlsAggregationService}
use beluuga.Aggregator.Server.{SignatureCall}
use beluuga.Aggregator.Respond.{BlsAggServiceResponse, Sending}
use beluuga.Aggregator.Threads.{
  Thread, Shared, Move, call, hand, end_early, end_late, service_answers, System, init,
}

-- The event `NewBatch` of the contract.
pub record BatchEvent : Type 0 where
  pub batch_merkle_root : Bytes32
  pub task_created_block : ℕ
  pub batch_data_pointer : String

-- What an operator reads of it.
abbrev pub for_operator : BatchEvent → NewBatchLog
for_operator e = record {
  batch_merkle_root = e.batch_merkle_root;
  batch_data_pointer = e.batch_data_pointer;
}

-- The surroundings of one operator's process.
pub record Node (Signature : Type 0) : Type 1 where
  pub libs : Verifiers
  pub http : Http
  pub subs : Subscriptions
  pub max_batch_size : ℤ
  pub order : List Bool → List Bool
  pub order-Reorders : Reorders order
  pub sign_message : Bytes32 → Signature

-- Who is honest, which signature of a root is valid under the key of an operator, which operators are a
-- quorum, and the nodes of the honest operators by their ids.
pub record Setting (Signature : Type 0) : Type 1 where
  pub Honest : Bytes32 → Type 0
  pub Valid : Bytes32 → Bytes32 → Signature → Type 0
  pub Quorum : List Bytes32 → Type 0
  pub node : Bytes32 → Node Signature

-- Each batch that the process hears of was announced.
abbrev pub Heard : List BatchEvent → Event → Type 0
Heard announced (new_batch log) = (e : BatchEvent) × Memᴰ e announced × (for_operator e ≡ log)
Heard announced _ = Unit

abbrev pub AllHeard : List BatchEvent → List Event → Type 0
AllHeard announced [] = Unit
AllHeard announced (event ∷ events) = Heard announced event × AllHeard announced events

module _ {Signature : Type 0} (net : Setting Signature) where
  open net use {Honest, Valid, Quorum, node}

  abbrev pub NodeLoop : Bytes32 → Type 0
  NodeLoop id = Loop (node id).http.World (node id).subs.Chain (node id).subs.Sub Signature

  -- The process of an operator, up to the events that have come.
  abbrev pub run_node :
      (id : Bytes32)
      → List Event
      → OperatorState (node id).http.World
      → (node id).subs.Chain
      → Outcome (NodeLoop id)
  run_node id =
      let n = node id in Run.start n.subs n.libs n.http n.max_batch_size n.order n.sign_message id

  -- An honest operator sent a signature of the root.
  pub record Signed (sent : List (SignedTaskResponse Signature)) (id root : Bytes32) : Type 0 where
    pub response : SignedTaskResponse Signature
    pub is_sent : Memᴰ response sent
    pub has_id : response.operator_id ≡ id
    pub has_root : response.batch_merkle_root ≡ root

  -- A valid signature of an honest operator is one that it made.
  abbrev pub Genuine : List (SignedTaskResponse Signature) → SignedTaskResponse Signature → Type 0
  Genuine sent r =
      Honest r.operator_id
      → Valid r.operator_id r.batch_merkle_root r.bls_signature
      → Signed sent r.operator_id r.batch_merkle_root

  -- The service has got a valid signature of the operator for the task.
  pub record HasSigned (handed : List (SignatureCall Signature)) (index : ℕ) (id : Bytes32)
      : Type 0 where
    pub call : SignatureCall Signature
    pub is_handed : Memᴰ call handed
    pub has_index : call.task_index ≡ index
    pub has_id : call.response.operator_id ≡ id
    pub valid :
        Valid call.response.operator_id call.response.batch_merkle_root call.response.bls_signature

  -- It has got those of a quorum.
  abbrev pub QuorumSigned : List (SignatureCall Signature) → ℕ → Type 0
  QuorumSigned handed index =
      (ids : List Bytes32) × Quorum ids × ((id : Bytes32) → Memᴰ id ids → HasSigned handed index id)

module _ (bls : BlsAggregationService) (eth : EthClient) {F : Type 0} (big_int : F → ℕ)
    (net : Setting bls.Signature) where
  open bls use {Service, Signature}
  open eth use {World, Receipt}
  open net use {Honest, node}

  pub record Network : Type 0 where
    pub system : System bls eth big_int
    pub announced : List BatchEvent
    pub sent : List (SignedTaskResponse Signature)
    pub handed : List (SignatureCall Signature)

  -- What the surroundings of the aggregator keep to in one of its moves.
  abbrev pub Allowed :
      {m m' : Shared Service World} {p p' : Thread Signature F Receipt}
      → List (SignedTaskResponse Signature)
      → List (SignatureCall Signature)
      → Move bls eth big_int m p m' p'
      → Type 0
  Allowed sent handed (call r) = Genuine net sent r
  Allowed sent handed (service_answers {resp} _) =
      resp.error ≡ none → QuorumSigned net handed resp.task_index
  Allowed sent handed _ = Unit

  -- The calls that the service has got behind the move.
  abbrev pub handed_by :
      {m m' : Shared Service World} {p p' : Thread Signature F Receipt}
      → Move bls eth big_int m p m' p'
      → List (SignatureCall Signature)
      → List (SignatureCall Signature)
  handed_by (hand {index} {r} true) handed = record { task_index = index; response = r } ∷ handed
  handed_by (end_early {c = c}) handed = c ∷ handed
  handed_by (end_late {c = c}) handed = c ∷ handed
  handed_by _ handed = handed

  pub data Step (n : Network) : Network → Type 0 where
    announce : (e : BatchEvent) → Step n (record n { announced = e ∷ n.announced })
    send :
        (id : Bytes32) (events : List Event) (s : OperatorState (node id).http.World)
        (chain : (node id).subs.Chain) {l : NodeLoop net id} {r : SignedTaskResponse Signature}
        → Honest id
        → AllHeard n.announced events
        → run_node net id events s chain ≡ returned l
        → Memᴰ r l.sent
        → Step n (record n { sent = r ∷ n.sent })
    act :
        (i : ℕ) {m : Shared Service World} {p : Thread Signature F Receipt}
        (mv : Move bls eth big_int n.system.shared (n.system.pc i) m p)
        → Allowed n.sent n.handed mv
        → Step n (record n {
          system = record { shared = m; pc = move_to n.system.pc i p };
          handed = handed_by mv n.handed;
        })

  pub data Reach : Network → Type 0 where
    start :
        (service : Service) (out : Sending World)
        → Reach (record {
          system = init bls eth big_int service out;
          announced = [];
          sent = [];
          handed = [];
        })
    later : {n n' : Network} → Reach n → Step n n' → Reach n'
