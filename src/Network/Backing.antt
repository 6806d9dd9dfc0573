-- ===== src/Network/Backing.antt =====
-- What stands behind each goroutine of the aggregator: the signatures of honest operators.
use beluuga.Prelude.{ℕ, none, some, List, ◌∷◌, ◌≡◌, Memᴰ, get_elem?}
use beluuga.Types.{Bytes32, SignedTaskResponse}
use beluuga.Aggregator.Server.{SignatureCall, Reply}
use beluuga.Aggregator.Registry.{enroll, index_of}
use beluuga.Aggregator.Registry.Growth.{index_of-enroll, get_elem?-enroll}
use beluuga.Aggregator.Threads.{
  Thread, asking, looking, sleeping, handing, leaving, replied, answering, reading, sending, paying,
  confirming, pausing,
}
use beluuga.Network.{Setting, Signed, Genuine}

module _ {Signature : Type 0} (net : Setting Signature) where
  open net use {Honest, Quorum}

  -- The root at the index was signed by an honest operator.
  pub record Backed (sent : List (SignedTaskResponse Signature)) (roots : List Bytes32) (index : ℕ)
      : Type 0 where
    pub id : Bytes32
    pub root : Bytes32
    pub honest : Honest id
    pub at_index : get_elem? roots index ≡ some root
    pub signed : Signed net sent id root

  abbrev pub ReplyGenuine : List (SignedTaskResponse Signature) → Reply Signature → Type 0
  ReplyGenuine sent reply =
      (c : SignatureCall Signature) → reply.running ≡ some c → Genuine net sent c.response

  abbrev pub ThreadBacked :
      {F R : Type 0}
      → List (SignedTaskResponse Signature)
      → List Bytes32
      → Thread Signature F R
      → Type 0
  ThreadBacked sent roots (asking _ r) = Genuine net sent r
  ThreadBacked sent roots (looking _ r) = Genuine net sent r
  ThreadBacked sent roots (sleeping _ r) = Genuine net sent r
  ThreadBacked sent roots (handing _ r) = Genuine net sent r
  ThreadBacked sent roots (leaving reply) = ReplyGenuine sent reply
  ThreadBacked sent roots (replied reply) = ReplyGenuine sent reply
  ThreadBacked sent roots (answering resp) = resp.error ≡ none → Backed sent roots resp.task_index
  ThreadBacked sent roots (reading resp) = Backed sent roots resp.task_index
  ThreadBacked sent roots (sending _ _ resp) = Backed sent roots resp.task_index
  ThreadBacked sent roots (paying _ _ resp) = Backed sent roots resp.task_index
  ThreadBacked sent roots (confirming _ _ _ resp) = Backed sent roots resp.task_index
  ThreadBacked sent roots (pausing _ _ _ resp) = Backed sent roots resp.task_index
  ThreadBacked sent roots _ = Unit

  -- A call that the service has got: it is genuine, and for the index of its root.
  pub record CallBacked (sent : List (SignedTaskResponse Signature)) (roots : List Bytes32)
      (c : SignatureCall Signature) : Type 0 where
    pub genuine : Genuine net sent c.response
    pub placed : index_of c.response.batch_merkle_root roots ≡ some c.task_index

  -- What one signature that is sent, or one root that is enrolled, leaves as it was.
  module _ (r : SignedTaskResponse Signature) where
    Signed-send :
        {sent : List (SignedTaskResponse Signature)} {id root : Bytes32}
        → Signed net sent id root
        → Signed net (r ∷ sent) id root
    Signed-send s = record {
      response = s.response;
      is_sent = Memᴰ.tail s.is_sent;
      has_id = s.has_id;
      has_root = s.has_root;
    }

    Genuine-send :
        (sent : List (SignedTaskResponse Signature)) (r' : SignedTaskResponse Signature)
        → Genuine net sent r'
        → Genuine net (r ∷ sent) r'
    Genuine-send sent r' g honest valid = Signed-send (g honest valid)

    Backed-send :
        {sent : List (SignedTaskResponse Signature)} {roots : List Bytes32} {index : ℕ}
        → Backed sent roots index
        → Backed (r ∷ sent) roots index
    Backed-send b = record {
      id = b.id;
      root = b.root;
      honest = b.honest;
      at_index = b.at_index;
      signed = Signed-send b.signed;
    }

    pub ThreadBacked-send :
        {F R : Type 0} (sent : List (SignedTaskResponse Signature)) (roots : List Bytes32)
        (p : Thread Signature F R)
        → ThreadBacked sent roots p
        → ThreadBacked (r ∷ sent) roots p
    ThreadBacked-send sent roots (asking _ r') b = Genuine-send sent r' b
    ThreadBacked-send sent roots (looking _ r') b = Genuine-send sent r' b
    ThreadBacked-send sent roots (sleeping _ r') b = Genuine-send sent r' b
    ThreadBacked-send sent roots (handing _ r') b = Genuine-send sent r' b
    ThreadBacked-send sent roots (leaving _) b = λ c e. Genuine-send sent c.response (b c e)
    ThreadBacked-send sent roots (replied _) b = λ c e. Genuine-send sent c.response (b c e)
    ThreadBacked-send sent roots (answering _) b = λ e. Backed-send (b e)
    ThreadBacked-send sent roots (reading _) b = Backed-send b
    ThreadBacked-send sent roots (sending _ _ _) b = Backed-send b
    ThreadBacked-send sent roots (paying _ _ _) b = Backed-send b
    ThreadBacked-send sent roots (confirming _ _ _ _) b = Backed-send b
    ThreadBacked-send sent roots (pausing _ _ _ _) b = Backed-send b
    ThreadBacked-send sent roots p b = tt

    pub CallBacked-send :
        {sent : List (SignedTaskResponse Signature)} {roots : List Bytes32}
        {c : SignatureCall Signature}
        → CallBacked sent roots c
        → CallBacked (r ∷ sent) roots c
    CallBacked-send {sent} {c = c} b = record {
      genuine = Genuine-send sent c.response b.genuine;
      placed = b.placed;
    }

  module _ (x : Bytes32) where
    Backed-enroll :
        {sent : List (SignedTaskResponse Signature)} {roots : List Bytes32} {index : ℕ}
        → Backed sent roots index
        → Backed sent (enroll x roots) index
    Backed-enroll {roots = roots} {index} b = record {
      id = b.id;
      root = b.root;
      honest = b.honest;
      at_index = get_elem?-enroll x roots index b.at_index;
      signed = b.signed;
    }

    pub ThreadBacked-enroll :
        {F R : Type 0} (sent : List (SignedTaskResponse Signature)) (roots : List Bytes32)
        (p : Thread Signature F R)
        → ThreadBacked sent roots p
        → ThreadBacked sent (enroll x roots) p
    ThreadBacked-enroll sent roots (asking _ _) b = b
    ThreadBacked-enroll sent roots (looking _ _) b = b
    ThreadBacked-enroll sent roots (sleeping _ _) b = b
    ThreadBacked-enroll sent roots (handing _ _) b = b
    ThreadBacked-enroll sent roots (leaving _) b = b
    ThreadBacked-enroll sent roots (replied _) b = b
    ThreadBacked-enroll sent roots (answering _) b = λ e. Backed-enroll (b e)
    ThreadBacked-enroll sent roots (reading _) b = Backed-enroll b
    ThreadBacked-enroll sent roots (sending _ _ _) b = Backed-enroll b
    ThreadBacked-enroll sent roots (paying _ _ _) b = Backed-enroll b
    ThreadBacked-enroll sent roots (confirming _ _ _ _) b = Backed-enroll b
    ThreadBacked-enroll sent roots (pausing _ _ _ _) b = Backed-enroll b
    ThreadBacked-enroll sent roots p b = tt

    pub CallBacked-enroll :
        {sent : List (SignedTaskResponse Signature)} {roots : List Bytes32}
        {c : SignatureCall Signature}
        → CallBacked sent roots c
        → CallBacked sent (enroll x roots) c
    CallBacked-enroll {roots = roots} {c} b = record {
      genuine = b.genuine;
      placed = index_of-enroll x c.response.batch_merkle_root roots b.placed;
    }
