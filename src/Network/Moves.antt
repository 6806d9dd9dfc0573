-- ===== src/Network/Moves.antt =====
-- A move of the aggregator keeps what stands behind its goroutines.
use beluuga.Prelude.{ℕ, true, false, Option, none, some, List, ◌≡◌, refl, ap, Memᴰ}
use beluuga.Types.{Bytes32, SignedTaskResponse}
use beluuga.Chain.Client.{EthClient}
use beluuga.Aggregator.State.{BlsAggregationService}
use beluuga.Aggregator.Server.{SignatureCall, hand_over}
use beluuga.Aggregator.Registry.Places.{get_elem?-index_of}
use beluuga.Aggregator.Threads.{
  Thread, Shared, Move, add, call, look, find, miss, wake, hand, leave, end_early, end_late,
  give_up, service_answers, read_lock, read, wallet_lock, pay, pay_fails, confirm_fails, retry,
}
use beluuga.Aggregator.Threads.Invariant.{Placed}
use beluuga.Aggregator.Threads.Moves.{grown}
use beluuga.Network.{Setting, Genuine, QuorumSigned, Allowed, handed_by}
use beluuga.Network.Backing.{
  Backed, ThreadBacked, CallBacked, ReplyGenuine, ThreadBacked-enroll, CallBacked-enroll,
}

module _ {Signature : Type 0} (net : Setting Signature)
    (quorum_honest : (ids : List Bytes32)
      → net.Quorum ids
      → (id : Bytes32) × Memᴰ id ids × net.Honest id) where
  -- An honest operator is among those whose signatures the service has got.
  QuorumSigned-Backed :
      (sent : List (SignedTaskResponse Signature)) (roots : List Bytes32)
      (handed : List (SignatureCall Signature)) (index : ℕ)
      → ((c : SignatureCall Signature) → Memᴰ c handed → CallBacked net sent roots c)
      → QuorumSigned net handed index
      → Backed net sent roots index
  QuorumSigned-Backed sent roots handed index calls (ids, quorum, all) =
      let (id, among, honest) = quorum_honest ids quorum in
      let s = all id among in
      let backed = calls s.call s.is_handed in
      let honest' : net.Honest s.call.response.operator_id = rw s.has_id honest in
      record {
        id = s.call.response.operator_id;
        root = s.call.response.batch_merkle_root;
        honest = honest';
        at_index = rw (← s.has_index) (
            get_elem?-index_of s.call.response.batch_merkle_root s.call.task_index roots
              backed.placed);
        signed = backed.genuine honest' s.valid;
      }

module _ {Signature : Type 0} (net : Setting Signature) where
  some-Genuine :
      (sent : List (SignedTaskResponse Signature)) (n index : ℕ) (r : SignedTaskResponse Signature)
      → Genuine net sent r
      → ReplyGenuine net sent
          (record { reply = n; running = some (record { task_index = index; response = r }) })
  some-Genuine sent n index r g c e =
      let same : r ≡ c.response =
        ap (λ (o : Option (SignatureCall Signature)). elim o [ some x ↦ x.response | none ↦ r ])
          e in
      rw (← same) g

module _ {bls : BlsAggregationService} {eth : EthClient} {F : Type 0} {big_int : F → ℕ}
    (net : Setting bls.Signature)
    (quorum_honest : (ids : List Bytes32)
      → net.Quorum ids
      → (id : Bytes32) × Memᴰ id ids × net.Honest id) where
  open bls use {Service, Signature}
  open eth use {World, Receipt}

  module _ (sent : List (SignedTaskResponse Signature)) (handed : List (SignatureCall Signature))
      (roots : List Bytes32)
      (calls : (c : SignatureCall Signature) → Memᴰ c handed → CallBacked net sent roots c) where
    pub Move-ThreadBacked :
        {m m' : Shared Service World} {p p' : Thread Signature F Receipt}
        (mv : Move bls eth big_int m p m' p')
        → Allowed bls eth big_int net sent handed mv
        → ThreadBacked net sent roots p
        → ThreadBacked net sent (grown mv roots) p'
    unfolding hand_over
    Move-ThreadBacked (call r) allowed b = allowed
    Move-ThreadBacked (look _) allowed b = b
    Move-ThreadBacked (find _) allowed b = b
    Move-ThreadBacked (miss _ _) allowed b = b
    Move-ThreadBacked wake allowed b = b
    Move-ThreadBacked (hand true) allowed b = λ c e. cc
    Move-ThreadBacked (hand {index} {r} false) allowed b = some-Genuine net sent 1 index r b
    Move-ThreadBacked (leave _) allowed b = b
    Move-ThreadBacked give_up allowed b = λ c e. cc
    Move-ThreadBacked end_early allowed b = λ c e. cc
    Move-ThreadBacked end_late allowed b = λ c e. cc
    Move-ThreadBacked (service_answers {resp} _) allowed b = λ e.
        QuorumSigned-Backed net quorum_honest sent roots handed resp.task_index calls (allowed e)
    Move-ThreadBacked (read_lock e _) allowed b = b e
    Move-ThreadBacked (read _) allowed b = b
    Move-ThreadBacked (wallet_lock _) allowed b = b
    Move-ThreadBacked (pay _) allowed b = b
    Move-ThreadBacked (pay_fails _) allowed b = b
    Move-ThreadBacked (confirm_fails _) allowed b = b
    Move-ThreadBacked retry allowed b = b
    Move-ThreadBacked mv allowed b = tt

    pub Move-CallBacked :
        {m m' : Shared Service World} {p p' : Thread Signature F Receipt}
        (mv : Move bls eth big_int m p m' p')
        → Placed roots p
        → ThreadBacked net sent roots p
        → (c : SignatureCall Signature) → Memᴰ c (handed_by bls eth big_int net mv handed)
        → CallBacked net sent (grown mv roots) c
    Move-CallBacked (add {b = x} _) f b c m = CallBacked-enroll net x.batch_merkle_root (calls c m)
    Move-CallBacked (hand true) f b c (Memᴰ.head e) = rw e (record { genuine = b; placed = f })
    Move-CallBacked (hand true) f b c (Memᴰ.tail m) = calls c m
    Move-CallBacked (hand false) f b c m = calls c m
    Move-CallBacked (end_early {c = x}) f b c (Memᴰ.head e) =
        rw e (record { genuine = b x refl; placed = f })
    Move-CallBacked (end_early) f b c (Memᴰ.tail m) = calls c m
    Move-CallBacked (end_late {c = x}) f b c (Memᴰ.head e) =
        rw e (record { genuine = b x refl; placed = f })
    Move-CallBacked (end_late) f b c (Memᴰ.tail m) = calls c m
    Move-CallBacked mv f b c m = calls c m

module _ {bls : BlsAggregationService} {eth : EthClient} {F : Type 0} {big_int : F → ℕ}
    (net : Setting bls.Signature) where
  open bls use {Service, Signature}
  open eth use {World, Receipt}

  -- The goroutines that do not move.
  pub grown-ThreadBacked :
      {m m' : Shared Service World} {p p' : Thread Signature F Receipt}
      (mv : Move bls eth big_int m p m' p') (sent : List (SignedTaskResponse Signature))
      (roots : List Bytes32) (q : Thread Signature F Receipt)
      → ThreadBacked net sent roots q
      → ThreadBacked net sent (grown mv roots) q
  grown-ThreadBacked (add {b = x} _) sent roots q b =
      ThreadBacked-enroll net x.batch_merkle_root sent roots q b
  grown-ThreadBacked mv sent roots q b = b
