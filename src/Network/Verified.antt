-- ===== src/Network/Verified.antt =====
-- Who has verified what reaches the chain.
use beluuga.Prelude.{ℕ, zero, suc, some, List, [], ◌∷◌, ◌≡◌, Memᴰ, get_elem?}
use beluuga.Types.{Bytes32, SignedTaskResponse}
use beluuga.Go.Mutex.{move_to_all}
use beluuga.Chain.Client.{EthClient}
use beluuga.Aggregator.State.{BlsAggregationService}
use beluuga.Aggregator.Server.{SignatureCall}
use beluuga.Aggregator.Respond.{BlsAggServiceResponse}
use beluuga.Aggregator.Threads.{paying, at_start}
use beluuga.Aggregator.Threads.Invariant.{Inv}
use beluuga.Aggregator.Threads.Moves.{grown}
use beluuga.Aggregator.Threads.Reached.{init-Inv, Move-Inv}
use beluuga.Network.{BatchEvent, Setting, Network, Step, announce, send, act, Reach, start, later}
use beluuga.Network.Honest.{IsVerified, IsVerified-later, Vouched, run_node-Vouched}
use beluuga.Network.Backing.{Backed, ThreadBacked, CallBacked, ThreadBacked-send, CallBacked-send}
use beluuga.Network.Moves.{Move-ThreadBacked, Move-CallBacked, grown-ThreadBacked}

module _ {Signature : Type 0} (net : Setting Signature) where
  Vouched-later :
      (e : BatchEvent) (announced : List BatchEvent) (r : SignedTaskResponse Signature)
      → Vouched net announced r
      → Vouched net (e ∷ announced) r
  Vouched-later e announced r v = record {
    honest = v.honest;
    verified = IsVerified-later net e v.verified;
  }

  Vouched-send :
      (announced : List BatchEvent) (sent : List (SignedTaskResponse Signature))
      (r : SignedTaskResponse Signature)
      → ((r' : SignedTaskResponse Signature) → Memᴰ r' sent → Vouched net announced r')
      → Vouched net announced r
      → (r' : SignedTaskResponse Signature) → Memᴰ r' (r ∷ sent)
      → Vouched net announced r'
  Vouched-send announced sent r old new r' (Memᴰ.head e) = rw e new
  Vouched-send announced sent r old new r' (Memᴰ.tail m) = old r' m

module _ (bls : BlsAggregationService) (eth : EthClient) {F : Type 0} (big_int : F → ℕ)
    (net : Setting bls.Signature) where
  at_start-ThreadBacked : (i : ℕ) → ThreadBacked net [] [] (at_start bls eth big_int i)
  at_start-ThreadBacked zero = tt
  at_start-ThreadBacked (suc i) = tt

module _ {bls : BlsAggregationService} {eth : EthClient} {F : Type 0} {big_int : F → ℕ}
    (net : Setting bls.Signature) where
  open bls use {Service, Signature}
  open eth use {World, Receipt}

  record NetInv (roots : List Bytes32) (n : Network bls eth big_int net) : Type 0 where
    pub inv : Inv roots n.system.shared n.system.pc
    pub threads : (i : ℕ) → ThreadBacked net n.sent roots (n.system.pc i)
    pub calls : (c : SignatureCall Signature) → Memᴰ c n.handed → CallBacked net n.sent roots c
    pub vouched : (r : SignedTaskResponse Signature) → Memᴰ r n.sent → Vouched net n.announced r

  module _
      (quorum_honest : (ids : List Bytes32)
        → net.Quorum ids
        → (id : Bytes32) × Memᴰ id ids × net.Honest id) where
    Step-NetInv :
        {n n' : Network bls eth big_int net} (roots : List Bytes32)
        → Step bls eth big_int net n n'
        → NetInv roots n
        → (roots' : List Bytes32) × NetInv roots' n'
    Step-NetInv {n} roots (announce e) v = (
      roots,
      record {
        inv = v.inv;
        threads = v.threads;
        calls = v.calls;
        vouched = λ r m. Vouched-later net e n.announced r (v.vouched r m);
      },
    )
    Step-NetInv {n} roots (send id events s chain {l} {r} honest heard ran sends) v = (
      roots,
      record {
        inv = v.inv;
        threads = λ i. ThreadBacked-send net r n.sent roots (n.system.pc i) (v.threads i);
        calls = λ c m. CallBacked-send net r (v.calls c m);
        vouched =
            Vouched-send net n.announced n.sent r v.vouched
              (run_node-Vouched net id events s chain honest heard ran sends);
      },
    )
    Step-NetInv {n} roots (act i {m} {p} mv allowed) v = (
      grown mv roots,
      record {
        inv = Move-Inv v.inv i mv;
        threads =
            move_to_all (λ _ q. ThreadBacked net n.sent (grown mv roots) q) n.system.pc i p
              (Move-ThreadBacked net quorum_honest n.sent n.handed roots v.calls mv allowed
                (v.threads i))
              (λ j. grown-ThreadBacked net mv n.sent roots (n.system.pc j) (v.threads j));
        calls =
            Move-CallBacked net quorum_honest n.sent n.handed roots v.calls mv (v.inv.placed i)
              (v.threads i);
        vouched = v.vouched;
      },
    )

    Reach-NetInv :
        {n : Network bls eth big_int net}
        → Reach bls eth big_int net n
        → (roots : List Bytes32) × NetInv roots n
    Reach-NetInv (start service out) = (
      [],
      record {
        inv = init-Inv bls eth big_int service out;
        threads = at_start-ThreadBacked bls eth big_int net;
        calls = λ c m. elim m [ ];
        vouched = λ r m. elim m [ ];
      },
    )
    Reach-NetInv (later r step) = let (roots, v) = Reach-NetInv r in Step-NetInv roots step v

    -- Let each quorum have an honest operator. In every state that the operators and the aggregator
    -- reach together, whatever dishonest ones sent: if a goroutine is about to send a root on chain, an
    -- event with that root was announced, an honest operator has downloaded the batch of that event, and
    -- each proof of the batch verifies.
    pub paying-IsVerified :
        {n : Network bls eth big_int net}
        → Reach bls eth big_int net n
        → (i left : ℕ) (root : Bytes32) (resp : BlsAggServiceResponse F)
        → n.system.pc i ≡ paying left root resp
        → (id : Bytes32) × net.Honest id × IsVerified net n.announced id root
    paying-IsVerified {n} reach i left root resp here =
        let (roots, v) = Reach-NetInv reach in
        let placed : get_elem? roots resp.task_index ≡ some root = rw here at (v.inv.placed i) in
        let backed : Backed net n.sent roots resp.task_index = rw here at (v.threads i) in
        let same : root ≡ backed.signed.response.batch_merkle_root =
          cc (placed, backed.at_index, backed.signed.has_root) in
        let vouched = v.vouched backed.signed.response backed.signed.is_sent in
        (backed.signed.response.operator_id, vouched.honest, rw same vouched.verified)
