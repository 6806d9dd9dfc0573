-- ===== src/Network/Runs.antt =====
-- Runs of one goroutine of the aggregator, as moves of the network.
use mathlib.Core.Path.{subst}
use beluuga.Prelude.{
  ℕ, ◌≡◌, ◌≢◌, ◌∙◌, true, false, none, some, List, ◌∷◌, refl, sym, Memᴰ, get_elem?,
}
use beluuga.Prelude.Keys.{bytes_eq, nat_eq}
use beluuga.Types.{Bytes32, SignedTaskResponse}
use beluuga.Go.Map
use beluuga.Go.Mutex.{move_to, move_to_here, move_to_other}
use beluuga.Chain.Client.{EthClient}
use beluuga.Aggregator.State.{BlsAggregationService, Aggregator, lock_free, unlock_held}
use beluuga.Aggregator.Server.{SignatureCall, Reply, hand_over}
use beluuga.Aggregator.Threads.{
  Thread, unborn, asking, looking, handing, leaving, replied, answering, handled, Shared, Move,
  call, look, find, hand, leave, end_early, end_late, service_answers, System,
}
use beluuga.Aggregator.Threads
use beluuga.Aggregator.Threads.Reached.{Reach-Inv}
use beluuga.Aggregator.Registry.{Represents}
use beluuga.Aggregator.Registry.Places.{get_elem?-index_of}
use beluuga.Aggregator.Threads.Nearer.{born}
use beluuga.Aggregator.Threads.Progress.{Alone, stop, go}
use beluuga.Network.{
  Setting, Genuine, Network, Allowed, handed_by, Step, announce, send, act, Reach, later,
}

module _ {bls : BlsAggregationService} {eth : EthClient} {F : Type 0} {big_int : F → ℕ}
    (net : Setting bls.Signature) where
  open bls use {Service, Signature, process_new_signature}
  open eth use {World, Receipt}

  -- What the operators and the aggregator can go on to from a state.
  pub data Later (n : Network bls eth big_int net) : Network bls eth big_int net → Type 0 where
    now : Later n n
    then_step :
        {m m' : Network bls eth big_int net}
        → Later n m
        → Step bls eth big_int net m m'
        → Later n m'

  pub Later-Reach :
      {n n' : Network bls eth big_int net}
      → Later n n'
      → Reach bls eth big_int net n
      → Reach bls eth big_int net n'
  Later-Reach now reach = reach
  Later-Reach (then_step l step) reach = later (Later-Reach l reach) step

  -- A goroutine that was started moves on freely.
  Move-Allowed :
      {m m' : Shared Service World} {p p' : Thread Signature F Receipt}
      (sent : List (SignedTaskResponse Signature)) (handed : List (SignatureCall Signature))
      (mv : Move bls eth big_int m p m' p')
      → born p ≡ true
      → Allowed bls eth big_int net sent handed mv × (born p' ≡ true)
  Move-Allowed sent handed (call r) h = absurd cc
  Move-Allowed sent handed (service_answers _) h = absurd cc
  Move-Allowed sent handed mv h = (tt, refl)

  handed_by-keeps :
      {m m' : Shared Service World} {p p' : Thread Signature F Receipt}
      (mv : Move bls eth big_int m p m' p') (handed : List (SignatureCall Signature))
      (c : SignatureCall Signature)
      → Memᴰ c handed
      → Memᴰ c (handed_by bls eth big_int net mv handed)
  handed_by-keeps (hand true) handed c mem = Memᴰ.tail mem
  handed_by-keeps (hand false) handed c mem = mem
  handed_by-keeps end_early handed c mem = Memᴰ.tail mem
  handed_by-keeps end_late handed c mem = Memᴰ.tail mem
  handed_by-keeps mv handed c mem = mem

  -- The network behind a move of goroutine `i`.
  abbrev pub moved :
      Network bls eth big_int net
      → ℕ
      → Shared Service World
      → Thread Signature F Receipt
      → List (SignatureCall Signature)
      → Network bls eth big_int net
  moved n i m p handed = record n {
    system = record { shared = m; pc = move_to n.system.pc i p };
    handed = handed;
  }

  pub act_at :
      (n : Network bls eth big_int net) (i : ℕ) {m m' : Shared Service World}
      {p p' : Thread Signature F Receipt}
      → n.system.shared ≡ m
      → n.system.pc i ≡ p
      → (mv : Move bls eth big_int m p m' p') → Allowed bls eth big_int net n.sent n.handed mv
      → Step bls eth big_int net n (moved n i m' p' (handed_by bls eth big_int net mv n.handed))
  act_at n i {m} {m'} {p} {p'} same here =
      subst
        (λ a.
          (mv : Move bls eth big_int a p m' p')
          → Allowed bls eth big_int net n.sent n.handed mv
          → Step bls eth big_int net n
              (moved n i m' p' (handed_by bls eth big_int net mv n.handed)))
        same
        (subst
          (λ q.
            (mv : Move bls eth big_int n.system.shared q m' p')
            → Allowed bls eth big_int net n.sent n.handed mv
            → Step bls eth big_int net n
                (moved n i m' p' (handed_by bls eth big_int net mv n.handed)))
          here (λ mv allowed. act i mv allowed))

  -- Moves of one goroutine alone are moves of the network.
  pub Alone-Later :
      {k : ℕ} {m m' : Shared Service World} {p p' : Thread Signature F Receipt}
      (run : Alone bls eth big_int k m p m' p') (start n : Network bls eth big_int net) (i : ℕ)
      → Later start n
      → n.system.shared ≡ m
      → n.system.pc i ≡ p
      → born p ≡ true
      → (n' : Network bls eth big_int net) × Later start n'
        × (n'.system.shared ≡ m')
        × (n'.system.pc i ≡ p')
        × ((c : SignatureCall Signature) → Memᴰ c n.handed → Memᴰ c n'.handed)
  Alone-Later stop start n i l same here b = (n, l, same, here, λ c mem. mem)
  Alone-Later (go {m' = m1} {p' = p1} mv rest) start n i l same here b =
      let (allowed, b') = Move-Allowed n.sent n.handed mv b in
      let handed' = handed_by bls eth big_int net mv n.handed in
      let (n', l', same', here', kept) =
        Alone-Later rest start (moved n i m1 p1 handed') i
          (then_step l (act_at n i same here mv allowed)) refl
          (move_to_here n.system.pc i i p1 refl) b' in
      (n', l', same', here', λ c mem. kept c (handed_by-keeps mv n.handed c mem))

  -- The aggregator of a network moves as in Aggregator/Threads.
  Reach-system :
      {n : Network bls eth big_int net}
      → Reach bls eth big_int net n
      → Threads.Reach bls eth big_int n.system
  Reach-system (Reach.start service out) = Threads.Reach.start service out
  Reach-system (later r (announce e)) = Reach-system r
  Reach-system (later r (send _ _ _ _ _ _ _ _)) = Reach-system r
  Reach-system (later r (act i mv _)) = Threads.Reach.later (Reach-system r) (Threads.pick i mv)

  -- A registered root is the one at its index.
  pub root_at :
      {n : Network bls eth big_int net} {root : Bytes32} {index : ℕ}
      → Reach bls eth big_int net n
      → Map.get n.system.shared.agg.batches_idx_by_root root ≡ some index
      → (roots : List Bytes32) × Represents n.system.shared.agg roots
        × (get_elem? roots index ≡ some root)
  root_at {root = root} {index} reach found =
      let (roots, inv) = Reach-Inv (Reach-system reach) in
      (
        roots,
        inv.represents,
        get_elem?-index_of root index roots (sym (inv.represents.by_root root) ∙ found),
      )

  -- What goroutine `i` does with the response `r` of an operator when it finds the index at once.
  module _ (n : Network bls eth big_int net) (i : ℕ) (r : SignedTaskResponse Signature)
      (index : ℕ) where
    -- The aggregator behind it.
    abbrev pub collected : Aggregator Service
    collected = record n.system.shared.agg {
      bls_aggregation_service =
          (process_new_signature index r.batch_merkle_root r.bls_signature r.operator_id
            n.system.shared.agg.bls_aggregation_service).0;
    }

    abbrev pub delivered : List (SignatureCall Signature)
    delivered = record { task_index = index; response = r } ∷ n.handed

    pub hands :
        {before : Network bls eth big_int net}
        → Later before n
        → n.system.pc i ≡ unborn
        → n.system.shared.agg.task_mutex ≡ false
        → Genuine net n.sent r
        → Map.get n.system.shared.agg.batches_idx_by_root r.batch_merkle_root ≡ some index
        → (n' : Network bls eth big_int net) × Later before n'
          × (n'.system.shared ≡ record n.system.shared { agg = collected })
          × ((j : ℕ) → i ≢ j → n'.system.pc j ≡ n.system.pc j)
          × (n'.handed ≡ delivered)
    unfolding hand_over
    hands l new free genuine found =
        let m = n.system.shared in
        let held = record m { agg = record m.agg { task_mutex = true } } in
        let taken = record m { agg = record collected { task_mutex = true } } in
        let reply : Reply Signature = record { reply = 0; running = none } in
        let n1 = moved n i m (asking 50 r) n.handed in
        let n2 = moved n1 i held (looking 49 r) n.handed in
        let n3 = moved n2 i held (handing index r) n.handed in
        let n4 = moved n3 i taken (leaving reply) delivered in
        let n5 = moved n4 i (record m { agg = collected }) (replied reply) delivered in
        let s1 : Step bls eth big_int net n n1 = act_at n i refl new (call r) genuine in
        let s2 : Step bls eth big_int net n1 n2 =
          act_at n1 i refl (move_to_here n.system.pc i i _ refl) (look (lock_free m.agg free)) tt in
        let s3 : Step bls eth big_int net n2 n3 =
          act_at n2 i refl (move_to_here n1.system.pc i i _ refl) (find found) tt in
        let s4 : Step bls eth big_int net n3 n4 =
          act_at n3 i refl (move_to_here n2.system.pc i i _ refl) (hand true) tt in
        let s5 : Step bls eth big_int net n4 n5 =
          act_at n4 i refl (move_to_here n3.system.pc i i _ refl)
            (leave (unlock_held collected free)) tt in
        (
          n5,
          then_step (then_step (then_step (then_step (then_step l s1) s2) s3) s4) s5,
          refl,
          (λ j ne.
              move_to_other n4.system.pc i j _ ne
              ∙ move_to_other n3.system.pc i j _ ne
              ∙ move_to_other n2.system.pc i j _ ne
              ∙ move_to_other n1.system.pc i j _ ne
              ∙ move_to_other n.system.pc i j _ ne),
          refl,
        )
