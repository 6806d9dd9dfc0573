-- ===== src/Examples/Network.antt =====
-- One batch on its way: announced, verified and signed by an operator, aggregated, and answered.
use beluuga.Prelude.{
  ℕ, ◌≡◌, ◌⊎◌, inl, arith, true, false, none, some, List, [], ◌∷◌, refl, sym, ap, Memᴰ,
}
use beluuga.Prelude.Int.{pos}
use beluuga.Prelude.Keys.{nat_eq, bytes_eq}
use beluuga.Go.Mutex.{move_to}
use beluuga.Types.{Bytes32}
use beluuga.Go.Outcome.{returned}
use beluuga.Operator.Verify.{verify, verify_sp1_proof}
use beluuga.Operator.Download.{get_batch_from_s3}
use beluuga.Operator.Process.{process_new_batch_log}
use beluuga.Operator.Run.{Event, new_batch}
use beluuga.Operator.Run
use beluuga.Aggregator.State.{Aggregator, new_aggregator, lock, unlock}
use beluuga.Aggregator.Server.{SignatureCall, hand_over}
use beluuga.Aggregator.Respond.{merkle_root, root_or_zero}
use beluuga.Aggregator.Threads.{
  listening, adding, registering, asking, looking, handing, leaving, replied, answering, reading,
  sending, paying, handled, at_start, arrive, add_lock, add, call, look, find, hand, leave,
  service_answers, read_lock, read, wallet_lock,
}
use beluuga.Network.{
  BatchEvent, for_operator, Node, Setting, Genuine, HasSigned, Network, Step, announce, send, act,
  Reach, start, later, run_node,
}
use beluuga.Network.Honest.{IsVerified}
use beluuga.Network.Verified.{paying-IsVerified}
use beluuga.Network.Runs.{Later}
use beluuga.Network.Answered.{verified_batch-responded}
use beluuga.Retry.{world_after}
use beluuga.Chain.Receipt.{wait_for_transaction_receipt}
use beluuga.Chain.Writer
use beluuga.Aggregator.Respond.{responded, send_aggregated_response, inc_aggregated_responses}
use beluuga.Examples.Answers.{good, resp, as_number}
use beluuga.Examples.Batches.{libs, sp1_data, http, subs, idle, reverse-Reorders}
use beluuga.Examples.Tasks.{counting, one_root}
use beluuga.Examples.Threads.{batch, still, answer, batch_added, root_known, index_known}
use mathlib.Core.List.{reverse}

abbrev event : BatchEvent
event = record {
  batch_merkle_root = 8 ∷ [];
  task_created_block = 50;
  batch_data_pointer = "https://batches";
}

abbrev signer : Node ℕ
signer = record {
  libs = libs;
  http = http;
  subs = subs;
  max_batch_size = pos 10;
  order = reverse;
  order-Reorders = reverse-Reorders;
  sign_message = λ root. 7;
}

-- Operator 3 is honest and a quorum; its signatures are the number 7.
abbrev net : Setting ℕ
net = record {
  Honest = λ id. id ≡ 3 ∷ [];
  Valid = λ id root signature. signature ≡ 7;
  Quorum = λ ids. ids ≡ (3 ∷ []) ∷ [];
  node = λ id. signer;
}

quorum_honest : (ids : List Bytes32) → net.Quorum ids → (id : Bytes32) × Memᴰ id ids × net.Honest id
quorum_honest ids e = (3 ∷ [], rw e (Memᴰ.head refl), refl)

abbrev heard : List Event
heard = new_batch (for_operator event) ∷ []

run_signs :
    run_node net (3 ∷ []) heard idle 0
    ≡ returned (record {
      state = record { world = 4; operator_task_responses = 1 };
      chain = 1;
      sub = some 0;
      sent = answer ∷ [];
    })
unfolding Run.start verify process_new_batch_log get_batch_from_s3 verify_sp1_proof
run_signs = refl

answer-Genuine : Genuine net (answer ∷ []) answer
answer-Genuine honest valid = record {
  response = answer;
  is_sent = Memᴰ.head refl;
  has_id = refl;
  has_root = refl;
}

abbrev handed : List (SignatureCall ℕ)
handed = record { task_index = 0; response = answer } ∷ []

answer-HasSigned : (id : Bytes32) → Memᴰ id ((3 ∷ []) ∷ []) → HasSigned net handed 0 id
answer-HasSigned id (Memᴰ.head e) = record {
  call = record { task_index = 0; response = answer };
  is_handed = Memᴰ.head refl;
  has_index = refl;
  has_id = sym e;
  valid = refl;
}
answer-HasSigned id (Memᴰ.tail m) = elim m [ ]

abbrev Reached : Network counting good as_number net → Type 0
Reached = Reach counting good as_number net

-- The signature is made, and the subscriber has registered the batch.
abbrev opened : Network counting good as_number net
opened = record {
  system = record {
    shared = record { agg = one_root; wallet_mutex = false; out = still; history = batch ∷ [] };
    pc =
        move_to
          (move_to (move_to (at_start counting good as_number) 0 (adding batch)) 0
            (registering batch))
          0 listening;
  };
  announced = event ∷ [];
  sent = answer ∷ [];
  handed = [];
}

opened-Reached : Reached opened
unfolding move_to lock new_aggregator
opened-Reached =
    later
      (later
        (later
          (later (later (start 0 still) (announce event)) (
            send (3 ∷ []) heard idle 0 refl ((event, Memᴰ.head refl, refl), tt) run_signs
              (Memᴰ.head refl)))
          (act 0 (arrive batch) tt))
        (act 0 (add_lock refl) tt))
      (act 0 (add batch_added) tt)

-- Goroutine 1 has handed the signature over.
abbrev collected : Aggregator ℕ
collected = record one_root { bls_aggregation_service = 11 }

abbrev counted : Network counting good as_number net
counted = record opened {
  system = record {
    shared = record opened.system.shared { agg = collected };
    pc =
        move_to
          (move_to
            (move_to (move_to (move_to opened.system.pc 1 (asking 50 answer)) 1 (looking 49 answer))
              1 (handing 0 answer))
            1 (leaving (record { reply = 0; running = none })))
          1 (replied (record { reply = 0; running = none }));
  };
  handed = handed;
}

counted-Reached : Reached counted
unfolding move_to lock unlock hand_over
counted-Reached =
    later
      (later
        (later
          (later (later opened-Reached (act 1 (call answer) answer-Genuine)) (act 1 (look refl) tt))
          (act 1 (find root_known) tt))
        (act 1 (hand true) tt))
      (act 1 (leave refl) tt)

collected_root : merkle_root collected 0 ≡ 8 ∷ []
unfolding merkle_root
collected_root = ap root_or_zero index_known

-- Goroutine 2 answers the task: behind the lock of the maps, and behind the read of a root.
abbrev looked_up : Network counting good as_number net
looked_up = record counted {
  system = record {
    shared = record counted.system.shared { agg = record collected { task_mutex = true } };
    pc = move_to (move_to counted.system.pc 2 (answering resp)) 2 (reading resp);
  };
}

abbrev sends : Bytes32 → Network counting good as_number net
sends root = record looked_up {
  system = record {
    shared = counted.system.shared;
    pc = move_to looked_up.system.pc 2 (sending 5 root resp);
  };
}

reads_root : Step counting good as_number net looked_up (sends (8 ∷ []))
unfolding move_to unlock merkle_root
reads_root =
    let reads : Step counting good as_number net looked_up (sends (merkle_root collected 0)) =
      act 2 (read {resp = resp} refl) tt in
    rw collected_root at reads

-- Goroutine 2 is about to send the root.
abbrev paid : Network counting good as_number net
paid = record counted {
  system = record {
    shared = record counted.system.shared { wallet_mutex = true };
    pc = move_to (sends (8 ∷ [])).system.pc 2 (paying 4 (8 ∷ []) resp);
  };
}

paid-Reached : Reached paid
unfolding move_to lock
paid-Reached =
    later
      (later
        (later
          (later counted-Reached (
            act 2 (service_answers {resp = resp} index_known)
              (λ e. ((3 ∷ []) ∷ [], refl, answer-HasSigned))))
          (act 2 (read_lock refl refl) tt))
        reads_root)
      (act 2 (wallet_lock refl) tt)

paying-IsVerified_example : (id : Bytes32) × (id ≡ 3 ∷ []) × IsVerified net (event ∷ []) id (8 ∷ [])
unfolding move_to
paying-IsVerified_example = paying-IsVerified net quorum_honest paid-Reached 2 4 (8 ∷ []) resp refl

only_signer : (id : Bytes32) → Memᴰ id ((3 ∷ []) ∷ []) → (3 ∷ [] ≡ id) ⊎ HasSigned net [] 0 id
only_signer id (Memᴰ.head e) = inl (sym e)
only_signer id (Memᴰ.tail m) = elim m [ ]

verified_batch-responded_example :
    (n : Network counting good as_number net) × Later net opened n
    × Memᴰ (record { task_index = 0; response = answer }) n.handed
    × (n.system.pc 2 ≡ handled (responded (8 ∷ [])))
unfolding move_to verify verify_sp1_proof get_batch_from_s3 world_after send_aggregated_response
    inc_aggregated_responses Writer.send_aggregated_response wait_for_transaction_receipt
verified_batch-responded_example =
    verified_batch-responded net 1 2 (3 ∷ []) event idle 0 0 (sp1_data ∷ []) 4 0 ((3 ∷ []) ∷ [])
      resp 0 (8 ∷ []) opened-Reached (λ e. absurd (omega arith)) refl refl refl refl refl
      (Memᴰ.head refl) refl refl (refl, tt) refl root_known refl only_signer refl refl (omega arith)
      (λ j lt. absurd (omega arith)) refl
