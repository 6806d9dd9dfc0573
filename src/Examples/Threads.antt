-- ===== src/Examples/Threads.antt =====
-- A running aggregator: one batch arrives, an operator answers it, and the aggregator answers on chain.
use beluuga.Prelude.{ℕ, ◌≡◌, true, false, some, [], ◌∷◌, refl, ap, arith, sym, ◌∙◌, Memᴰ}
use beluuga.Prelude.Keys.{nat_eq, bytes_eq}
use beluuga.Go.Map
use beluuga.Go.Map.{get-put_self}
use beluuga.Go.Mutex.{move_to}
use beluuga.Go.Outcome.{returned}
use beluuga.Types.{SignedTaskResponse}
use beluuga.Aggregator.State.{
  Aggregator, new_aggregator, lock, unlock, add_locked, add_new_task-add_locked,
}
use beluuga.Aggregator.Registry.{Represents, index_of}
use beluuga.Aggregator.AddTask.{add_new_task-fresh, Represents-new_aggregator}
use beluuga.Aggregator.Subscribe.{NewBatch}
use beluuga.Aggregator.Subscribe.History.{enroll_batches}
use beluuga.Aggregator.Respond.{Sending, root_or_zero, merkle_root, handle_bls_agg_service_response}
use beluuga.Aggregator.Threads.{
  listening, adding, registering, asking, looking, handing, replied, answering, reading, sending,
  handled, paying, System, Reach, Move, start, later, pick, at_start, arrive, add_lock, add, call,
  look, find, service_answers, read_lock, read, wallet_lock,
}
use beluuga.Aggregator.Threads.Safety.{Reach-in_task, Reach-listening, Reach-call_of}
use beluuga.Aggregator.Threads.Progress.{Alone}
use beluuga.Aggregator.Threads.Ends.{Ends, Reach-Ends}
use beluuga.Aggregator.Threads.Calls.{idle, process-Alone}
use beluuga.Aggregator.Server.{Reply, process_operator_signed_task_response}
use beluuga.Aggregator.Threads.Undisturbed.{handle-Alone}
use beluuga.Aggregator.Threads.Heard.{Heard, Logged, paying-Logged}
use beluuga.Chain.Watch.{opened}
use beluuga.Examples.Watching.{numbers, event, broken, both_reached}
use beluuga.Examples.Tasks.{counting, strict, strict-TaskLaws, strict-NoTasks, one_root}
use beluuga.Examples.Answers.{good, resp, as_number}

abbrev pub batch : NewBatch
batch = record { batch_merkle_root = 8 ∷ []; task_created_block = 50 }

abbrev Running : Type 0
Running = System counting good {F = ℕ} as_number

abbrev Reached : Running → Type 0
Reached = Reach counting good as_number

abbrev pub still : Sending ℕ
still = record { world = 0; aggregated_responses = 0 }

abbrev pub answer : SignedTaskResponse ℕ
answer = record { batch_merkle_root = 8 ∷ []; bls_signature = 7; operator_id = 3 ∷ [] }

pub batch_added :
    add_locked counting (8 ∷ []) 50 (record (new_aggregator 0) { task_mutex = true })
    ≡ returned one_root
unfolding new_aggregator index_of
batch_added =
    sym (
      add_new_task-add_locked counting (8 ∷ []) 50 (record (new_aggregator 0) { task_mutex = true })
        refl)
    ∙ add_new_task-fresh counting (8 ∷ []) 50 (Represents-new_aggregator 0) refl refl (omega arith)

pub root_known : Map.get one_root.batches_idx_by_root (8 ∷ []) ≡ some 0
root_known = get-put_self Map.make (8 ∷ []) 0

pub index_known : Map.get one_root.batches_root_by_idx 0 ≡ some (8 ∷ [])
index_known = get-put_self Map.make 0 (8 ∷ [])

-- The subscriber has registered the batch and waits for the next.
abbrev registered : Running
registered = record {
  shared = record { agg = one_root; wallet_mutex = false; out = still; history = batch ∷ [] };
  pc =
      move_to
        (move_to (move_to (at_start counting good as_number) 0 (adding batch)) 0
          (registering batch))
        0 listening;
}

registered-Reached : Reached registered
unfolding move_to lock new_aggregator
registered-Reached =
    later (later (later (start 0 still) (pick 0 (arrive batch))) (pick 0 (add_lock refl)))
      (pick 0 (add batch_added))

-- Goroutine 1 hands an operator's signature to the service and holds the task mutex.
abbrev handed : Running
handed = record {
  shared = record registered.shared { agg = record one_root { task_mutex = true } };
  pc =
      move_to (move_to (move_to registered.pc 1 (asking 50 answer)) 1 (looking 49 answer)) 1
        (handing 0 answer);
}

handed-Reached : Reached handed
unfolding move_to lock
handed-Reached =
    later (later (later registered-Reached (pick 1 (call answer))) (pick 1 (look refl)))
      (pick 1 (find root_known))

-- Goroutine 2 answers the task on chain and holds the wallet.
abbrev paid : Running
paid = record {
  shared = record registered.shared { wallet_mutex = true };
  pc =
      move_to
        (move_to (move_to (move_to registered.pc 2 (answering resp)) 2 (reading resp)) 2
          (sending 5 (8 ∷ []) resp))
        2 (paying 4 (8 ∷ []) resp);
}

pub registered_root : merkle_root one_root 0 ≡ 8 ∷ []
unfolding merkle_root
registered_root = ap root_or_zero index_known

read_root :
    Move counting good as_number
      (record registered.shared { agg = record one_root { task_mutex = true } })
      (reading resp)
      registered.shared
      (sending 5 (8 ∷ []) resp)
unfolding unlock merkle_root
read_root =
    let mv : Move counting good as_number
        (record registered.shared { agg = record one_root { task_mutex = true } }) (reading resp)
        registered.shared (sending 5 (merkle_root one_root 0) resp) =
      read {resp = resp} refl in
    rw registered_root at mv

paid-Reached : Reached paid
unfolding move_to lock
paid-Reached =
    later
      (later
        (later (later registered-Reached (pick 2 (service_answers {resp = resp} index_known)))
          (pick 2 (read_lock refl refl)))
        (pick 2 read_root))
      (pick 2 (wallet_lock refl))

Reach-in_task_example : (◌≡◌ {A = ℕ} 1 1) × (unlock handed.shared.agg ≡ returned one_root)
unfolding move_to
Reach-in_task_example = Reach-in_task handed-Reached 1 1 refl refl

Reach-listening_example : Represents one_root (enroll_batches (batch ∷ []) [])
unfolding move_to
Reach-listening_example = Reach-listening registered-Reached refl

Reach-call_of_example : Map.get one_root.batches_root_by_idx 0 ≡ some (8 ∷ [])
unfolding move_to
Reach-call_of_example =
    Reach-call_of handed-Reached 1 (record { task_index = 0; response = answer }) refl

batch-Heard : Heard numbers (opened numbers ∷ broken ∷ []) (batch ∷ [])
batch-Heard b (Memᴰ.head e) = (broken, Memᴰ.tail (Memᴰ.head refl), event, Memᴰ.head refl, sym e)
batch-Heard b (Memᴰ.tail m) = elim m [ ]

paying-Logged_example :
    (Map.get one_root.batches_root_by_idx 0 ≡ some (8 ∷ []))
    × Logged numbers (opened numbers ∷ broken ∷ []) (8 ∷ [])
unfolding move_to
paying-Logged_example =
    paying-Logged numbers (opened numbers ∷ broken ∷ []) both_reached paid-Reached batch-Heard 2 4
      (8 ∷ []) resp refl

-- The subscriber registers the batch with a service that refuses an index it has a task for.
abbrev about_to_add : System strict good {F = ℕ} as_number
about_to_add = record {
  shared = record {
    agg = record (new_aggregator []) { task_mutex = true };
    wallet_mutex = false;
    out = still;
    history = batch ∷ [];
  };
  pc = move_to (move_to (at_start strict good as_number) 0 (adding batch)) 0 (registering batch);
}

about_to_add-Reached : Reach strict good as_number about_to_add
unfolding move_to lock new_aggregator
about_to_add-Reached =
    later (later (start [] still) (pick 0 (arrive batch))) (pick 0 (add_lock refl))

Reach-Ends_example : Ends strict good as_number about_to_add 0
unfolding move_to about_to_add-Reached
Reach-Ends_example = Reach-Ends about_to_add-Reached strict-TaskLaws strict-NoTasks 0 refl

handle-Alone_example :
    let (out', h) = handle_bls_agg_service_response good as_number one_root resp still in
    (k : ℕ) × Alone counting good as_number k registered.shared
      (answering resp)
      (record registered.shared { out = out' })
      (handled h)
handle-Alone_example = handle-Alone counting good as_number registered.shared resp refl

process-Alone_example :
    (agg' : Aggregator ℕ) × (reply : Reply ℕ) × (process_operator_signed_task_response counting
        (idle counting good as_number)
        true
        answer
        one_root
      ≡ returned (agg', reply))
    × (k : ℕ) × Alone counting good as_number k registered.shared
        (asking 50 answer)
        (record registered.shared { agg = agg' })
        (replied reply)
process-Alone_example = process-Alone counting good as_number registered.shared answer true refl
