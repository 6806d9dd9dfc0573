-- ===== src/Examples/Watching.antt =====
-- A subscription that delivers one event and ends at a log that it cannot unpack, and an operator that
-- subscribes again and answers the event.
use mathlib.Core.List.{reverse}
use beluuga.Prelude.Int.{pos}
use beluuga.Operator.Download.{get_batch_from_s3}
use beluuga.Operator.Verify.{verify, verify_sp1_proof}
use beluuga.Operator.Process.{process_new_batch_log}
use beluuga.Operator.Run.{Event, new_batch, subscription_failed}
use beluuga.Operator.Run
use beluuga.Operator.Run.Signed.{All}
use beluuga.Operator.Run.Heard.{seen, Heard, AnswersLog, sent-AnswersLog}
use beluuga.Examples.Batches.{libs, http, idle, subs, sign, reverse-Reorders}
use beluuga.Prelude.{ℕ, List, Memᴰ, some, [], ◌∷◌, ◌==◌, refl, if◌then◌else◌}
use beluuga.Prelude.Keys.{nat_eq}
use beluuga.Errors.{ok, err, library, shutdown}
use beluuga.Chain.Watch.{
  Bound, NewBatchEvent, Feed, ended, opened, parse_new_batch, Reach, start, later, arrive, take,
  deliver, refuse,
}
use beluuga.Chain.Watch.Delivered.{Delivers, Reach-Delivers}

-- A log is a number; 0 is none of a batch.
abbrev pub numbers : Bound
numbers = record {
  World = ℕ;
  Log = ℕ;
  watch_logs = λ event roots w. (w, ok tt);
  unpack_log = λ event log.
      if log == 0
      then err (library "no batch")
      else ok (record {
        batch_merkle_root = log ∷ [];
        task_created_block = 50;
        batch_data_pointer = "https://batches";
      });
}

abbrev pub event : NewBatchEvent ℕ
event = record {
  batch_merkle_root = 8 ∷ [];
  task_created_block = 50;
  batch_data_pointer = "https://batches";
  raw = 8;
}

abbrev pub broken : Feed ℕ
broken = record {
  place = ended (some (library "no batch"));
  logs = 9 ∷ [];
  sink = event ∷ [];
  history = 8 ∷ 0 ∷ 9 ∷ [];
}

broken-Reach : Reach numbers broken
unfolding parse_new_batch
broken-Reach =
    later
      (later
        (later (later (later (later start (arrive 8)) (arrive 0)) (take refl refl refl))
          (deliver {e = event} refl))
        (arrive 9))
      (refuse refl refl refl)

Reach-Delivers_example : Delivers numbers broken
Reach-Delivers_example = Reach-Delivers numbers broken-Reach

abbrev events : List Event
events = subscription_failed shutdown ∷ new_batch (seen event) ∷ []

event-Heard : Heard numbers (opened numbers ∷ broken ∷ []) events
event-Heard log (Memᴰ.head e) = absurd cc
event-Heard log (Memᴰ.tail (Memᴰ.head e)) =
    (broken, Memᴰ.tail (Memᴰ.head refl), event, Memᴰ.head refl, cc)
event-Heard log (Memᴰ.tail (Memᴰ.tail m)) = elim m [ ]

pub both_reached : (f : Feed ℕ) → Memᴰ f (opened numbers ∷ broken ∷ []) → Reach numbers f
both_reached f (Memᴰ.head e) = rw e start
both_reached f (Memᴰ.tail (Memᴰ.head e)) = rw e broken-Reach
both_reached f (Memᴰ.tail (Memᴰ.tail m)) = elim m [ ]

sent-AnswersLog_example :
    All
      (AnswersLog numbers libs http (pos 10) reverse sign (1 ∷ []) (opened numbers ∷ broken ∷ []))
      (record { batch_merkle_root = 8 ∷ []; bls_signature = 8 ∷ []; operator_id = 1 ∷ [] } ∷ [])
unfolding Run.start verify process_new_batch_log get_batch_from_s3 verify_sp1_proof
sent-AnswersLog_example =
    sent-AnswersLog numbers libs http (pos 10) reverse sign (1 ∷ []) subs
      (opened numbers ∷ broken ∷ []) events idle 0 reverse-Reorders both_reached event-Heard refl
