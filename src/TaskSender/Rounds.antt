-- ===== src/TaskSender/Rounds.antt =====
-- `taskSenderMain` and the two loops of task_sender/cmd/main.go, with `SendTask` of
-- task_sender/pkg/task_sender.go. The loops have no end of their own: a number of rounds bounds them,
-- and `ok tt` says that they are still running behind it.
pub mod Stops
use beluuga.Prelude.{ℕ, zero, suc, ◌*◌, ◌-◌, ◌%◌, Bool, String, ltb, if◌then◌else◌}
use beluuga.Prelude.Int.{ℤ, pos, negsuc, pos_part, ltb_ℤ}
use beluuga.Errors.{Error, Result, ok, err, interval_not_positive}
use beluuga.Types.{Bytes32}
use beluuga.Go.Outcome.{Outcome, returned, panicked, exited, blocked}
use beluuga.Config.Programs.{Sources, TaskSenderConfig, new_task_sender_config}
use beluuga.Chain.Client.{EthClient}
use beluuga.Chain.Connect.{Sdk, new_avs_writer_from_config}
use beluuga.Chain.Writer.{send_task}
use beluuga.Go.Script.{Script, ◌>>=◌, ◌>>◌, give, call}
use beluuga.TaskSender.Upload.{Flags, Cloud, get_and_upload_proof_data}

pub record Task : Type 0 where
  pub batch_merkle_root : Bytes32
  pub batch_data_pointer : String

unfoldable pub new_task : Bytes32 → String → Task
new_task root pointer = record { batch_merkle_root = root; batch_data_pointer = pointer }

-- `time.Duration(interval) * time.Second` on `int64`, of an interval that is not negative.
abbrev pub seconds : ℕ → ℤ
seconds n =
    let low = n * 1000000000 % 18446744073709551616 in
    if ltb low 9223372036854775808 then pos low else negsuc (18446744073709551615 - low)

abbrev pub exit_or : {W A : Type 0} → Outcome (Result A) → Script W A
exit_or (returned r) w = returned (w, r)
exit_or panicked w = panicked
exit_or exited w = exited
exit_or blocked w = blocked

module _ {W : Type 0} (round : ℕ → Script W (Unit {0})) where
  -- So many rounds, numbered from `x`; an error ends the loop.
  unfoldable pub rounds : ℕ → ℕ → Script W (Unit {0})
  rounds zero x = give (ok tt)
  rounds (suc n) x = round x >> rounds n (suc x)

module _ (from : Sources) (sdk : Sdk from.services from.keys) (eth : EthClient)
    (cloud : Cloud eth.World) (sleep : ℤ → eth.World → eth.World)
    (generate_ineq_proof : ℕ → eth.World → Outcome eth.World) where
  abbrev pub W : Type 0
  W = eth.World

  abbrev pub forget : {A : Type 0} → Result A → Result (Unit {0})
  forget (ok a) = ok tt
  forget (err e) = err e

  -- The config and the connection of the writer.
  abbrev pub connection : TaskSenderConfig from → Result (Unit {0})
  connection config = forget (
      new_avs_writer_from_config from.services from.keys sdk config.base_config config.ecdsa_config)

  abbrev pub after_config : Outcome (TaskSenderConfig from) → Outcome (Result (Unit {0}))
  after_config (returned config) = returned (connection config)
  after_config panicked = panicked
  after_config exited = exited
  after_config blocked = blocked

  -- `SendTask` of the task sender.
  unfoldable pub task_sender_send_task : Task → Script W (Unit {0})
  task_sender_send_task task = call (send_task eth task.batch_merkle_root task.batch_data_pointer)

  unfoldable pub task_sender_main : String → Flags → ℕ → Script W (Unit {0})
  unfolding new_task task_sender_send_task
  task_sender_main config_path flags x = do
    exit_or (after_config (new_task_sender_config from config_path))
    data' ← get_and_upload_proof_data cloud flags x
    task_sender_send_task (new_task data'.0 data'.1)

  unfoldable pub pause : ℤ → Script W (Unit {0})
  pause interval w = returned (sleep (seconds (pos_part interval)) w, ok tt)

  -- One round of `taskSenderLoopMain`, whose round has no number.
  pub loop_round : String → Flags → ℤ → ℕ → Script W (Unit {0})
  unfolding pause
  loop_round config_path flags interval x = task_sender_main config_path flags 0 >> pause interval

  unfoldable pub generate : ℕ → Script W (Unit {0})
  generate x w = elim (generate_ineq_proof x w) [
    | returned w' ↦ returned (w', ok tt)
    | panicked ↦ panicked
    | exited ↦ exited
    | blocked ↦ blocked
  ]

  -- One round of `taskSenderInfiniteMain`: the proof is generated, and sent.
  unfoldable pub infinite_round : String → Flags → ℤ → ℕ → Script W (Unit {0})
  unfolding generate pause
  infinite_round config_path flags interval x = do
    generate x
    task_sender_main config_path flags x
    pause interval

  abbrev guarded : ℤ → Script W (Unit {0}) → Script W (Unit {0})
  guarded interval script =
      if ltb_ℤ interval (pos 1) then give (err interval_not_positive) else script

  unfoldable pub task_sender_loop_main : String → Flags → ℤ → ℕ → Script W (Unit {0})
  unfolding loop_round rounds
  task_sender_loop_main config_path flags interval n =
      guarded interval (rounds (loop_round config_path flags interval) n 1)

  unfoldable pub task_sender_infinite_main : String → Flags → ℤ → ℕ → Script W (Unit {0})
  unfolding infinite_round rounds
  task_sender_infinite_main config_path flags interval n =
      guarded interval (rounds (infinite_round config_path flags interval) n 1)
