-- ===== src/TaskSender/Commands.antt =====
-- task_sender/cmd/main.go: the tables of flags, the three commands, and `main`.
pub mod Determined
pub mod Ends
use beluuga.Prelude.{ℕ, true, false, String, List, [], ◌∷◌}
use beluuga.Prelude.Int.{ℤ, pos}
use beluuga.Go.Outcome.{Outcome}
use beluuga.Go.Script.{Script}
use beluuga.Config.Programs.{Sources}
use beluuga.Config.CommandLine.{config_file_flag}
use beluuga.Chain.Client.{EthClient}
use beluuga.Chain.Connect.{Sdk}
use beluuga.Cli.{Flag, Command, Cli, string_flag, path_flag, int_flag, uint_flag, run_commands}
use beluuga.TaskSender.Upload.{Flags, Cloud}
use beluuga.TaskSender.Rounds.{task_sender_main, task_sender_loop_main, task_sender_infinite_main}

abbrev pub proving_system_flag : Flag
proving_system_flag = record {
  name = "proving-system";
  aliases = "s" ∷ [];
  kind = string_flag;
  required = true;
  env_vars = [];
}

abbrev pub proof_flag : Flag
proof_flag = record {
  name = "proof";
  aliases = "p" ∷ [];
  kind = path_flag;
  required = true;
  env_vars = [];
}

abbrev pub public_input_flag : Flag
public_input_flag = record {
  name = "public-input";
  aliases = "i" ∷ [];
  kind = path_flag;
  required = true;
  env_vars = [];
}

abbrev pub verification_key_flag : Flag
verification_key_flag = record {
  name = "verification-key";
  aliases = "v" ∷ [];
  kind = path_flag;
  required = false;
  env_vars = [];
}

abbrev pub interval_flag : Flag
interval_flag = record {
  name = "interval";
  aliases = "t" ∷ [];
  kind = int_flag (pos 1);
  required = false;
  env_vars = [];
}

abbrev pub fee_flag : Flag
fee_flag = record {
  name = "fee";
  aliases = [];
  kind = int_flag (pos 1);
  required = false;
  env_vars = [];
}

abbrev pub quorum_threshold_flag : Flag
quorum_threshold_flag = record {
  name = "quorum-threshold";
  aliases = "q" ∷ [];
  kind = uint_flag 100;
  required = false;
  env_vars = [];
}

unfoldable pub send_task_flags : List Flag
send_task_flags =
    proving_system_flag ∷ proof_flag ∷ public_input_flag ∷ verification_key_flag ∷ config_file_flag
    ∷ fee_flag ∷ quorum_threshold_flag ∷ []

unfoldable pub loop_tasks_flags : List Flag
loop_tasks_flags =
    proving_system_flag ∷ proof_flag ∷ public_input_flag ∷ verification_key_flag ∷ config_file_flag
    ∷ interval_flag ∷ fee_flag ∷ quorum_threshold_flag ∷ []

unfoldable pub infinite_tasks_flags : List Flag
infinite_tasks_flags =
    proving_system_flag ∷ config_file_flag ∷ interval_flag ∷ fee_flag ∷ quorum_threshold_flag ∷ []

module _ (from : Sources) (sdk : Sdk from.services from.keys) (eth : EthClient)
    (cloud : Cloud eth.World) (sleep : ℤ → eth.World → eth.World)
    (generate_ineq_proof : ℕ → eth.World → Outcome eth.World) (cli : Cli) where
  abbrev pub Action : Type 0
  Action = cli.Context → Script eth.World (Unit {0})

  -- What `getAndUploadProofData` reads of the context.
  abbrev pub flags_of : cli.Context → Flags
  flags_of c = record {
    proving_system = cli.string proving_system_flag.name c;
    proof = cli.string proof_flag.name c;
    public_input = cli.string public_input_flag.name c;
    verification_key = cli.string verification_key_flag.name c;
  }

  abbrev pub config_path : cli.Context → String
  config_path c = cli.string config_file_flag.name c

  unfoldable pub send_task_action : Action
  send_task_action c =
      task_sender_main from sdk eth cloud sleep generate_ineq_proof (config_path c) (flags_of c) 0

  -- So many rounds of the loops.
  module _ (n : ℕ) where
    unfoldable pub loop_tasks_action : Action
    loop_tasks_action c =
        task_sender_loop_main from sdk eth cloud sleep generate_ineq_proof (config_path c)
          (flags_of c) (cli.int interval_flag.name c) n

    unfoldable pub infinite_tasks_action : Action
    infinite_tasks_action c =
        task_sender_infinite_main from sdk eth cloud sleep generate_ineq_proof (config_path c)
          (flags_of c) (cli.int interval_flag.name c) n

    unfoldable pub commands : List (Command cli.Context (Script eth.World (Unit {0})))
    unfolding send_task_flags loop_tasks_flags infinite_tasks_flags send_task_action
        loop_tasks_action infinite_tasks_action
    commands =
        record { name = "send-task"; flags = send_task_flags; action = send_task_action }
        ∷ record { name = "loop-tasks"; flags = loop_tasks_flags; action = loop_tasks_action }
        ∷ record {
          name = "infinite-tasks";
          flags = infinite_tasks_flags;
          action = infinite_tasks_action;
        }
        ∷ []

    -- The process, of the task sender.
    unfoldable pub main : List String → eth.World → Outcome eth.World
    unfolding commands
    main args w = run_commands cli commands args w
