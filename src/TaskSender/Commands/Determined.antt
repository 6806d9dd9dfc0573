-- ===== src/TaskSender/Commands/Determined.antt =====
-- What a command line decides of a run of the task sender.
use mathlib.Core.Path.{fun_ext, ap₂}
use beluuga.Prelude.{
  ℕ, zero, suc, ◌==◌, ◌||◌, Bool, false, String, List, [], ◌∷◌, ◌≡◌, refl, Memᴰ, append_left,
  mem_at, arith,
}
use beluuga.Prelude.Int.{ℤ}
use beluuga.Prelude.Keys.{nat_eq, string_eq}
use beluuga.Go.Outcome.{Outcome}
use beluuga.Go.Script.{Script, ◌>>◌}
use beluuga.Config.Programs.{Sources}
use beluuga.Config.CommandLine.{config_file_flag}
use beluuga.Chain.Client.{EthClient}
use beluuga.Chain.Connect.{Sdk}
use beluuga.Cli.{Flag, Command, Cli, AgreeOn}
use beluuga.TaskSender.Upload.{Flags, Cloud, get_and_upload_proof_data}
use beluuga.TaskSender.Rounds.{rounds, infinite_round, task_sender_main, task_sender_infinite_main}
use beluuga.TaskSender.Commands.{
  proving_system_flag, proof_flag, public_input_flag, verification_key_flag, interval_flag,
  send_task_flags, loop_tasks_flags, infinite_tasks_flags, flags_of, send_task_action,
  loop_tasks_action, infinite_tasks_action, commands,
}

suc-eq-zero : (k : ℕ) → (suc k == 0) ≡ false
suc-eq-zero k = ground arith

module _ {W : Type 0} where
  -- Loops whose rounds are the same from round 1 on.
  rounds_same :
      (round round' : ℕ → Script W (Unit {0}))
      → ((k : ℕ) → round (suc k) ≡ round' (suc k))
      → (n k : ℕ) → rounds round n (suc k) ≡ rounds round' n (suc k)
  unfolding rounds
  rounds_same round round' same zero k = refl
  rounds_same round round' same (suc n) k =
      ap₂ (λ r rest. r >> rest) (same k) (rounds_same round round' same n (suc k))

  -- From round 1 on the files are those of the generator.
  upload_same :
      (cloud : Cloud W) (flags flags' : Flags) (k : ℕ)
      → flags.proving_system ≡ flags'.proving_system
      → get_and_upload_proof_data cloud flags (suc k)
        ≡ get_and_upload_proof_data cloud flags' (suc k)
  unfolding get_and_upload_proof_data
  upload_same cloud flags flags' k same = fun_ext (λ w. rw (suc-eq-zero k, same) refl)

module _ (from : Sources) (sdk : Sdk from.services from.keys) (eth : EthClient)
    (cloud : Cloud eth.World) (sleep : ℤ → eth.World → eth.World)
    (generate_ineq_proof : ℕ → eth.World → Outcome eth.World) where
  sender_same :
      (path : String) (flags flags' : Flags) (k : ℕ)
      → flags.proving_system ≡ flags'.proving_system
      → task_sender_main from sdk eth cloud sleep generate_ineq_proof path flags (suc k)
        ≡ task_sender_main from sdk eth cloud sleep generate_ineq_proof path flags' (suc k)
  unfolding task_sender_main
  sender_same path flags flags' k same = rw (upload_same cloud flags flags' k same) refl

  infinite_round_same :
      (path : String) (flags flags' : Flags) (interval : ℤ) (k : ℕ)
      → flags.proving_system ≡ flags'.proving_system
      → infinite_round from sdk eth cloud sleep generate_ineq_proof path flags interval (suc k)
        ≡ infinite_round from sdk eth cloud sleep generate_ineq_proof path flags' interval (suc k)
  unfolding infinite_round
  infinite_round_same path flags flags' interval k same =
      rw (sender_same path flags flags' k same) refl

  infinite_same :
      (path : String) (flags flags' : Flags) (interval : ℤ) (n : ℕ)
      → flags.proving_system ≡ flags'.proving_system
      → task_sender_infinite_main from sdk eth cloud sleep generate_ineq_proof path flags interval n
        ≡ task_sender_infinite_main from sdk eth cloud sleep generate_ineq_proof path flags'
            interval n
  unfolding task_sender_infinite_main
  infinite_same path flags flags' interval n same =
      rw
        (rounds_same
          (infinite_round from sdk eth cloud sleep generate_ineq_proof path flags interval)
          (infinite_round from sdk eth cloud sleep generate_ineq_proof path flags' interval)
          (λ k. infinite_round_same path flags flags' interval k same) n 0)
        refl

  module _ (cli : Cli) where
    abbrev table : ℕ → List (Command cli.Context (Script eth.World (Unit {0})))
    table n = commands from sdk eth cloud sleep generate_ineq_proof cli n

    -- The flags that no command reads.
    abbrev pub ignored : Flag → Bool
    ignored f = f.name == "fee" || f.name == "quorum-threshold"

    -- The same values for the flags of a table but those.
    abbrev pub AgreeOnRead : List Flag → cli.Context → cli.Context → Type 0
    AgreeOnRead flags ctx ctx' =
        (f : Flag)
        → Memᴰ f flags
        → ignored f ≡ false
        → (cli.string f.name ctx ≡ cli.string f.name ctx')
          × (cli.int f.name ctx ≡ cli.int f.name ctx')

    abbrev proof_flags : List Flag
    proof_flags = proving_system_flag ∷ proof_flag ∷ public_input_flag ∷ verification_key_flag ∷ []

    proof_flags-read : (f : Flag) → Memᴰ f proof_flags → ignored f ≡ false
    proof_flags-read f (Memᴰ.head e) = rw e refl
    proof_flags-read f (Memᴰ.tail (Memᴰ.head e)) = rw e refl
    proof_flags-read f (Memᴰ.tail (Memᴰ.tail (Memᴰ.head e))) = rw e refl
    proof_flags-read f (Memᴰ.tail (Memᴰ.tail (Memᴰ.tail (Memᴰ.head e)))) = rw e refl
    proof_flags-read f (Memᴰ.tail (Memᴰ.tail (Memᴰ.tail (Memᴰ.tail m)))) = elim m [ ]

    flags_same :
        (ctx ctx' : cli.Context)
        → AgreeOn cli proof_flags ctx ctx'
        → flags_of from sdk eth cloud sleep generate_ineq_proof cli ctx
          ≡ flags_of from sdk eth cloud sleep generate_ineq_proof cli ctx'
    flags_same ctx ctx' same = ground (
      arith,
      (same proving_system_flag (Memᴰ.head refl)).0,
      (same proof_flag (Memᴰ.tail (Memᴰ.head refl))).0,
      (same public_input_flag (Memᴰ.tail (Memᴰ.tail (Memᴰ.head refl)))).0,
      (same verification_key_flag (Memᴰ.tail (Memᴰ.tail (Memᴰ.tail (Memᴰ.head refl))))).0,
    )

    send_same :
        (ctx ctx' : cli.Context)
        → AgreeOnRead send_task_flags ctx ctx'
        → send_task_action from sdk eth cloud sleep generate_ineq_proof cli ctx
          ≡ send_task_action from sdk eth cloud sleep generate_ineq_proof cli ctx'
    unfolding send_task_action send_task_flags
    send_same ctx ctx' same =
        ap₂
          (λ path flags. task_sender_main from sdk eth cloud sleep generate_ineq_proof path flags 0)
          (same config_file_flag (mem_at _ 4 refl) refl).0
          (flags_same ctx ctx' (λ f m. same f (append_left _ m) (proof_flags-read f m)))

    loop_same :
        (n : ℕ) (ctx ctx' : cli.Context)
        → AgreeOnRead loop_tasks_flags ctx ctx'
        → loop_tasks_action from sdk eth cloud sleep generate_ineq_proof cli n ctx
          ≡ loop_tasks_action from sdk eth cloud sleep generate_ineq_proof cli n ctx'
    unfolding loop_tasks_action loop_tasks_flags
    loop_same n ctx ctx' same =
        rw
          (
            (same config_file_flag (mem_at _ 4 refl) refl).0,
            (same interval_flag (mem_at _ 5 refl) refl).1,
            flags_same ctx ctx' (λ f m. same f (append_left _ m) (proof_flags-read f m)),
          )
          refl

    infinite_tasks_same :
        (n : ℕ) (ctx ctx' : cli.Context)
        → AgreeOnRead infinite_tasks_flags ctx ctx'
        → infinite_tasks_action from sdk eth cloud sleep generate_ineq_proof cli n ctx
          ≡ infinite_tasks_action from sdk eth cloud sleep generate_ineq_proof cli n ctx'
    unfolding infinite_tasks_action infinite_tasks_flags
    infinite_tasks_same n ctx ctx' same =
        rw
          (
            (same config_file_flag (mem_at _ 1 refl) refl).0,
            (same interval_flag (mem_at _ 2 refl) refl).1,
          )
          (infinite_same _ _ _ _ n (same proving_system_flag (mem_at _ 0 refl) refl).0)

    -- Any two command lines on which the flags of a command but `fee` and `quorum-threshold` have the
    -- same values make the same run of it: no command depends on a flag that its table lacks, and none on
    -- these two.
    pub commands-Determined :
        (n : ℕ) (c : Command cli.Context (Script eth.World (Unit {0}))) (ctx ctx' : cli.Context)
        → Memᴰ c (table n)
        → AgreeOnRead c.flags ctx ctx'
        → c.action ctx ≡ c.action ctx'
    unfolding commands
    commands-Determined n c ctx ctx' (Memᴰ.head e) same =
        let same' = rw e at same in rw e (send_same ctx ctx' same')
    commands-Determined n c ctx ctx' (Memᴰ.tail (Memᴰ.head e)) same =
        let same' = rw e at same in rw e (loop_same n ctx ctx' same')
    commands-Determined n c ctx ctx' (Memᴰ.tail (Memᴰ.tail (Memᴰ.head e))) same =
        let same' = rw e at same in rw e (infinite_tasks_same n ctx ctx' same')
    commands-Determined n c ctx ctx' (Memᴰ.tail (Memᴰ.tail (Memᴰ.tail m))) same = elim m [ ]
