-- ===== src/Examples/CommandLines.antt =====
-- Two programs called with command lines, under a parser that knows one value for each flag.
use mathlib.Core.List.{reverse}
use beluuga.Prelude.{ℕ, ◌+◌, ◌≡◌, ◌≢◌, ◌⊎◌, ◌==◌, ◌||◌, String, [], ◌∷◌, refl, Memᴰ, if◌then◌else◌}
use beluuga.Prelude.Keys.{string_eq, nat_eq}
use beluuga.Errors.{ok, err, library}
use beluuga.Types.{Bytes32}
use beluuga.Go.Outcome.{returned}
use beluuga.Config.Deployment.{
  new_aligned_layer_deployment_config, new_eigen_layer_deployment_config,
}
use beluuga.Config.Keys.{new_ecdsa_config, new_bls_config}
use beluuga.Config.Base.{new_base_config}
use beluuga.Config.Programs.{new_operator_config, new_task_sender_config}
use beluuga.Chain.Connect.{new_avs_writer_from_config, new_avs_service_bindings}
use beluuga.Chain.Writer.{send_task}
use beluuga.Chain.Receipt.{wait_for_transaction_receipt}
use beluuga.Examples.Parser.{Values, given, run_first, pick, cli}
use beluuga.Operator.Commands.{deposit, wallet_of, deposit_into_strategy_main}
use beluuga.Operator.Commands.Table
use beluuga.Operator.Commands.Table.Spends.{Deposited, main-Deposited}
use beluuga.TaskSender.Upload.{Cloud, get_and_upload_proof_data}
use beluuga.TaskSender.Rounds.{task_sender_main}
use beluuga.TaskSender.Commands.{
  send_task_action, infinite_tasks_action, infinite_tasks_flags, commands,
}
use beluuga.TaskSender.Commands.Determined.{AgreeOnRead, commands-Determined}
use beluuga.TaskSender.Commands.Ends.{send_task-Sends}
use beluuga.Examples.Answers.{good}
use beluuga.Examples.Batches.{libs, http, subs, idle}
use beluuga.Examples.Commands.{staking, sign}
use beluuga.Examples.Configs.{from, sdk}
use beluuga.Examples.Setup.{registration}

-- The empty path cannot be read.
abbrev cloud : Cloud ℕ
cloud = record {
  Session = ℕ;
  read_file = λ path w. (w, if path == "" then err (library "not found") else ok (7 ∷ []));
  marshal = λ batch. ok (5 ∷ 6 ∷ []);
  sum256 = λ b. b;
  load_env = λ w. (w, ok tt);
  getenv = λ name w. "set";
  new_session = λ region access secret. ok 1;
  put_object = λ session bucket key content w. (w + 10, ok tt);
}

send_task-Sends_example :
    (◌≢◌ {A = String} "file" "")
    × ((mid : ℕ) × (root : Bytes32) × (pointer : String) × (get_and_upload_proof_data cloud
            (record {
              proving_system = "sp1";
              proof = "file";
              public_input = "file";
              verification_key = "file";
            })
            0
            0
          ≡ returned (mid, ok (root, pointer)))
        × (send_task good root pointer mid ≡ (11, ok tt)))
unfolding send_task_action task_sender_main get_and_upload_proof_data new_task_sender_config
    new_base_config new_aligned_layer_deployment_config new_eigen_layer_deployment_config
    new_ecdsa_config new_avs_writer_from_config new_avs_service_bindings send_task
    wait_for_transaction_receipt
send_task-Sends_example =
    send_task-Sends from sdk good cloud (λ n w. w) (λ x w. returned w) cli given 0
      (λ w. (library "not found", refl)) refl

-- The same command line with another proof and another fee, which `infinite-tasks` does not look at.
abbrev other_proof : Values
other_proof name = if name == "proof" || name == "fee" then "other" else given name

agree :
    AgreeOnRead from sdk good cloud
      (λ n w. w)
      (λ x w. returned w)
      cli
      infinite_tasks_flags
      given
      other_proof
unfolding infinite_tasks_flags
agree f (Memᴰ.head e) read = rw e (refl, refl)
agree f (Memᴰ.tail (Memᴰ.head e)) read = rw e (refl, refl)
agree f (Memᴰ.tail (Memᴰ.tail (Memᴰ.head e))) read = rw e (refl, refl)
agree f (Memᴰ.tail (Memᴰ.tail (Memᴰ.tail (Memᴰ.head e)))) read = absurd (cc (rw e at read))
agree f (Memᴰ.tail (Memᴰ.tail (Memᴰ.tail (Memᴰ.tail (Memᴰ.head e))))) read =
    absurd (cc (rw e at read))
agree f (Memᴰ.tail (Memᴰ.tail (Memᴰ.tail (Memᴰ.tail (Memᴰ.tail m))))) read = elim m [ ]

commands-Determined_example :
    infinite_tasks_action from sdk good cloud (λ n w. w) (λ x w. returned w) cli 3 given
    ≡ infinite_tasks_action from sdk good cloud (λ n w. w) (λ x w. returned w) cli 3 other_proof
unfolding commands
commands-Determined_example =
    commands-Determined from sdk good cloud (λ n w. w) (λ x w. returned w) cli 3
      (record {
        name = "infinite-tasks";
        flags = infinite_tasks_flags;
        action = infinite_tasks_action from sdk good cloud (λ n w. w) (λ x w. returned w) cli 3;
      })
      given other_proof (Memᴰ.tail (Memᴰ.tail (Memᴰ.head refl))) agree

main-Deposited_example :
    (◌≡◌ {A = ℕ} 5 105)
    ⊎ Deposited from sdk registration staking
        (λ path config. ok config)
        subs
        libs
        http
        reverse
        sign
        idle
        0
        []
        cli
        ("deposit-into-strategy" ∷ [])
        5
        105
unfolding Table.main run_first pick deposit_into_strategy_main deposit wallet_of new_operator_config
    new_base_config new_aligned_layer_deployment_config new_eigen_layer_deployment_config
    new_ecdsa_config new_bls_config
main-Deposited_example =
    main-Deposited from sdk registration staking (λ path config. ok config) subs libs http reverse
      sign idle 0 [] cli ("deposit-into-strategy" ∷ []) (3, 5) {w' = (3, 105)} refl
