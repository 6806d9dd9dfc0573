-- ===== src/TaskSender/Commands/Ends.antt =====
-- When the process of the task sender ends by itself.
use beluuga.Prelude.{ℕ, String, List, ◌≡◌, ◌≢◌, ◌⊎◌, ap, Memᴰ}
use beluuga.Prelude.Keys.{nat_eq}
use beluuga.Prelude.Int.{ℤ}
use beluuga.Errors.{Error, Result, ok, err}
use beluuga.Types.{Bytes32}
use beluuga.Go.Outcome.{Outcome, returned, panicked, exited, blocked, returned-injective}
use beluuga.Go.Script.{Script, give, call, went}
use beluuga.Config.Programs.{Sources, new_task_sender_config}
use beluuga.Chain.Client.{EthClient}
use beluuga.Chain.Connect.{Sdk}
use beluuga.Chain.Writer.{send_task}
use beluuga.Cli.{Command, Cli, run_commands-returned}
use beluuga.TaskSender.Upload.{Flags, Cloud, get_and_upload_proof_data}
use beluuga.TaskSender.Rounds.{
  task_sender_main, task_sender_send_task, new_task, exit_or, after_config,
}
use beluuga.TaskSender.Commands.{commands, main, send_task_action, flags_of, config_path}
use beluuga.TaskSender.Text.{parse_proving_system}

module _ {W : Type 0} (cloud : Cloud W) where
  -- Without a path of the key nothing is uploaded.
  upload_needs_key :
      (flags : Flags) (w : W)
      → ((u : W) → (e : Error) × ((cloud.read_file "" u).1 ≡ err e))
      → flags.verification_key ≡ ""
      → {w' : W} {r : Bytes32 × String}
      → get_and_upload_proof_data cloud flags 0 w ≢ returned (w', ok r)
  unfolding get_and_upload_proof_data
  upload_needs_key flags w no_file empty h =
      went (give (parse_proving_system flags.proving_system)) _ w h (λ w1 id e1 h1.
        went (call (cloud.read_file flags.proof)) _ w1 h1 (λ w2 proof e2 h2.
          went (call (cloud.read_file flags.public_input)) _ w2 h2 (λ w3 pub_input e3 h3.
            went (call (cloud.read_file flags.verification_key)) _ w3 h3 (λ w4 key e4 h4.
              let (e, bad) = no_file w3 in
              let read = returned-injective (rw empty at e4) in cc (bad, ap (λ r. r.1) read)))))

exit_or-keeps :
    {W A : Type 0} (o : Outcome (Result A)) {w w' : W} {a : A}
    → exit_or o w ≡ returned (w', ok a)
    → w ≡ w'
exit_or-keeps (returned r) h = ap (λ p. p.0) (returned-injective h)
exit_or-keeps panicked h = absurd cc
exit_or-keeps exited h = absurd cc
exit_or-keeps blocked h = absurd cc

module _ (from : Sources) (sdk : Sdk from.services from.keys) (eth : EthClient)
    (cloud : Cloud eth.World) (sleep : ℤ → eth.World → eth.World)
    (generate_ineq_proof : ℕ → eth.World → Outcome eth.World) (cli : Cli) where
  -- A process that ends by itself has shown the help and done nothing, or one of the commands came to
  -- its end without an error, on a context that its flags were parsed into.
  pub main_ends :
      (n : ℕ) (args : List String) (w : eth.World) {w' : eth.World}
      → main from sdk eth cloud sleep generate_ineq_proof cli n args w ≡ returned w'
      → (w ≡ w')
        ⊎ ((c : Command cli.Context (Script eth.World (Unit {0}))) × Memᴰ c
              (commands from sdk eth cloud sleep generate_ineq_proof cli n)
            × (ctx : cli.Context) × cli.Parses c.flags args ctx
            × (c.action ctx w ≡ returned (w', ok tt)))
  unfolding main
  main_ends n args w h =
      run_commands-returned cli (commands from sdk eth cloud sleep generate_ineq_proof cli n) args w
        h

  -- Where the empty path cannot be read: when `send-task` comes to its end without an error, the flag of
  -- the verification key, which may be left out, was given, the proof of the flags was uploaded, and the
  -- task with its root and pointer was sent.
  pub send_task-Sends :
      (ctx : cli.Context) (w : eth.World) {w' : eth.World}
      → ((u : eth.World) → (e : Error) × ((cloud.read_file "" u).1 ≡ err e))
      → send_task_action from sdk eth cloud sleep generate_ineq_proof cli ctx w
        ≡ returned (w', ok tt)
      → let flags = flags_of from sdk eth cloud sleep generate_ineq_proof cli ctx in
        (flags.verification_key ≢ "")
        × ((mid : eth.World) × (root : Bytes32) × (pointer : String) × (get_and_upload_proof_data
                cloud flags 0 w
              ≡ returned (mid, ok (root, pointer)))
            × (send_task eth root pointer mid ≡ (w', ok tt)))
  unfolding send_task_action task_sender_main task_sender_send_task new_task
  send_task-Sends ctx w no_file h =
      let flags = flags_of from sdk eth cloud sleep generate_ineq_proof cli ctx in
      let config =
        new_task_sender_config from
          (config_path from sdk eth cloud sleep generate_ineq_proof cli ctx) in
      let start = after_config from sdk eth cloud sleep generate_ineq_proof config in
      went (exit_or start) _ w h (λ w1 _ e1 h1.
        went (get_and_upload_proof_data cloud flags 0) _ w1 h1 (λ w2 (root, pointer) e2 h2.
          let uploaded : get_and_upload_proof_data cloud flags 0 w
              ≡ returned (w2, ok (root, pointer)) =
            rw (exit_or-keeps start e1) e2 in
          (
            (λ empty. upload_needs_key cloud flags w no_file empty uploaded),
            (w2, root, pointer, uploaded, returned-injective h2),
          )))
