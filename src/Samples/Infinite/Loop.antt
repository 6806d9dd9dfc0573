-- ===== src/Samples/Infinite/Loop.antt =====
-- The rounds of the infinite task sender with its generator.
use beluuga.Prelude.{
  ℕ, zero, suc, ◌+◌, ◌<◌, ◌≡◌, ◌∙◌, refl, ap, String, List, arith, inl, inr, Bool-cases,
}
use beluuga.Prelude.Int.{ℤ, pos, ltb_ℤ}
use beluuga.Errors.{Result, ok, err}
use beluuga.Types.{Bytes32}
use beluuga.Go.Outcome.{Outcome, returned, panicked, exited, blocked, returned-injective}
use beluuga.Go.Script.{Script, went}
use beluuga.ProvingSystem.{groth16_bn254}
use beluuga.Operator.Data.{VerificationData}
use beluuga.Operator.Download.{HeadResponse, Http}
use beluuga.Operator.Gnark.{bn254}
use beluuga.Operator.Verify.{Verifiers}
use beluuga.Config.Programs.{Sources, new_task_sender_config}
use beluuga.Chain.Client.{EthClient}
use beluuga.Chain.Connect.{Sdk}
use beluuga.Chain.Writer.{send_task}
use beluuga.TaskSender.Text.{parse_proving_system}
use beluuga.TaskSender.Upload.{Flags, Cloud, get_and_upload_proof_data}
use beluuga.TaskSender.Upload.Uploaded.{Public, ReadsBackBatch}
use beluuga.TaskSender.Rounds.{
  new_task, exit_or, rounds, after_config, task_sender_send_task, task_sender_main, pause, generate,
  infinite_round, task_sender_infinite_main,
}
use beluuga.Samples.Scripts.{Files, Prover, generate_ineq_proof}
use beluuga.Samples.Scripts.Accepted.{FileLaws, ReadsBack}
use beluuga.Samples.Infinite.{ReadLaws, OneVerifies, round-OneVerifies}

-- `GenerateIneqProof` in the task sender's process: it gives no value, and each of its errors is a panic
-- or a `log.Fatal`.
abbrev pub in_process : {W : Type 0} → Outcome (W × Result (Unit {0})) → Outcome W
in_process (returned (w, ok _)) = returned w
in_process (returned (w, err e)) = panicked
in_process panicked = panicked
in_process exited = exited
in_process blocked = blocked

in_process-returned :
    {W : Type 0} (o : Outcome (W × Result (Unit {0}))) {w : W}
    → in_process o ≡ returned w
    → o ≡ returned (w, ok tt)
in_process-returned (returned (v, ok t)) h = ap (λ u. returned (u, ok tt)) (returned-injective h)
in_process-returned (returned (v, err e)) h = absurd cc
in_process-returned panicked h = absurd cc
in_process-returned exited h = absurd cc
in_process-returned blocked h = absurd cc

-- A generator that came to its end.
made :
    {W : Type 0} (o : Outcome W) {w : W}
    → ◌≡◌ {A = Outcome (W × Result (Unit {0}))}
        (elim o [
          | returned w' ↦ returned (w', ok tt)
          | panicked ↦ panicked
          | exited ↦ exited
          | blocked ↦ blocked
        ])
        (returned (w, ok tt))
    → o ≡ returned w
made (returned v) h = ap (λ p. returned p.0) (returned-injective h)
made panicked h = absurd cc
made exited h = absurd cc
made blocked h = absurd cc

exit_or-same :
    {W A : Type 0} (o : Outcome (Result A)) {w w' : W} {r : Result A}
    → exit_or o w ≡ returned (w', r)
    → w ≡ w'
exit_or-same (returned r) h = ap (λ p. p.0) (returned-injective h)
exit_or-same panicked h = absurd cc
exit_or-same exited h = absurd cc
exit_or-same blocked h = absurd cc

-- Of rounds that all passed, each one passed.
rounds_pass :
    {W : Type 0} (round : ℕ → Script W (Unit {0})) (n x k : ℕ) (w : W) {w' : W}
    → rounds round n x w ≡ returned (w', ok tt)
    → k < n
    → (u : W) × (u' : W) × (rounds round k x w ≡ returned (u, ok tt))
      × (round (k + x) u ≡ returned (u', ok tt))
unfolding rounds
rounds_pass round zero x k w h lt = absurd (omega arith)
rounds_pass round (suc n) x zero w h lt =
    let same : 0 + x ≡ x = omega arith in
    went (round x) _ w h (λ u t e h'. (w, u, refl, ap (λ m. round m w) same ∙ e))
rounds_pass round (suc n) x (suc k) w h lt = went (round x) _ w h (λ u t e h'.
    let (v, v', before, here) = rounds_pass round n (suc x) k u h' (omega arith) in
    let same : suc k + x ≡ k + suc x = omega arith in
    (v, v', rw e before, ap (λ m. round m v) same ∙ here))

-- The calls of net/http and io on the world of the task sender, and `json.Unmarshal`.
pub record Net (W : Type 0) : Type 1 where
  pub Body : Type 0
  pub head : String → W → W × Result HeadResponse
  pub get : String → W → W × Result Body
  pub read_all : Body → W → W × Result (List ℕ)
  pub close : Body → W → W
  pub unmarshal : List ℕ → Result (List VerificationData)

abbrev pub http_of : {W : Type 0} → Net W → Http
http_of {W} net = record {
  World = W;
  Body = net.Body;
  head = net.head;
  get = net.get;
  read_all = net.read_all;
  close = net.close;
  unmarshal = net.unmarshal;
}

module _ (from : Sources) (sdk : Sdk from.services from.keys) (eth : EthClient)
    (net : Net eth.World) (cloud : Cloud eth.World) (sleep : ℤ → eth.World → eth.World)
    (files : Files eth.World) (libs : Verifiers) (prover : Prover libs.groth16 eth.World)
    (setup : prover.Ccs → eth.World → eth.World × (prover.ProvingKey × libs.groth16.VerifyingKey))
    (laws : FileLaws files) where
  abbrev generator : ℕ → eth.World → Outcome eth.World
  generator x w = in_process (generate_ineq_proof files libs.groth16 prover setup (pos x) w)

  abbrev pub infinite_rounds : String → Flags → ℤ → ℕ → Script eth.World (Unit {0})
  infinite_rounds = task_sender_infinite_main from sdk eth cloud sleep generator

  generated_by :
      (k : ℕ) (w : eth.World) {w' : eth.World} {t : Unit {0}}
      → generate from sdk eth cloud sleep generator (suc k) w ≡ returned (w', ok t)
      → generate_ineq_proof files libs.groth16 prover setup (pos (suc k)) w ≡ returned (w', ok tt)
  unfolding generate
  generated_by k w {w'} h =
      in_process-returned (generate_ineq_proof files libs.groth16 prover setup (pos (suc k)) w)
        (made (generator (suc k) w) h)

  -- What round `1 + k` of the loop from `w` on sends: a task with the root and the pointer of an upload
  -- in which an operator finds one proof, which verifies.
  pub record SendsVerified (max_batch_size : ℤ) (config_path : String) (flags : Flags)
      (interval : ℤ) (k : ℕ) (w : eth.World) : Type 0 where
    pub before : eth.World
    pub passed :
        rounds (infinite_round from sdk eth cloud sleep generator config_path flags interval) k 1 w
        ≡ returned (before, ok tt)
    pub generated : eth.World
    pub is_generated :
        generate_ineq_proof files libs.groth16 prover setup (pos (suc k)) before
        ≡ returned (generated, ok tt)
    pub uploaded : eth.World
    pub root : Bytes32
    pub pointer : String
    pub is_uploaded :
        get_and_upload_proof_data cloud flags (suc k) generated
        ≡ returned (uploaded, ok (root, pointer))
    pub verifies :
        OneVerifies
          (http_of net)
          cloud
          files
          libs
          prover
          setup
          laws
          max_batch_size
          root
          pointer
          uploaded
    pub behind : eth.World
    pub is_sent : send_task eth root pointer uploaded ≡ (behind, ok tt)

  module _ (reads : ReadLaws (http_of net) cloud files libs prover setup laws)
      (back : ReadsBack files libs.groth16 prover laws bn254)
      (at : Public (http_of net) cloud "https://storage.alignedlayer.com/")
      (json : ReadsBackBatch (http_of net) cloud) where
    round-SendsVerified :
        (max_batch_size : ℤ) (config_path : String) (flags : Flags) (interval : ℤ) (k : ℕ)
        (w u : eth.World) {u' : eth.World}
        → parse_proving_system flags.proving_system ≡ ok groth16_bn254
        → rounds
            (infinite_round from sdk eth cloud sleep generator config_path flags interval)
            k
            1
            w
          ≡ returned (u, ok tt)
        → infinite_round from sdk eth cloud sleep generator config_path flags interval (suc k) u
          ≡ returned (u', ok tt)
        → SendsVerified max_batch_size config_path flags interval k w
    unfolding infinite_round generate pause task_sender_main task_sender_send_task new_task
    round-SendsVerified max_batch_size config_path flags interval k w u named passed h =
        went (generate from sdk eth cloud sleep generator (suc k)) _ u h (λ w1 t e h1.
          went (task_sender_main from sdk eth cloud sleep generator config_path flags (suc k)) _ w1
            h1
            (λ w2 t2 e2 _.
              went
                (exit_or (
                  after_config from sdk eth cloud sleep generator
                    (new_task_sender_config from config_path)))
                _ w1 e2
                (λ w3 t3 e3 h3.
                  went (get_and_upload_proof_data cloud flags (suc k)) _ w3 h3 (λ w4 task e4 h4.
                    let made = generated_by k u e in
                    let same =
                      exit_or-same
                        (after_config from sdk eth cloud sleep generator
                          (new_task_sender_config from config_path))
                        e3 in
                    let uploaded = rw (← same) at e4 in
                    record {
                      before = u;
                      passed = passed;
                      generated = w1;
                      is_generated = made;
                      uploaded = w4;
                      root = task.0;
                      pointer = task.1;
                      is_uploaded = uploaded;
                      verifies =
                          round-OneVerifies (http_of net) cloud files libs prover setup laws
                            max_batch_size flags k u reads back at json named made uploaded;
                      behind = w2;
                      is_sent = returned-injective h4;
                    }))))

    -- Where files hold what is written to them, gnark and JSON read back what they wrote, and the bucket
    -- that the environment names is served at https://storage.alignedlayer.com/: let the infinite task
    -- sender, for `groth16_bn254`, have gone through `n` rounds. In each of these rounds it has generated
    -- a proof, uploaded it and sent a task; the task's root is the hash of the uploaded bytes, its pointer
    -- serves them, and an operator that follows the pointer downloads one proof, which verifies, unless
    -- its limit is below the number of these bytes.
    pub infinite_rounds-SendsVerified :
        (max_batch_size : ℤ) (config_path : String) (flags : Flags) (interval : ℤ) (n : ℕ)
        (w : eth.World) {w' : eth.World}
        → parse_proving_system flags.proving_system ≡ ok groth16_bn254
        → infinite_rounds config_path flags interval n w ≡ returned (w', ok tt)
        → (k : ℕ) → k < n
        → SendsVerified max_batch_size config_path flags interval k w
    unfolding task_sender_infinite_main
    infinite_rounds-SendsVerified max_batch_size config_path flags interval n w named h k lt =
        let round = infinite_round from sdk eth cloud sleep generator config_path flags interval in
        elim (Bool-cases (ltb_ℤ interval (pos 1))) [
          | inl low ↦ absurd (cc (rw low at h))
          | inr above ↦
              let (u, u', passed, here) = rounds_pass round n 1 k w (rw above at h) lt in
              let same : suc k ≡ k + 1 = omega arith in
              round-SendsVerified max_batch_size config_path flags interval k w u named passed
                (ap (λ m. round m u) same ∙ here)
        ]
