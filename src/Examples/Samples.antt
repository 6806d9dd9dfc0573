-- ===== src/Examples/Samples.antt =====
-- A disk, a bucket for one object, and the proof for x = 1.
use beluuga.Prelude.{
  ℕ, Bool, Option, false, none, some, String, List, [], ◌∷◌, ◌++◌, length, ◌≡◌, ◌≢◌, ◌==◌, ◌&&◌,
  if◌then◌else◌, refl, sym, ap, ◌∙◌, arith, eq_refl_key, eq_ne,
}
use beluuga.Prelude.Int.{pos}
use beluuga.Prelude.Keys.{nat_eq, bytes_eq, string_eq, list_beq, list_beq_iff}
use beluuga.Errors.{Result, ok, err, library, ok-injective}
use beluuga.Go.Slice.{bytes, of_list}
use beluuga.Operator.Data.{VerificationData}
use beluuga.Operator.Download.{Http}
use beluuga.Operator.Gnark.{bn254}
use beluuga.TaskSender.Upload.{Flags, Cloud, get_and_upload_proof_data}
use beluuga.TaskSender.Upload.Uploaded.{Public, ReadsBackBatch}
use beluuga.Samples.Circuits.{CubicCircuit, cubic_define}
use beluuga.Samples.Scripts.{
  Files, Prover, Names, make_sample, groth16_setup, x_3_y_35, generate_ineq_proof,
}
use beluuga.Samples.Scripts.Accepted.{FileLaws, Differ, ReadsBack, Accepts, make_sample-Accepts}
use beluuga.Samples.Infinite.{ReadLaws}
use beluuga.Samples.Infinite.Loop.{Net, http_of, SendsVerified, infinite_rounds-SendsVerified}
use beluuga.Types.{Bytes32}
use beluuga.Chain.Client.{EthClient}
use beluuga.Config.Deployment.{
  new_aligned_layer_deployment_config, new_eigen_layer_deployment_config,
}
use beluuga.Config.Keys.{new_ecdsa_config}
use beluuga.Config.Base.{new_base_config}
use beluuga.Config.Programs.{new_task_sender_config}
use beluuga.Chain.Connect.{new_avs_writer_from_config, new_avs_service_bindings}
use beluuga.Chain.Writer.{send_task}
use beluuga.Chain.Receipt.{wait_for_transaction_receipt}
use beluuga.TaskSender.Rounds.{task_sender_infinite_main, infinite_round, rounds, task_sender_main}
use beluuga.Examples.Configs.{from, sdk}
use beluuga.Examples.Batches.{libs}

record World : Type 0 where
  disk : String → Option (List ℕ)
  object : List ℕ

abbrev or_empty : Option (List ℕ) → List ℕ
or_empty none = []
or_empty (some b) = b

abbrev put : String → List ℕ → World → World
put path held w = record w { disk = λ other. if other == path then some held else w.disk other }

abbrev files : Files World
files = record {
  File = String;
  create = λ path w. (put path [] w, ok path);
  write = λ f b w. (put f (or_empty (w.disk f) ++ b) w, ok tt);
  close = λ f w. w;
}

put_path : (path : String) (held : List ℕ) (w : World) → (put path held w).disk path ≡ some held
put_path path held w = ground (arith, eq_refl_key path)

put_other :
    (path other : String) (held : List ℕ) (w : World)
    → other ≢ path
    → (put path held w).disk other ≡ w.disk other
put_other path other held w ne = ground (arith, eq_ne other path ne)

abbrev laws : FileLaws files
laws = record {
  content = λ w path. w.disk path;
  path_of = λ f. f;
  create_path = λ path w h.
      (sym (ok-injective (ap (λ r. r.1) h)), ap (λ r. r.0.disk path) (sym h) ∙ put_path path [] w);
  create_other =
      λ path other w h ne. ap (λ r. r.0.disk other) (sym h) ∙ put_other path other [] w ne;
  write_path = λ f b w h before.
      ap (λ r. r.0.disk f) (sym h)
      ∙ put_path f (or_empty (w.disk f) ++ b) w
      ∙ ap (λ o. some (or_empty o ++ b)) before;
  write_other = λ f b other w h ne.
      ap (λ r. r.0.disk other) (sym h) ∙ put_other f other (or_empty (w.disk f) ++ b) w ne;
  close_any = λ f w path. refl;
}

abbrev prover : Prover libs.groth16 World
prover = record {
  Ccs = Unit {0};
  ProvingKey = Unit {0};
  compile = λ T curve define. ok tt;
  new_witness = λ T assignment curve public_only. ok (4 ∷ []);
  prove = λ ccs key witness w. (w, ok (7 ∷ []));
  proof_bytes = λ p. p;
  key_bytes = λ k. k;
  witness_bytes = λ u. u;
}

abbrev setup : Unit {0} → World → World × (Unit {0} × List ℕ)
setup ccs w = (w, (tt, 9 ∷ []))

back : ReadsBack files libs.groth16 prover laws bn254
back = record {
  proof = λ p. refl;
  key = λ k. refl;
  empty = [];
  new_witness = refl;
  witness = λ u. refl;
}

abbrev cubic_names : Names
cubic_names = record { proof = "a.proof"; key = "a.vk"; witness = "a.pub" }

cubic_names-Differ : Differ cubic_names
cubic_names-Differ = record { key_proof = λ e. cc; witness_proof = λ e. cc; witness_key = λ e. cc }

abbrev empty_disk : World
empty_disk = record { disk = λ path. none; object = [] }

-- The disk behind the three files.
abbrev filled : World
filled = put "a.pub" (4 ∷ []) (
    put "a.vk" (9 ∷ [])
      (put "a.proof" (7 ∷ []) (put "a.pub" [] (put "a.vk" [] (put "a.proof" [] empty_disk)))))

make_sample-Accepts_example : Accepts files libs.groth16 prover laws bn254 cubic_names filled
unfolding make_sample
make_sample-Accepts_example =
    make_sample-Accepts files libs.groth16 prover laws CubicCircuit bn254 cubic_define
      (groth16_setup files libs.groth16 prover setup) (x_3_y_35 files libs.groth16 prover)
      cubic_names empty_disk cubic_names-Differ back refl

abbrev stored : VerificationData
stored = record {
  proving_system_id = 2;
  proof = of_list (7 ∷ []);
  pub_input = of_list (4 ∷ []);
  verification_key = of_list (9 ∷ []);
  vm_program_code = of_list [];
}

is_stored : VerificationData → Bool
is_stored v =
    (v.proving_system_id == 2)
    && (bytes v.proof == 7 ∷ [])
    && (bytes v.pub_input == 4 ∷ [])
    && (bytes v.verification_key == 9 ∷ [])
    && (bytes v.vm_program_code == [])

-- A JSON library that knows one batch.
marshal : List VerificationData → Result (List ℕ)
unfolding is_stored
marshal (v ∷ []) = if is_stored v then ok (5 ∷ 6 ∷ []) else err (library "not encodable")
marshal _ = err (library "not encodable")

-- A missing file reads as an error.
abbrev read : Option (List ℕ) → Result (List ℕ)
read none = err (library "no such file")
read (some b) = ok b

abbrev net : Net World
net = record {
  Body = List ℕ;
  head = λ url w. (w, ok (record { status_code = 200; content_length = pos (length w.object) }));
  get = λ url w. (w, ok w.object);
  read_all = λ b w. (w, ok b);
  close = λ b w. w;
  unmarshal = λ b. ok (stored ∷ []);
}

abbrev http : Http
http = http_of net

-- A chain that takes every task and gives a receipt at once.
abbrev eth : EthClient
eth = record {
  World = World;
  Receipt = Bytes32;
  transaction_receipt = λ hash w. (w, ok hash);
  get_tx_opts = record { no_send = false; gas_limit = 0 };
  create_new_task = λ opts root pointer w. (w, ok (record { gas = 10; hash = root }));
  respond_to_task = λ opts root stakes w. (w, err (library "reverted"));
  sleep = λ n w. w;
}

abbrev cloud : Cloud World
cloud = record {
  Session = ℕ;
  read_file = λ path w. (w, read (w.disk path));
  marshal = marshal;
  sum256 = λ b. b;
  load_env = λ w. (w, ok tt);
  getenv = λ name w. "set";
  new_session = λ region access secret. ok 1;
  put_object = λ session bucket key content w. (record w { object = content }, ok tt);
}

abbrev flags : Flags
flags = record {
  proving_system = "groth16_bn254";
  proof = "";
  public_input = "";
  verification_key = "";
}

public : Public http cloud "https://storage.alignedlayer.com/"
public = record {
  bucket = "set";
  named = λ w e. refl;
  serves = λ session key content w put_ok. record {
    head_ok = refl;
    body = content;
    get_ok = refl;
    read_ok = refl;
  };
}

reads : ReadLaws http cloud files libs prover setup laws
reads = record { read_path = λ path w h. ap read h; read_any = λ path other w. refl }

reads_back : ReadsBackBatch http cloud
unfolding marshal
reads_back [] content h = absurd (cc)
reads_back (v ∷ v' ∷ vs) content h = absurd (cc)
reads_back (v ∷ []) content h = (
  stored ∷ [],
  refl,
  (
    ground (
      arith,
      list_beq_iff (bytes v.proof) (7 ∷ []),
      list_beq_iff (bytes v.pub_input) (4 ∷ []),
      list_beq_iff (bytes v.verification_key) (9 ∷ []),
      list_beq_iff (bytes v.vm_program_code) [],
    ),
    tt,
  ),
)

infinite_rounds-SendsVerified_example :
    SendsVerified from sdk eth net cloud
      (λ n w. w)
      files
      libs
      prover
      setup
      laws
      (pos 100)
      "config.yaml"
      flags
      (pos 1)
      0
      empty_disk
unfolding task_sender_infinite_main infinite_round rounds task_sender_main generate_ineq_proof
    get_and_upload_proof_data marshal list_beq new_task_sender_config new_base_config
    new_aligned_layer_deployment_config new_eigen_layer_deployment_config new_ecdsa_config
    new_avs_writer_from_config new_avs_service_bindings send_task wait_for_transaction_receipt
infinite_rounds-SendsVerified_example =
    infinite_rounds-SendsVerified from sdk eth net cloud (λ n w. w) files libs prover setup laws
      reads back public reads_back (pos 100) "config.yaml" flags (pos 1) 1 empty_disk refl refl 0
      (omega arith)
