-- ===== src/Samples/Scripts.antt =====
-- The four programs of task_sender/test_examples. They have the same steps: they compile a circuit, make
-- its keys, prove an assignment, verify the proof, and write proof, key and public witness into files.
pub mod Accepted
use Prim.Native.String.{◌++◌ as append}
use beluuga.Prelude.{ℕ, Bool, true, false, Option, none, some, String, List, suc, get_elem?}
use beluuga.Prelude.Int.{ℤ, pos, negsuc}
use beluuga.Go.Outcome.{panicked}
use beluuga.Errors.{Error, Result, ok, err}
use beluuga.Go.Script.{Script, ◌>>=◌, ◌>>◌, give, call, fatal_on_error, panic_on_error}
use beluuga.Operator.Gnark.{Curve, bls12_381, bn254, Backend}
use beluuga.Samples.Circuits.{Api, CubicCircuit, InequalityCircuit, cubic_define, inequality_define}
use beluuga.TaskSender.Upload.{itoa}

-- `os.Create`, `Write` and `Close`.
pub record Files (W : Type 0) : Type 1 where
  pub File : Type 0
  pub create : String → W → W × Result File
  pub write : File → List ℕ → W → W × Result (Unit {0})
  pub close : File → W → W

abbrev pub Define : (Type 0 → Type 0) → Type 1
Define T = (api : Api) → T api.Variable → api.System → api.System × Result (Unit {0})

-- What the programs use of gnark to prove, with the builder of the backend. A circuit is a struct `T`
-- of variables, and an assignment the same struct of numbers. `WriteTo` writes the bytes of an
-- encoding. Setup and proofs draw randomness.
pub record Prover (g : Backend) (W : Type 0) : Type 1 where
  pub Ccs : Type 0
  pub ProvingKey : Type 0
  pub compile : (T : Type 0 → Type 0) → Curve → Define T → Result Ccs
  -- the last argument tells whether only the public part is wanted
  pub new_witness : (T : Type 0 → Type 0) → T ℤ → Curve → Bool → Result g.Witness
  pub prove : Ccs → ProvingKey → g.Witness → W → W × Result g.Proof
  pub proof_bytes : g.Proof → List ℕ
  pub key_bytes : g.VerifyingKey → List ℕ
  pub witness_bytes : g.Witness → List ℕ

-- `strconv.Itoa`
abbrev pub signed_itoa : ℤ → String
signed_itoa (pos n) = itoa n
signed_itoa (negsuc n) = append "-" (itoa (suc n))

-- The names of the three files.
pub record Names : Type 0 where
  pub proof : String
  pub key : String
  pub witness : String

-- The files of the proof for `x`.
abbrev pub ineq_stem : ℤ → String
ineq_stem x =
    append "task_sender/test_examples/gnark_groth16_bn254_infinite_script/infinite_proofs/ineq_"
      (signed_itoa x)

abbrev pub ineq_names : ℤ → Names
ineq_names x = record {
  proof = append (ineq_stem x) "_groth16.proof";
  key = append (ineq_stem x) "_groth16.vk";
  witness = append (ineq_stem x) "_groth16.pub";
}

abbrev pub nil_or : Option Error → Result (Unit {0})
nil_or none = ok tt
nil_or (some e) = err e

module _ {W : Type 0} (files : Files W) (g : Backend) (prover : Prover g W) where
  open prover use {
    Ccs, ProvingKey, compile, new_witness, prove, proof_bytes, key_bytes, witness_bytes,
  }

  -- The files are closed at the end of the function, the last one first.
  abbrev pub close_all : files.File → files.File → files.File → Script W (Unit {0})
  close_all proof_file key_file witness_file =
      call
        (λ w. (files.close proof_file (files.close key_file (files.close witness_file w)), ok tt))

  unfoldable pub write_files : Names → g.Proof → g.VerifyingKey → g.Witness → Script W (Unit {0})
  write_files names proof key witness = do
    proof_file ← panic_on_error (call (files.create names.proof))
    key_file ← panic_on_error (call (files.create names.key))
    witness_file ← panic_on_error (call (files.create names.witness))
    panic_on_error (call (files.write proof_file (proof_bytes proof)))
    panic_on_error (call (files.write key_file (key_bytes key)))
    panic_on_error (call (files.write witness_file (witness_bytes witness)))
    close_all proof_file key_file witness_file

  -- The steps of a program whose keys are made by `set_up`.
  unfoldable pub make_sample :
      (T : Type 0 → Type 0)
      → Curve
      → Define T
      → (Ccs → Script W (ProvingKey × g.VerifyingKey))
      → T ℤ
      → Names
      → Script W (Unit {0})
  unfolding write_files
  make_sample T curve define set_up assignment names = do
    ccs ← panic_on_error (give (compile T curve define))
    keys ← set_up ccs
    full ← fatal_on_error (give (new_witness T assignment curve false))
    public ← fatal_on_error (give (new_witness T assignment curve true))
    proof ← panic_on_error (call (prove ccs keys.0 full))
    panic_on_error (give (nil_or (g.verify proof keys.1 public)))
    write_files names proof keys.1 public

  abbrev pub x_3_y_35 : CubicCircuit ℤ
  x_3_y_35 = record { x = pos 3; y = pos 35 }

  module _ {Srs : Type 0} (new_srs : Ccs → W → W × Result Srs)
      (setup : Ccs → Srs → W → W × (ProvingKey × g.VerifyingKey)) where
    -- The error of `Setup` is not looked at.
    plonk_setup : Ccs → Script W (ProvingKey × g.VerifyingKey)
    plonk_setup ccs = do
      srs ← panic_on_error (call (new_srs ccs))
      call (λ w. ((setup ccs srs w).0, ok (setup ccs srs w).1))

    abbrev plonk_names : String → Names
    plonk_names dir = record {
      proof = append dir "plonk.proof";
      key = append dir "plonk.vk";
      witness = append dir "plonk_pub_input.pub";
    }

    unfoldable pub plonk_bls12_381_main : Script W (Unit {0})
    unfolding make_sample plonk_setup cubic_define
    plonk_bls12_381_main =
        make_sample CubicCircuit bls12_381 cubic_define plonk_setup x_3_y_35
          (plonk_names "task_sender/test_examples/gnark_plonk_bls12_381_script/")

    unfoldable pub plonk_bn254_main : Script W (Unit {0})
    unfolding make_sample plonk_setup cubic_define
    plonk_bn254_main =
        make_sample CubicCircuit bn254 cubic_define plonk_setup x_3_y_35
          (plonk_names "task_sender/test_examples/gnark_plonk_bn254_script/")

  module _ (setup : Ccs → W → W × (ProvingKey × g.VerifyingKey)) where
    abbrev pub groth16_setup : Ccs → Script W (ProvingKey × g.VerifyingKey)
    groth16_setup ccs = call (λ w. ((setup ccs w).0, ok (setup ccs w).1))

    unfoldable pub groth16_bn254_main : Script W (Unit {0})
    unfolding make_sample cubic_define
    groth16_bn254_main =
        make_sample CubicCircuit bn254 cubic_define groth16_setup x_3_y_35 (record {
          proof = "task_sender/test_examples/gnark_groth16_bn254_script/groth16.proof";
          key = "task_sender/test_examples/gnark_groth16_bn254_script/groth16.vk";
          witness = "task_sender/test_examples/gnark_groth16_bn254_script/groth16.pub";
        })

    unfoldable pub generate_ineq_proof : ℤ → Script W (Unit {0})
    unfolding make_sample inequality_define
    generate_ineq_proof x =
        make_sample InequalityCircuit bn254 inequality_define groth16_setup (record { x = x })
          (ineq_names x)

    -- The command of the last program: its argument is a number, and `args` starts with the program.
    unfoldable pub generate_main : (String → Result ℤ) → List String → Script W (Unit {0})
    unfolding generate_ineq_proof
    generate_main atoi args w = elim (get_elem? args 1) [
      | none ↦ panicked
      | some text ↦ elim (atoi text) [ err e ↦ panicked | ok x ↦ generate_ineq_proof x w ]
    ]
