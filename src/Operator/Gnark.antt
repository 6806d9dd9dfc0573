-- ===== src/Operator/Gnark.antt =====
-- `verifyPlonkProof` and `verifyGroth16Proof` of operator/pkg/operator.go, over gnark.
use beluuga.Prelude.{ℕ, Bool, true, false, Option, none, some, List}
use beluuga.Errors.{Error, Result, ok, err}
use beluuga.Go.Slice.{Slice, bytes}

-- `ecc.ID`, as far as it is used.
pub data Curve : Type 0 where
  bls12_381 bn254 : Curve

-- One of gnark's two backends, with its witnesses. A reader that is read from gives the value read, or
-- an error; `verify` gives the error of `Verify`.
pub record Backend : Type 1 where
  pub Proof : Type 0
  pub Witness : Type 0
  pub VerifyingKey : Type 0
  pub new_proof : Curve → Proof
  pub read_proof : Proof → List ℕ → Result Proof
  pub new_witness : Curve → Result Witness
  pub read_witness : Witness → List ℕ → Result Witness
  pub new_verifying_key : Curve → VerifyingKey
  pub read_verifying_key : VerifyingKey → List ℕ → Result VerifyingKey
  pub verify : Proof → VerifyingKey → Witness → Option Error

abbrev pub is_nil : Option Error → Bool
is_nil none = true
is_nil (some e) = false

module _ (g : Backend) where
  open g use {
    new_proof, read_proof, new_witness, read_witness, new_verifying_key, read_verifying_key, verify,
  }

  -- The steps of both functions: an error of any reader is logged, and the answer is false.
  unfoldable pub verify_with : Curve → List ℕ → List ℕ → List ℕ → Bool
  verify_with curve proof_bytes pub_input_bytes key_bytes =
      elim (read_proof (new_proof curve) proof_bytes) [
        | err e ↦ false
        | ok proof ↦ elim (new_witness curve) [
          | err e ↦ false
          | ok empty ↦ elim (read_witness empty pub_input_bytes) [
            | err e ↦ false
            | ok pub_input ↦ elim (read_verifying_key (new_verifying_key curve) key_bytes) [
              | err e ↦ false
              | ok key ↦ is_nil (verify proof key pub_input)
            ]
          ]
        ]
      ]

-- The two functions of the operator, which have the same steps over their own backends.
module _ (plonk groth16 : Backend) where
  unfoldable pub verify_plonk_proof : Slice → Slice → Slice → Curve → Bool
  unfolding verify_with
  verify_plonk_proof proof pub_input key curve =
      verify_with plonk curve (bytes proof) (bytes pub_input) (bytes key)

  unfoldable pub verify_groth16_proof : Slice → Slice → Slice → Curve → Bool
  unfolding verify_with
  verify_groth16_proof proof pub_input key curve =
      verify_with groth16 curve (bytes proof) (bytes pub_input) (bytes key)
