-- ===== src/Batcher.antt =====
-- batcher/aligned-batcher/gnark/verifier.go: the verifiers of gnark proofs that the batcher, a Rust
-- program, calls through C. Its `main` is empty.
pub mod Agrees
use beluuga.Prelude.{ℕ, ◌%◌, ◌-◌, Bool, true, false, List, ltb, if◌then◌else◌}
use beluuga.Prelude.Int.{ℤ, pos, negsuc}
use beluuga.Errors.{Error, Result, ok, err}
use beluuga.Go.Outcome.{Outcome, returned, ◌>>=◌}
use beluuga.Operator.Gnark.{Curve, bls12_381, bn254, Backend, is_nil}

-- The C struct: an address, and a length of the type `uintptr_t`.
pub record ListRef : Type 0 where
  pub ptr : ℕ
  pub len : ℕ

-- The conversion `C.int(n)`: the lowest 32 bits, as a signed number.
abbrev pub c_int : ℕ → ℤ
c_int n =
    let low = n % 4294967296 in if ltb low 2147483648 then pos low else negsuc (4294967295 - low)

-- `C.GoBytes`, which reads the memory of the caller.
module _ (go_bytes : ℕ → ℤ → Outcome (List ℕ)) where
  unfoldable pub list_ref_to_bytes : ListRef → Outcome (List ℕ)
  list_ref_to_bytes list_ref = go_bytes list_ref.ptr (c_int list_ref.len)

  module _ (backend : Backend) where
    open backend use {
      Proof, Witness, new_proof, read_proof, new_witness, read_witness, new_verifying_key,
      read_verifying_key, verify,
    }

    with_witness : Curve → Proof → List ℕ → List ℕ → Result Witness → Bool
    with_witness curve proof pub_input_bytes key_bytes (err e) = false
    with_witness curve proof pub_input_bytes key_bytes (ok empty) =
        elim (read_witness empty pub_input_bytes) [
          | err e ↦ false
          | ok pub_input ↦ elim (read_verifying_key (new_verifying_key curve) key_bytes) [
            | err e ↦ false
            | ok key ↦ is_nil (verify proof key pub_input)
          ]
        ]

    with_proof : Curve → List ℕ → List ℕ → Result Proof → Bool
    unfolding with_witness
    with_proof curve pub_input_bytes key_bytes (err e) = false
    with_proof curve pub_input_bytes key_bytes (ok proof) =
        with_witness curve proof pub_input_bytes key_bytes (new_witness curve)

    -- The steps that `verifyPlonkProof` and `verifyGroth16Proof` share, over their own backends.
    verify_proof : ListRef → ListRef → ListRef → Curve → Outcome Bool
    unfolding list_ref_to_bytes with_proof
    verify_proof proof_ref pub_input_ref key_ref curve = do
      proof_bytes ← list_ref_to_bytes proof_ref
      pub_input_bytes ← list_ref_to_bytes pub_input_ref
      key_bytes ← list_ref_to_bytes key_ref
      returned
          (with_proof curve pub_input_bytes key_bytes (read_proof (new_proof curve) proof_bytes))

  module _ (plonk groth16 : Backend) where
    unfoldable pub verify_plonk_proof_bls12_381 : ListRef → ListRef → ListRef → Outcome Bool
    unfolding verify_proof
    verify_plonk_proof_bls12_381 proof pub_input key =
        verify_proof plonk proof pub_input key bls12_381

    unfoldable pub verify_plonk_proof_bn254 : ListRef → ListRef → ListRef → Outcome Bool
    unfolding verify_proof
    verify_plonk_proof_bn254 proof pub_input key = verify_proof plonk proof pub_input key bn254

    unfoldable pub verify_groth16_proof_bn254 : ListRef → ListRef → ListRef → Outcome Bool
    unfolding verify_proof
    verify_groth16_proof_bn254 proof pub_input key = verify_proof groth16 proof pub_input key bn254
