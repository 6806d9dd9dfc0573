-- ===== src/Batcher/Agrees.antt =====
-- The batcher's verifiers of gnark proofs against the operator's.
use beluuga.Prelude.{ℕ, ◌≡◌, ◌<◌, List, ap, ◌∙◌, arith}
use beluuga.Prelude.Int.{ℤ, pos}
use beluuga.Go.Outcome.{Outcome, returned}
use beluuga.Go.Slice.{Slice, bytes}
use beluuga.ProvingSystem.{gnark_plonk_bls12_381, gnark_plonk_bn254, groth16_bn254}
use beluuga.Operator.Data.{VerificationData}
use beluuga.Operator.Gnark.{
  Backend, Curve, bls12_381, bn254, verify_with, verify_plonk_proof, verify_groth16_proof,
}
use beluuga.Operator.Verify.{Verifiers, verify}
use beluuga.Batcher.{
  ListRef, c_int, list_ref_to_bytes, verify_proof, verify_plonk_proof_bls12_381,
  verify_plonk_proof_bn254, verify_groth16_proof_bn254,
}

c_int_small : (n : ℕ) → n < 2147483648 → c_int n ≡ pos n
c_int_small n h = ground arith

module _ (go_bytes : ℕ → ℤ → Outcome (List ℕ)) where
  -- The caller's memory holds the bytes of the slice behind the reference, which is short enough for
  -- a C `int`.
  pub record IsPassed (s : Slice) (r : ListRef) : Type 0 where
    pub short : r.len < 2147483648
    pub held : go_bytes r.ptr (pos r.len) ≡ returned (bytes s)

  passed_bytes :
      (s : Slice) (r : ListRef) → IsPassed s r → list_ref_to_bytes go_bytes r ≡ returned (bytes s)
  unfolding list_ref_to_bytes
  passed_bytes s r p = ap (go_bytes r.ptr) (c_int_small r.len p.short) ∙ p.held

  proofs_agree :
      (backend : Backend) (curve : Curve) (proof pub_input key : Slice) (p i k : ListRef)
      → IsPassed proof p
      → IsPassed pub_input i
      → IsPassed key k
      → verify_proof go_bytes backend p i k curve
        ≡ returned (verify_with backend curve (bytes proof) (bytes pub_input) (bytes key))
  unfolding verify_proof verify_with
  proofs_agree backend curve proof pub_input key p i k hp hi hk =
      ground (arith, passed_bytes proof p hp, passed_bytes pub_input i hi, passed_bytes key k hk)

  -- Given the same gnark, and references of less than 2^31 bytes to the bytes of a proof, of its public
  -- input and of its key, the three functions that the batcher calls answer what the operator answers
  -- for the ids that they stand for.
  pub batcher_agrees :
      (libs : Verifiers) (v : VerificationData) (p i k : ListRef)
      → IsPassed v.proof p
      → IsPassed v.pub_input i
      → IsPassed v.verification_key k
      → (verify_plonk_proof_bls12_381 go_bytes libs.plonk libs.groth16 p i k
          ≡ verify libs (record v { proving_system_id = gnark_plonk_bls12_381 }))
        × (verify_plonk_proof_bn254 go_bytes libs.plonk libs.groth16 p i k
            ≡ verify libs (record v { proving_system_id = gnark_plonk_bn254 }))
        × (verify_groth16_proof_bn254 go_bytes libs.plonk libs.groth16 p i k
            ≡ verify libs (record v { proving_system_id = groth16_bn254 }))
  unfolding verify_plonk_proof_bls12_381 verify_plonk_proof_bn254 verify_groth16_proof_bn254 verify
      verify_plonk_proof verify_groth16_proof verify_with
  batcher_agrees libs v p i k hp hi hk = (
    proofs_agree libs.plonk bls12_381 v.proof v.pub_input v.verification_key p i k hp hi hk,
    proofs_agree libs.plonk bn254 v.proof v.pub_input v.verification_key p i k hp hi hk,
    proofs_agree libs.groth16 bn254 v.proof v.pub_input v.verification_key p i k hp hi hk,
  )
