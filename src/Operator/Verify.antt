-- ===== src/Operator/Verify.antt =====
-- `verify` of operator/pkg/operator.go: the switch over the proving systems. What it sends on the
-- channel is its value; an index out of range is a panic of its goroutine.
pub mod Dispatch
use beluuga.Prelude.{ℕ, ◌==◌, ◌||◌, Bool, true, false, if◌then◌else◌}
use beluuga.Prelude.Keys.{nat_eq}
use beluuga.Go.Word.{u32}
use beluuga.Go.Outcome.{Outcome, returned, panicked}
use beluuga.Go.Slice.{Slice, bytes}
use beluuga.ProvingSystem.{
  gnark_plonk_bls12_381, gnark_plonk_bn254, groth16_bn254, sp1, halo2_kzg, halo2_ipa,
}
use beluuga.Operator.Data.{VerificationData}
use beluuga.Operator.Halo2.{Halo2Args, verify_halo2_ipa, verify_halo2_kzg}
use beluuga.Operator.Gnark.{Backend, bls12_381, bn254, verify_plonk_proof, verify_groth16_proof}

-- What `verify_sp1_proof_ffi` is called with: the bytes behind the pointers, and the lengths.
pub record Sp1Args : Type 0 where
  pub proof : Slice
  pub proof_len : ℕ
  pub elf : Slice
  pub elf_len : ℕ

-- The libraries that verify.
pub record Verifiers : Type 1 where
  pub plonk : Backend
  pub groth16 : Backend
  pub verify_sp1_proof_ffi : Sp1Args → Bool
  pub verify_halo2_ipa_proof_ffi : Halo2Args → Bool
  pub verify_halo2_kzg_proof_ffi : Halo2Args → Bool

module _ (libs : Verifiers) where
  -- `VerifySp1Proof` takes the addresses of the first bytes, which panics on an empty slice.
  unfoldable pub verify_sp1_proof : Sp1Args → Outcome Bool
  verify_sp1_proof args =
      if args.proof.len == 0 || args.elf.len == 0
      then panicked
      else returned (libs.verify_sp1_proof_ffi args)

  unfoldable pub verify : VerificationData → Outcome Bool
  verify v =
      if v.proving_system_id == gnark_plonk_bls12_381
      then returned (
          verify_plonk_proof libs.plonk libs.groth16 v.proof v.pub_input v.verification_key
            bls12_381)
      else if v.proving_system_id == gnark_plonk_bn254
      then returned
          (verify_plonk_proof libs.plonk libs.groth16 v.proof v.pub_input v.verification_key bn254)
      else if v.proving_system_id == groth16_bn254
      then returned (
          verify_groth16_proof libs.plonk libs.groth16 v.proof v.pub_input v.verification_key bn254)
      else if v.proving_system_id == sp1
      then verify_sp1_proof (record {
        proof = v.proof;
        proof_len = u32 v.proof.len;
        elf = v.vm_program_code;
        elf_len = u32 v.vm_program_code.len;
      })
      else if v.proving_system_id == halo2_ipa
      then verify_halo2_ipa libs.verify_halo2_ipa_proof_ffi v
      else if v.proving_system_id == halo2_kzg
      then verify_halo2_kzg libs.verify_halo2_kzg_proof_ffi v
      else returned false
