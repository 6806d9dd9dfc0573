-- ===== src/Operator/Verify/Dispatch.antt =====
-- When the verification of a proof takes the operator's process down, and when it answers.
use beluuga.Prelude.{◌≡◌, ◌≤◌, ◌<◌, ◌↔◌, ◌⊎◌, length, false, arith}
use beluuga.Go.Word.{u32_mod}
use beluuga.Go.Outcome.{returned, panicked}
use beluuga.Go.Slice.{IsSlice}
use beluuga.ProvingSystem.{sp1, halo2_kzg, halo2_ipa}
use beluuga.Operator.Data.{VerificationData}
use beluuga.Operator.Halo2.{halo2_ipa_sizes, halo2_kzg_sizes, verify_halo2_ipa, verify_halo2_kzg}
use beluuga.Operator.Halo2.Split.{AreBytes, needed, halo2_args-cut}
use beluuga.Operator.Verify.{Verifiers, verify, verify_sp1_proof}

-- The data that makes the goroutine of a proof panic.
abbrev pub Crashes : VerificationData → Type 0
Crashes v =
    ((v.proving_system_id ≡ sp1) × ((v.proof.len ≡ 0) ⊎ (v.vm_program_code.len ≡ 0)))
    ⊎ (((v.proving_system_id ≡ halo2_ipa) ⊎ (v.proving_system_id ≡ halo2_kzg))
        × (v.verification_key.len < needed v.verification_key))

module _ (libs : Verifiers) (v : VerificationData) where
  -- `verify` panics exactly on an SP1 proof with no bytes or no program, and on a Halo2 proof whose key
  -- is shorter than its own lengths say (for a key of real bytes below 4 GiB).
  pub verify_panics :
      IsSlice v.verification_key
      → AreBytes v.verification_key.backing
      → length v.verification_key.backing < u32_mod
      → (verify libs v ≡ panicked) ↔ Crashes v
  unfolding verify verify_sp1_proof verify_halo2_ipa verify_halo2_kzg
  verify_panics s b small = ground (
    arith,
    halo2_args-cut halo2_ipa_sizes v s b small,
    halo2_args-cut halo2_kzg_sizes v s b small,
  )

  -- A proof of a system that is not known is answered by false.
  pub verify_unknown : 6 ≤ v.proving_system_id → verify libs v ≡ returned false
  unfolding verify
  verify_unknown h = ground arith
