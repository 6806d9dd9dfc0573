-- ===== src/Operator/Halo2.antt =====
-- The cases `Halo2IPA` and `Halo2KZG` of `verify` in operator/pkg/operator.go, and the wrappers
-- operator/halo2ipa/halo2ipa.go and operator/halo2kzg/halo2kzg.go. The verification key of these systems
-- is three lengths of four bytes, then the constraint system, the key and the parameters.
pub mod Split
pub mod Encode
pub mod Buffers
use beluuga.Prelude.{ℕ, ◌+◌, Bool, List}
use beluuga.Go.Word.{u32}
use beluuga.Go.Outcome.{Outcome, returned, ◌>>=◌}
use beluuga.Go.Slice.{Slice, bytes, slice_range, slice_from, make_bytes, copy, little_endian_u32}
use beluuga.Operator.Data.{VerificationData}

-- The sizes of the arrays that are passed to the verifier.
pub record Sizes : Type 0 where
  pub max_proof_size : ℕ
  pub max_constraint_system_size : ℕ
  pub max_verifier_key_size : ℕ
  pub max_params_size : ℕ
  pub max_public_input_size : ℕ

abbrev pub halo2_ipa_sizes : Sizes
halo2_ipa_sizes = record {
  max_proof_size = 8192;
  max_constraint_system_size = 2048;
  max_verifier_key_size = 1024;
  max_params_size = 4096;
  max_public_input_size = 4096;
}

abbrev pub halo2_kzg_sizes : Sizes
halo2_kzg_sizes = record {
  max_proof_size = 8192;
  max_constraint_system_size = 2048;
  max_verifier_key_size = 1024;
  max_params_size = 4096;
  max_public_input_size = 4096;
}

-- The arguments of `VerifyHalo2IpaProof` and `VerifyHalo2KzgProof`: arrays, and the lengths that the
-- verifier behind the foreign call reads from them.
pub record Halo2Args : Type 0 where
  pub proof : List ℕ
  pub proof_len : ℕ
  pub cs : List ℕ
  pub cs_len : ℕ
  pub vk : List ℕ
  pub vk_len : ℕ
  pub params : List ℕ
  pub params_len : ℕ
  pub public_input : List ℕ
  pub public_input_len : ℕ

-- `copy(buffer, paramsBytes[a:b])` into a buffer of four bytes, read as a number.
unfoldable pub length_field : Slice → ℕ → ℕ → Outcome ℕ
length_field key a b = do
  field ← slice_range key a b
  returned (little_endian_u32 (copy (make_bytes 4) (bytes field)))

unfoldable pub halo2_args : Sizes → VerificationData → Outcome Halo2Args
halo2_args sizes v = do
  let key = v.verification_key
  cs_len ← length_field key 0 4
  vk_len ← length_field key 4 8
  params_len ← length_field key 8 12
  cs ← slice_range key 12 (u32 (12 + cs_len))
  let vk_offset = u32 (12 + cs_len)
  vk ← slice_range key vk_offset (u32 (vk_offset + vk_len))
  params ← slice_from key (u32 (vk_offset + vk_len))
  returned (record {
    proof = copy (make_bytes sizes.max_proof_size) (bytes v.proof);
    proof_len = u32 v.proof.len;
    cs = copy (make_bytes sizes.max_constraint_system_size) (bytes cs);
    cs_len = cs_len;
    vk = copy (make_bytes sizes.max_verifier_key_size) (bytes vk);
    vk_len = vk_len;
    params = copy (make_bytes sizes.max_params_size) (bytes params);
    params_len = params_len;
    public_input = copy (make_bytes sizes.max_public_input_size) (bytes v.pub_input);
    public_input_len = u32 v.pub_input.len;
  })

-- The two cases of `verify`, over the verifier's foreign function.
unfoldable pub verify_halo2_ipa : (Halo2Args → Bool) → VerificationData → Outcome Bool
verify_halo2_ipa ffi v = do args ← halo2_args halo2_ipa_sizes v; returned (ffi args)

unfoldable pub verify_halo2_kzg : (Halo2Args → Bool) → VerificationData → Outcome Bool
verify_halo2_kzg ffi v = do args ← halo2_args halo2_kzg_sizes v; returned (ffi args)
