-- ===== src/Examples/Keys.antt =====
-- A Halo2 key of one byte for each of its parts.
use beluuga.Prelude.{◌≡◌, ◌↔◌, ◌≤◌, [], ◌∷◌, refl, arith}
use beluuga.Go.Outcome.{returned, panicked}
use beluuga.Go.Slice.{of_list, copy, make_bytes, slice_range, slice_from, little_endian_u32}
use beluuga.Operator.Data.{VerificationData}
use beluuga.Operator.Halo2.{length_field, halo2_args, Sizes, halo2_ipa_sizes, halo2_kzg_sizes}
use beluuga.Operator.Halo2.Split.{halo2_args-cut}
use beluuga.Operator.Halo2.Encode.{encode_key, halo2_args-encode}
use beluuga.Operator.Halo2.Buffers.{lengths_in_buffers}

abbrev short_key : VerificationData
short_key = record {
  proving_system_id = 5;
  proof = of_list (3 ∷ []);
  pub_input = of_list (4 ∷ []);
  verification_key = of_list (1 ∷ 0 ∷ 0 ∷ 0 ∷ 9 ∷ 0 ∷ 0 ∷ 0 ∷ 1 ∷ 0 ∷ 0 ∷ 0 ∷ 21 ∷ 22 ∷ 23 ∷ []);
  vm_program_code = of_list [];
}

abbrev good_key : VerificationData
good_key = record short_key {
  verification_key = of_list (encode_key (21 ∷ []) (22 ∷ []) (23 ∷ []));
}

halo2_args-cut_example : halo2_args halo2_ipa_sizes short_key ≡ panicked
unfolding little_endian_u32 copy
halo2_args-cut_example =
    halo2_args-cut halo2_ipa_sizes short_key (record { len-le-cap = omega arith }) (ground arith)
      (omega arith)

halo2_args-encode_example :
    halo2_args halo2_kzg_sizes good_key
    ≡ returned (record {
      proof = copy (make_bytes 8192) (3 ∷ []);
      proof_len = 1;
      cs = copy (make_bytes 2048) (21 ∷ []);
      cs_len = 1;
      vk = copy (make_bytes 1024) (22 ∷ []);
      vk_len = 1;
      params = copy (make_bytes 4096) (23 ∷ []);
      params_len = 1;
      public_input = copy (make_bytes 4096) (4 ∷ []);
      public_input_len = 1;
    })
halo2_args-encode_example =
    halo2_args-encode halo2_kzg_sizes short_key (21 ∷ []) (22 ∷ []) (23 ∷ []) (ground arith)
      (omega arith)

abbrev small_sizes : Sizes
small_sizes = record {
  max_proof_size = 2;
  max_constraint_system_size = 2;
  max_verifier_key_size = 0;
  max_params_size = 2;
  max_public_input_size = 0;
}

lengths_in_buffers_example :
    ((length_field good_key.verification_key 0 4 ≡ returned 1)
      × (length_field good_key.verification_key 4 8 ≡ returned 1)
      × (length_field good_key.verification_key 8 12 ≡ returned 1))
    × ((1 ≤ 2) ↔ (1 ≤ 2))
    × ((1 ≤ 0) ↔ (1 ≤ 0))
    × ((1 ≤ 2) ↔ (1 ≤ 2))
    × ((1 ≤ 0) ↔ (1 ≤ 0))
    × ((1 ≤ 2) ↔ (1 ≤ 2))
unfolding halo2_args length_field slice_range little_endian_u32 copy slice_from
lengths_in_buffers_example =
    lengths_in_buffers small_sizes good_key refl (omega arith) (omega arith)
