-- ===== src/Operator/Halo2/Buffers.antt =====
-- The arrays that go to the verifier's foreign function, against the lengths that go with them.
use beluuga.Prelude.{ℕ, ◌+◌, ◌≡◌, ◌≤◌, ◌<◌, ◌↔◌, List, length, arith, length-replicate}
use beluuga.Go.Word.{u32, u32_mod}
use beluuga.Go.Outcome.{returned, >>=-eq-returned, returned-injective}
use beluuga.Go.Slice.{make_bytes, slice_range, slice_from, copy, length-copy, bytes}
use beluuga.Operator.Data.{VerificationData}
use beluuga.Operator.Halo2.{Sizes, Halo2Args, length_field, halo2_args}

length-buffer : (n : ℕ) (xs : List ℕ) → length (copy (make_bytes n) xs) ≡ n
length-buffer n xs = omega (arith, length-copy (make_bytes n) xs, length-replicate {A = ℕ} n 0)

module _ (sizes : Sizes) (v : VerificationData) where
  -- When the arguments are passed on and the slices are below 4 GiB: the lengths that go with the
  -- constraint system, the key and the parameters are the first three fields of four bytes of the
  -- verification key, those of the proof and the public input are theirs; and for each of the five, the
  -- length lies within its array exactly when it is no more than that array's fixed size.
  pub lengths_in_buffers :
      {args : Halo2Args}
      → halo2_args sizes v ≡ returned args
      → v.proof.len < u32_mod
      → v.pub_input.len < u32_mod
      → ((length_field v.verification_key 0 4 ≡ returned args.cs_len)
          × (length_field v.verification_key 4 8 ≡ returned args.vk_len)
          × (length_field v.verification_key 8 12 ≡ returned args.params_len))
        × ((args.proof_len ≤ length args.proof) ↔ (v.proof.len ≤ sizes.max_proof_size))
        × ((args.public_input_len ≤ length args.public_input)
            ↔ (v.pub_input.len ≤ sizes.max_public_input_size))
        × ((args.cs_len ≤ length args.cs) ↔ (args.cs_len ≤ sizes.max_constraint_system_size))
        × ((args.vk_len ≤ length args.vk) ↔ (args.vk_len ≤ sizes.max_verifier_key_size))
        × ((args.params_len ≤ length args.params) ↔ (args.params_len ≤ sizes.max_params_size))
  unfolding halo2_args
  lengths_in_buffers {args} h p q =
      let key = v.verification_key in
      let (cs_len, e1, h1) = >>=-eq-returned (length_field key 0 4) _ h in
      let (vk_len, e2, h2) = >>=-eq-returned (length_field key 4 8) _ h1 in
      let (params_len, e3, h3) = >>=-eq-returned (length_field key 8 12) _ h2 in
      let (cs, e4, h4) = >>=-eq-returned (slice_range key 12 (u32 (12 + cs_len))) _ h3 in
      let at = u32 (12 + cs_len) in
      let (vk, e5, h5) = >>=-eq-returned (slice_range key at (u32 (at + vk_len))) _ h4 in
      let (params, e6, h6) = >>=-eq-returned (slice_from key (u32 (at + vk_len))) _ h5 in
      let same = returned-injective h6 in
      rw (← same) (
        (e1, e2, e3),
        omega (arith, length-buffer sizes.max_proof_size (bytes v.proof)),
        omega (arith, length-buffer sizes.max_public_input_size (bytes v.pub_input)),
        omega (arith, length-buffer sizes.max_constraint_system_size (bytes cs)),
        omega (arith, length-buffer sizes.max_verifier_key_size (bytes vk)),
        omega (arith, length-buffer sizes.max_params_size (bytes params)),
      )
