-- ===== src/Operator/Halo2/Encode.antt =====
-- A verification key that is put together in the layout that `verify` reads, as the test programs of
-- the Halo2 systems write their parameter files.
use beluuga.Prelude.{
  ℕ, ◌+◌, ◌-◌, ◌/◌, ◌%◌, ◌≡◌, ◌<◌, List, [], ◌∷◌, ◌++◌, length, take, drop, arith, length-append,
  take-length_append, drop-length_append, drop-add, take_all,
}
use beluuga.Go.Word.{u32, u32_mod}
use beluuga.Go.Outcome.{returned}
use beluuga.Go.Slice.{Slice, of_list, bytes, make_bytes, copy, little_endian_u32}
use beluuga.Operator.Data.{VerificationData}
use beluuga.Operator.Halo2.{Sizes, halo2_args}
use beluuga.Operator.Halo2.Split.{
  AreBytes, AreBytes-append, length_at, needed, cut_args, halo2_args-cut,
}

-- The four bytes of a number, the lowest first.
abbrev pub le_bytes : ℕ → List ℕ
le_bytes n = (n % 256) ∷ (n / 256 % 256) ∷ (n / 65536 % 256) ∷ (n / 16777216 % 256) ∷ []

le_bytes-AreBytes : (n : ℕ) → AreBytes (le_bytes n)
le_bytes-AreBytes n = omega arith

abbrev pub encode_key : List ℕ → List ℕ → List ℕ → List ℕ
encode_key cs vk params =
    le_bytes (length cs)
    ++ (le_bytes (length vk) ++ (le_bytes (length params) ++ (cs ++ (vk ++ params))))

module _ (cs vk params : List ℕ) (small : length (cs ++ (vk ++ params)) + 12 < u32_mod) where
  abbrev key : Slice
  key = of_list (encode_key cs vk params)

  total : length (cs ++ (vk ++ params)) ≡ length cs + (length vk + length params)
  total = omega (arith, length-append cs (vk ++ params), length-append vk params)

  cs_field : length_at key 0 ≡ length cs
  unfolding copy little_endian_u32
  cs_field = omega (arith, total)

  vk_field : length_at key 4 ≡ length vk
  unfolding copy little_endian_u32
  vk_field = omega (arith, total)

  params_field : length_at key 8 ≡ length params
  unfolding copy little_endian_u32
  params_field = omega (arith, total)

  cs_part : take (length cs) (drop 12 key.backing) ≡ cs
  cs_part = take-length_append cs (vk ++ params)

  rest_part : drop (12 + length cs) key.backing ≡ vk ++ params
  rest_part = rw (drop-add 12 (length cs) key.backing) (drop-length_append cs (vk ++ params))

  params_part : drop (12 + length cs + length vk) key.backing ≡ params
  params_part =
      rw (drop-add (12 + length cs) (length vk) key.backing, rest_part)
        (drop-length_append vk params)

  length-key : key.len ≡ 12 + length cs + length vk + length params
  length-key = omega (arith, total)

  cs_cut : take (length_at key 0) (drop 12 key.backing) ≡ cs
  cs_cut = rw cs_field cs_part

  vk_cut : take (length_at key 4) (drop (12 + length_at key 0) key.backing) ≡ vk
  vk_cut = rw (vk_field, cs_field, rest_part) (take-length_append vk params)

  params_cut : take (key.len - needed key) (drop (needed key) key.backing) ≡ params
  params_cut =
      rw (cs_field, vk_field, params_part)
        (take_all (key.len - (12 + length cs + length vk)) params (omega (arith, length-key)))

  key_bytes : AreBytes (cs ++ (vk ++ params)) → AreBytes key.backing
  key_bytes h =
      AreBytes-append (le_bytes (length cs))
        (le_bytes (length vk) ++ (le_bytes (length params) ++ (cs ++ (vk ++ params))))
        (le_bytes-AreBytes (length cs))
        (AreBytes-append (le_bytes (length vk)) (le_bytes (length params) ++ (cs ++ (vk ++ params)))
          (le_bytes-AreBytes (length vk))
          (AreBytes-append (le_bytes (length params)) (cs ++ (vk ++ params))
            (le_bytes-AreBytes (length params)) h))

module _ (sizes : Sizes) (v : VerificationData) (cs vk params : List ℕ) where
  -- A key that is put together from a constraint system, a verifier key and parameters of less than
  -- 4 GiB in all is cut up into these three: each array holds as much of its part as it has room for,
  -- and each length is that of the whole part.
  pub halo2_args-encode :
      AreBytes (cs ++ (vk ++ params))
      → length (cs ++ (vk ++ params)) + 12 < u32_mod
      → halo2_args sizes (record v { verification_key = of_list (encode_key cs vk params) })
        ≡ returned (record {
          proof = copy (make_bytes sizes.max_proof_size) (bytes v.proof);
          proof_len = u32 v.proof.len;
          cs = copy (make_bytes sizes.max_constraint_system_size) cs;
          cs_len = length cs;
          vk = copy (make_bytes sizes.max_verifier_key_size) vk;
          vk_len = length vk;
          params = copy (make_bytes sizes.max_params_size) params;
          params_len = length params;
          public_input = copy (make_bytes sizes.max_public_input_size) (bytes v.pub_input);
          public_input_len = u32 v.pub_input.len;
        })
  unfolding cut_args
  halo2_args-encode are_bytes small =
      let k = of_list (encode_key cs vk params) in
      let whole = length-key cs vk params small in
      let c = cs_field cs vk params small in
      let n = vk_field cs vk params small in
      let cut =
        halo2_args-cut sizes (record v { verification_key = k })
          (record { len-le-cap = omega arith }) (key_bytes cs vk params small are_bytes)
          (omega (arith, length-append cs (vk ++ params))) in
      ground (
        arith,
        cut,
        whole,
        c,
        n,
        params_field cs vk params small,
        cs_cut cs vk params small,
        vk_cut cs vk params small,
        params_cut cs vk params small,
      )
