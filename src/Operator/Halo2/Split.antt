-- ===== src/Operator/Halo2/Split.antt =====
-- How the verification key of a Halo2 proof is cut up, without the wrap-around of the offsets.
use beluuga.Prelude.{
  ℕ, zero, suc, ◌⊎◌, ◌+◌, ◌-◌, ◌≡◌, ◌≤◌, ◌<◌, List, [], ◌∷◌, length, take, drop, leb, if◌then◌else◌,
  arith, ◌++◌,
}
use native.Mathlib.Decide.{dec_lt}
use beluuga.Go.Word.{u32, u32_mod}
use beluuga.Go.Outcome.{returned, panicked}
use beluuga.Go.Slice.{
  Slice, IsSlice, bytes, slice_range, slice_from, make_bytes, copy, little_endian_u32,
}
use beluuga.Operator.Data.{VerificationData}
use beluuga.Operator.Halo2.{Sizes, Halo2Args, length_field, halo2_args}

-- Each element is a byte.
abbrev pub AreBytes : List ℕ → Type 0
AreBytes [] = Unit
AreBytes (x ∷ xs) = (x < 256) × AreBytes xs

abbrev pub length_at : Slice → ℕ → ℕ
length_at key a = little_endian_u32 (copy (make_bytes 4) (take 4 (drop a key.backing)))

little_endian-lt : (xs : List ℕ) → AreBytes xs → little_endian_u32 xs < u32_mod
unfolding little_endian_u32
little_endian-lt [] h = omega arith
little_endian-lt (a ∷ []) h = omega arith
little_endian-lt (a ∷ b ∷ []) h = omega arith
little_endian-lt (a ∷ b ∷ c ∷ []) h = omega arith
little_endian-lt (a ∷ b ∷ c ∷ d ∷ r) h = omega arith

AreBytes-take : (n : ℕ) (xs : List ℕ) → AreBytes xs → AreBytes (take n xs)
AreBytes-take zero xs h = tt
AreBytes-take (suc n) [] h = tt
AreBytes-take (suc n) (x ∷ xs) h = (h.0, AreBytes-take n xs h.1)

AreBytes-drop : (n : ℕ) (xs : List ℕ) → AreBytes xs → AreBytes (drop n xs)
AreBytes-drop zero xs h = h
AreBytes-drop (suc n) [] h = tt
AreBytes-drop (suc n) (x ∷ xs) h = AreBytes-drop n xs h.1

pub AreBytes-append : (xs ys : List ℕ) → AreBytes xs → AreBytes ys → AreBytes (xs ++ ys)
AreBytes-append [] ys h k = k
AreBytes-append (x ∷ xs) ys h k = (h.0, AreBytes-append xs ys h.1 k)

length_at-lt : (key : Slice) (a : ℕ) → AreBytes key.backing → length_at key a < u32_mod
unfolding copy
length_at-lt key a h =
    let field = take 4 (drop a key.backing) in
    let field_bytes = AreBytes-take 4 (drop a key.backing) (AreBytes-drop a key.backing h) in
    little_endian-lt (copy (make_bytes 4) field) (
      AreBytes-append (take 4 field) (drop (length field) (make_bytes 4))
        (AreBytes-take 4 field field_bytes)
        (AreBytes-drop (length field) (make_bytes 4) (omega arith)))

slice_range-in :
    (s : Slice) (a b : ℕ)
    → a ≤ b
    → b ≤ length s.backing
    → slice_range s a b ≡ returned (record { backing = drop a s.backing; len = b - a })
unfolding slice_range
slice_range-in s a b p q = ground arith

slice_range-out :
    (s : Slice) (a b : ℕ) → (b < a) ⊎ (length s.backing < b) → slice_range s a b ≡ panicked
unfolding slice_range
slice_range-out s a b h = ground arith

slice_from-in :
    (s : Slice) (a : ℕ)
    → a ≤ s.len
    → slice_from s a ≡ returned (record { backing = drop a s.backing; len = s.len - a })
unfolding slice_from
slice_from-in s a p = ground arith

slice_from-out : (s : Slice) (a : ℕ) → s.len < a → slice_from s a ≡ panicked
unfolding slice_from
slice_from-out s a p = ground arith

length_field-in :
    (key : Slice) (a b : ℕ)
    → a + 4 ≡ b
    → b ≤ length key.backing
    → length_field key a b ≡ returned (length_at key a)
unfolding length_field
length_field-in key a b e q =
    let four : b - a ≡ 4 = omega arith in
    ground (arith, slice_range-in key a b (omega arith) q, four)

-- The bytes that the three lengths and the first two parts take.
abbrev pub needed : Slice → ℕ
needed key = 12 + length_at key 0 + length_at key 4

module _ (sizes : Sizes) (v : VerificationData) where
  open v use {verification_key as key}

  abbrev cs_len : ℕ
  cs_len = length_at key 0

  abbrev vk_len : ℕ
  vk_len = length_at key 4

  -- The parts of the key, one behind the other.
  unfoldable pub cut_args : Halo2Args
  cut_args = record {
    proof = copy (make_bytes sizes.max_proof_size) (bytes v.proof);
    proof_len = u32 v.proof.len;
    cs = copy (make_bytes sizes.max_constraint_system_size) (take cs_len (drop 12 key.backing));
    cs_len = cs_len;
    vk =
        copy (make_bytes sizes.max_verifier_key_size)
          (take vk_len (drop (12 + cs_len) key.backing));
    vk_len = vk_len;
    params =
        copy (make_bytes sizes.max_params_size)
          (take (key.len - needed key) (drop (needed key) key.backing));
    params_len = length_at key 8;
    public_input = copy (make_bytes sizes.max_public_input_size) (bytes v.pub_input);
    public_input_len = u32 v.pub_input.len;
  }

  module _ (s : IsSlice key) (b : AreBytes key.backing) (small : length key.backing < u32_mod) where
    too_short : length key.backing < 12 → halo2_args sizes v ≡ panicked
    unfolding halo2_args length_field slice_range
    too_short h = ground arith

    -- An offset that leaves the capacity is seen, wrapped or not.
    wrapped :
        (o n : ℕ)
        → n < u32_mod
        → o ≤ length key.backing
        → length key.backing < o + n
        → (u32 (o + n) < o) ⊎ (length key.backing < u32 (o + n))
    wrapped o n lt le out = omega arith

    abbrev Cut : Type 0
    Cut = halo2_args sizes v ≡ (if leb (needed key) key.len then returned cut_args else panicked)

    first_fields :
        12 ≤ length key.backing
        → (length_field key 0 4 ≡ returned cs_len)
          × (length_field key 4 8 ≡ returned vk_len)
          × (length_field key 8 12 ≡ returned (length_at key 8))
    first_fields h = (
      length_field-in key 0 4 (omega arith) (omega arith),
      length_field-in key 4 8 (omega arith) (omega arith),
      length_field-in key 8 12 (omega arith) (omega arith),
    )

    both_parts_fit : 12 + cs_len + vk_len ≤ length key.backing → Cut
    unfolding halo2_args cut_args
    both_parts_fit h =
        let (f0, f4, f8) = first_fields (omega arith) in
        let o : u32 (12 + cs_len) ≡ 12 + cs_len = omega arith in
        let o' : u32 (12 + cs_len + vk_len) ≡ 12 + cs_len + vk_len = omega arith in
        let a : 12 + cs_len - 12 ≡ cs_len = omega arith in
        let a' : 12 + cs_len + vk_len - (12 + cs_len) ≡ vk_len = omega arith in
        let first = slice_range-in key 12 (12 + cs_len) (omega arith) (omega arith) in
        let second =
          slice_range-in key (12 + cs_len) (12 + cs_len + vk_len) (omega arith) (omega arith) in
        elim (dec_lt key.len (needed key)) [
          | yes short ↦
              ground
                (arith, f0, f4, f8, o, first, o', second, slice_from-out key (needed key) short)
          | no enough ↦ ground (
            arith,
            f0,
            f4,
            f8,
            o,
            first,
            a,
            o',
            second,
            a',
            slice_from-in key (needed key) (omega arith),
          )
        ]

    constraint_system_fits : 12 + cs_len ≤ length key.backing → Cut
    unfolding halo2_args
    constraint_system_fits h = elim (dec_lt (length key.backing) (12 + cs_len + vk_len)) [
      | no fits ↦ both_parts_fit (omega arith)
      | yes out ↦
          let (f0, f4, f8) = first_fields (omega arith) in
          let o : u32 (12 + cs_len) ≡ 12 + cs_len = omega arith in
          let first = slice_range-in key 12 (12 + cs_len) (omega arith) (omega arith) in
          let past =
            slice_range-out key (12 + cs_len) (u32 (12 + cs_len + vk_len))
              (wrapped (12 + cs_len) vk_len (length_at-lt key 4 b) (omega arith) out) in
          ground (arith, f0, f4, f8, s.len-le-cap, o, first, past)
    ]

    split_with_header : 12 ≤ length key.backing → Cut
    unfolding halo2_args
    split_with_header h = elim (dec_lt (length key.backing) (12 + cs_len)) [
      | no fits ↦ constraint_system_fits (omega arith)
      | yes out ↦
          let (f0, f4, f8) = first_fields h in
          let past =
            slice_range-out key 12 (u32 (12 + cs_len))
              (wrapped 12 cs_len (length_at-lt key 0 b) h out) in
          ground (arith, f0, f4, f8, s.len-le-cap, past)
    ]

  -- For a key of real bytes below 4 GiB, the case of `verify` panics exactly when the key is shorter
  -- than its own lengths say, and otherwise passes on the parts of the key, one behind the other: no
  -- wrap-around of an offset goes unnoticed.
  pub halo2_args-cut :
      IsSlice key
      → AreBytes key.backing
      → length key.backing < u32_mod
      → halo2_args sizes v ≡ (if leb (needed key) key.len then returned cut_args else panicked)
  halo2_args-cut s b small = elim (dec_lt (length key.backing) 12) [
    | yes h ↦ ground (arith, too_short s b small h, s.len-le-cap)
    | no h ↦ split_with_header s b small (omega arith)
  ]
