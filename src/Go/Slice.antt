-- ===== src/Go/Slice.antt =====
-- Go's `[]byte`: the bytes from the slice's start to its capacity, of which `len` belong to it.
use beluuga.Prelude.{
  ℕ, ◌+◌, ◌-◌, ◌*◌, ◌≤◌, ◌≡◌, ◌&&◌, List, ◌∷◌, ◌++◌, length, take, drop, replicate, leb,
  if◌then◌else◌, arith, length-append, length-take, length-drop,
}
use beluuga.Go.Outcome.{Outcome, returned, panicked}

pub record Slice : Type 0 where
  pub backing : List ℕ
  pub len : ℕ

abbrev pub cap : Slice → ℕ
cap s = length s.backing

-- What every slice of a running program satisfies.
pub record IsSlice (s : Slice) : Type 0 where
  pub len-le-cap : s.len ≤ length s.backing

-- A slice whose capacity is its length.
abbrev pub of_list : List ℕ → Slice
of_list xs = record { backing = xs; len = length xs }

-- The bytes that a reader of the slice sees.
abbrev pub bytes : Slice → List ℕ
bytes s = take s.len s.backing

-- `s[a:b]`: the upper bound may go up to the capacity.
unfoldable pub slice_range : Slice → ℕ → ℕ → Outcome Slice
slice_range s a b =
    if leb a b && leb b (length s.backing)
    then returned (record { backing = drop a s.backing; len = b - a })
    else panicked

-- `s[a:]`: the upper bound is the length.
unfoldable pub slice_from : Slice → ℕ → Outcome Slice
slice_from s a =
    if leb a s.len
    then returned (record { backing = drop a s.backing; len = s.len - a })
    else panicked

-- `make([]byte, n)`
abbrev pub make_bytes : ℕ → List ℕ
make_bytes n = replicate n 0

-- `copy(dst, src)`: as many bytes as both have.
unfoldable pub copy : List ℕ → List ℕ → List ℕ
copy dst src = take (length dst) src ++ drop (length src) dst

pub length-copy : (dst src : List ℕ) → length (copy dst src) ≡ length dst
unfolding copy
length-copy dst src = omega (
  arith,
  length-append (take (length dst) src) (drop (length src) dst),
  length-take (length dst) src,
  length-drop (length src) dst,
)

-- `binary.LittleEndian.Uint32` of a buffer of four bytes.
unfoldable pub little_endian_u32 : List ℕ → ℕ
little_endian_u32 (a ∷ b ∷ c ∷ d ∷ _) = a + 256 * b + 65536 * c + 16777216 * d
little_endian_u32 _ = 0
