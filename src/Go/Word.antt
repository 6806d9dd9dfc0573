-- ===== src/Go/Word.antt =====
-- Unsigned words of Go. Arithmetic wraps.
use beluuga.Prelude.{ℕ, ◌%◌}

abbrev pub u32_mod : ℕ
u32_mod = 4294967296

abbrev pub u64_mod : ℕ
u64_mod = 18446744073709551616

-- The conversion `uint32(n)`, and the wrap of an operation on `uint32`.
abbrev pub u32 : ℕ → ℕ
u32 n = n % 4294967296

abbrev pub u64 : ℕ → ℕ
u64 n = n % 18446744073709551616
