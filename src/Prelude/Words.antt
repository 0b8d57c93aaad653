-- ===== src/Prelude/Words.antt =====
-- size_t: unsigned 64-bit arithmetic with its wrap-around.
use Prim.Native.Nat.{ℕ, ◌+◌, ◌-◌, ◌%◌, ◌^◌}

abbrev pub size_add : ℕ → ℕ → ℕ
size_add a b = (a + b) % 2 ^ 64

abbrev pub size_sub : ℕ → ℕ → ℕ
size_sub a b = (a + 2 ^ 64 - b) % 2 ^ 64

-- No std::vector of bytes is longer (PTRDIFF_MAX).
abbrev pub max_vector_size : ℕ
max_vector_size = 2 ^ 63 - 1
