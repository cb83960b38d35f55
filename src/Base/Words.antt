-- ===== src/Base/Words.antt =====
-- Machine words: `size_t` arithmetic of a 64-bit target, with its wrap-around.
use Prim.Native.Nat.{ℕ, ◌+◌, ◌-◌, ◌%◌, ◌^◌}

abbrev pub size_mod : ℕ
size_mod = 2 ^ 64

abbrev pub size_add : ℕ → ℕ → ℕ
size_add a b = (a + b) % size_mod

-- `-` on ℕ stops at 0, so the modulus is added first; both arguments are below it.
abbrev pub size_sub : ℕ → ℕ → ℕ
size_sub a b = (a + size_mod - b) % size_mod

-- `uint32_t` subtraction.
abbrev pub u32_sub : ℕ → ℕ → ℕ
u32_sub a b = (a + 2 ^ 32 - b) % 2 ^ 32
