-- ===== src/Base/Rounding.antt =====
-- Machine words of 64, 32 and 16 bits and the roundings that the source writes with shifts and masks.
-- `x >> s` is `x / 2 ^ s`, `x & (2 ^ s - 1)` is `x % 2 ^ s`, and `x & !(p - 1)` for a power of two
-- `p` is `x - x % p`.
use Prim.Native.Nat.{ℕ, ◌+◌, ◌-◌, ◌/◌, ◌%◌, ◌^◌}

-- A result kept in a `usize`, a `u64`, a `u32` and a `u16`.
abbrev pub usize : ℕ → ℕ
usize n = n % 2 ^ 64

abbrev pub u64 : ℕ → ℕ
u64 n = n % 2 ^ 64

abbrev pub u32 : ℕ → ℕ
u32 n = n % 2 ^ 32

abbrev pub u16 : ℕ → ℕ
u16 n = n % 2 ^ 16

-- `a - b` on a `usize`, a `u32` and a `u16`, which wrap where `b` is the larger.
abbrev pub usize_sub : ℕ → ℕ → ℕ
usize_sub a b = usize (a + 2 ^ 64 - b)

abbrev pub u32_sub : ℕ → ℕ → ℕ
u32_sub a b = u32 (a + 2 ^ 32 - b)

abbrev pub u16_sub : ℕ → ℕ → ℕ
u16_sub a b = u16 (a + 2 ^ 16 - b)

-- `x.div_ceil(d)`.
abbrev pub div_ceil : ℕ → ℕ → ℕ
div_ceil x d = (x + d - 1) / d

-- `(x + p - 1) & !(p - 1)` for a power of two `p`.
abbrev pub align_up : ℕ → ℕ → ℕ
align_up x p = usize (x + p - 1) - usize (x + p - 1) % p
