-- ===== src/Words.antt =====
-- Machine words: the unsigned integers of the C code as numbers below a power of two, and the byte
-- order of the network (source/kernel/netswap.h). A shift by k is `* 2 ^ k` or `/ 2 ^ k`. An `|` of
-- values whose bits do not overlap is a sum.
mod Swap
unfoldable pub use Swap.*
use kernel_on_qemu.Prelude.{ℕ, ◌+◌, ◌-◌, ◌*◌, ◌/◌, ◌%◌, ◌^◌}

-- The conversions to `uint8_t`, `uint16_t` and `uint32_t`.
abbrev pub u8 : ℕ → ℕ
u8 n = n % 2 ^ 8

abbrev pub u16 : ℕ → ℕ
u16 n = n % 2 ^ 16

abbrev pub u32 : ℕ → ℕ
u32 n = n % 2 ^ 32

-- `a - b` of two `uint32_t`, which wraps.
abbrev pub sub32 : ℕ → ℕ → ℕ
sub32 a b = (a + 2 ^ 32 - b) % 2 ^ 32
