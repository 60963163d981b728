-- ===== src/Words/Swap.antt =====
-- netswap16 and netswap32 of source/kernel/netswap.h.
use kernel_on_qemu.Prelude.{ℕ, ◌+◌, ◌*◌, ◌/◌, ◌%◌, ◌^◌, ◌<◌, ◌≡◌, arith}

unfoldable pub netswap16 : ℕ → ℕ
netswap16 value =
    let low = value % 2 ^ 8 in let high = (value / 2 ^ 8) % 2 ^ 8 in low * 2 ^ 8 + high

unfoldable pub netswap32 : ℕ → ℕ
netswap32 value =
    let low = value % 2 ^ 8 in
    let mid_low = (value / 2 ^ 8) % 2 ^ 8 in
    let mid_high = (value / 2 ^ 16) % 2 ^ 8 in
    let high = (value / 2 ^ 24) % 2 ^ 8 in low * 2 ^ 24 + mid_low * 2 ^ 16 + mid_high * 2 ^ 8 + high

pub netswap16-lt : (v : ℕ) → netswap16 v < 2 ^ 16
unfolding netswap16
netswap16-lt v = omega arith

pub netswap32-lt : (v : ℕ) → netswap32 v < 2 ^ 32
unfolding netswap32
netswap32-lt v = omega arith

-- Swapping the bytes of a 32-bit word twice gives the word back.
pub netswap32-netswap32 : (v : ℕ) → v < 2 ^ 32 → netswap32 (netswap32 v) ≡ v
unfolding netswap32
netswap32-netswap32 v h = omega arith
