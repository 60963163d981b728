-- ===== src/Checksum/Laws.antt =====
-- The arithmetic of source/kernel/checksum.c modulo 2 ^ 16 - 1.
use kernel_on_qemu.Prelude.{ℕ, ◌+◌, ◌%◌, ◌^◌, ◌<◌, ◌≡◌, ◌≢◌, arith}
use kernel_on_qemu.Words.{netswap16}
use kernel_on_qemu.Checksum.{netchecksum_final}

-- Adding the stored checksum to a sum of 32 bits gives a multiple of 2 ^ 16 - 1.
pub netchecksum_final_cancels :
    (sum : ℕ) → sum < 2 ^ 32 → (sum + netswap16 (netchecksum_final sum)) % 0xffff ≡ 0
unfolding netswap16 netchecksum_final
netchecksum_final_cancels sum h = omega arith

-- A sum that is a multiple of 2 ^ 16 - 1, and not 0, passes the receiver's check.
pub netchecksum_final_of_multiple :
    (sum : ℕ) → sum < 2 ^ 32 → sum ≢ 0 → sum % 0xffff ≡ 0 → netchecksum_final sum ≡ 0
unfolding netchecksum_final
netchecksum_final_of_multiple sum h nz e = omega arith
