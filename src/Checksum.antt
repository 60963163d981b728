-- ===== src/Checksum.antt =====
-- source/kernel/checksum.c: the Internet checksum over the bytes of one object.
pub mod Laws
pub mod Verify
use kernel_on_qemu.Prelude.{ℕ, zero, suc, ◌+◌, ◌-◌, ◌*◌, ◌/◌, ◌%◌, ◌^◌}
use kernel_on_qemu.Words.{u16, u32, sub32}
use kernel_on_qemu.Bytes.{Bytes, read16}

-- The loop and the test behind it: `len` bytes are left, from offset `p` on.
unfoldable pub netchecksum_loop : Bytes → ℕ → ℕ → ℕ → ℕ
unfolding read16
netchecksum_loop m zero p sum = sum
netchecksum_loop m (suc zero) p sum = u32 (sum + m p)
netchecksum_loop m (suc (suc len)) p sum = netchecksum_loop m len (p + 2) (u32 (sum + read16 m p))

unfoldable pub netchecksum_acc : Bytes → (start end sum : ℕ) → ℕ
unfolding netchecksum_loop
netchecksum_acc m start end sum = netchecksum_loop m (sub32 end start) start sum

unfoldable pub netchecksum_final : ℕ → ℕ
netchecksum_final sum =
    let folded = u32 (sum % 2 ^ 16 + sum / 2 ^ 16) in
    let folded_twice = u32 (folded + folded / 2 ^ 16) in
    let temp = u16 (2 ^ 32 - 1 - folded_twice) in (temp % 2 ^ 8) * 2 ^ 8 + temp / 2 ^ 8

unfoldable pub netchecksum : Bytes → (start end : ℕ) → ℕ
unfolding netchecksum_acc netchecksum_final
netchecksum m start end = netchecksum_final (netchecksum_acc m start end 0)
