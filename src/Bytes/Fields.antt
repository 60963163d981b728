-- ===== src/Bytes/Fields.antt =====
-- Reading back the 32-bit fields of an object.
use kernel_on_qemu.Prelude.{ℕ, ◌+◌, ◌^◌, ◌≤◌, ◌<◌, ◌≡◌, ap, ◌∙◌, arith}
use kernel_on_qemu.Words.{netswap32, netswap32-lt, netswap32-netswap32}
use kernel_on_qemu.Bytes.{Bytes, write8, write32, read32}

module _ (m : Bytes) (a v : ℕ) where
  pub read32-write32_self : v < 2 ^ 32 → read32 (write32 m a v) a ≡ v
  unfolding read32 write32 write8
  read32-write32_self h = ground arith

  pub read32-write32_below : (b : ℕ) → b + 4 ≤ a → read32 (write32 m a v) b ≡ read32 m b
  unfolding read32 write32 write8
  read32-write32_below b h = ground arith

-- A 32-bit field in network order reads back.
pub network_field :
    (m : Bytes) (a v : ℕ) → v < 2 ^ 32 → netswap32 (read32 (write32 m a (netswap32 v)) a) ≡ v
network_field m a v h =
    ap netswap32 (read32-write32_self m a (netswap32 v) (netswap32-lt v)) ∙ netswap32-netswap32 v h
