-- ===== src/Bytes.antt =====
-- The bytes of memory objects, and memset and memcpy of source/kernel/memory.c.
-- A page that kalloc returned, or a buffer on a stack, is an object with bytes of its own, and a
-- pointer into it is an offset. The kernel copies between different objects only.
pub mod Laws
pub mod Fields
pub mod Range
use kernel_on_qemu.Prelude.{ℕ, zero, suc, ◌+◌, ◌*◌, ◌/◌, ◌%◌, ◌^◌, ◌==◌, if◌then◌else◌}
use kernel_on_qemu.Words.{u8}

-- What each offset of an object holds.
abbrev pub Bytes : Type 0
Bytes = ℕ → ℕ

unfoldable pub write8 : Bytes → ℕ → ℕ → Bytes
write8 m a v x = if x == a then v else m x

-- Words are stored with the low byte first.
unfoldable pub write16 : Bytes → ℕ → ℕ → Bytes
unfolding write8
write16 m a v = write8 (write8 m a (u8 v)) (a + 1) (u8 (v / 2 ^ 8))

unfoldable pub write32 : Bytes → ℕ → ℕ → Bytes
unfolding write8
write32 m a v =
    write8 (write8 (write8 (write8 m a (u8 v)) (a + 1) (u8 (v / 2 ^ 8))) (a + 2) (u8 (v / 2 ^ 16)))
      (a + 3) (u8 (v / 2 ^ 24))

unfoldable pub read16 : Bytes → ℕ → ℕ
read16 m a = m a + m (a + 1) * 2 ^ 8

unfoldable pub read32 : Bytes → ℕ → ℕ
read32 m a = m a + m (a + 1) * 2 ^ 8 + m (a + 2) * 2 ^ 16 + m (a + 3) * 2 ^ 24

-- The loop runs `num` times; its pointer is the second argument.
unfoldable pub memset : Bytes → ℕ → ℕ → ℕ → Bytes
unfolding write8
memset m ptr value zero = m
memset m ptr value (suc num) = memset (write8 m ptr value) (ptr + 1) value num

-- Copies from offset `s` of `src` to offset `d` of `dst`.
unfoldable pub memcpy : Bytes → ℕ → Bytes → ℕ → ℕ → Bytes
unfolding write8
memcpy dst d src s zero = dst
memcpy dst d src s (suc num) = memcpy (write8 dst d (src s)) (d + 1) src (s + 1) num
