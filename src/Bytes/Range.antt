-- ===== src/Bytes/Range.antt =====
-- The values of the bytes of an object.
use kernel_on_qemu.Prelude.{ℕ, zero, suc, ◌+◌, ◌<◌, arith}
use kernel_on_qemu.Bytes.{Bytes, write8, write16, write32, memset, memcpy}

abbrev pub IsBytes : Bytes → Type 0
IsBytes m = (x : ℕ) → m x < 256

pub write8-IsBytes : (m : Bytes) (a v : ℕ) → IsBytes m → v < 256 → IsBytes (write8 m a v)
unfolding write8
write8-IsBytes m a v b h x = ground (arith, b x)

pub write16-IsBytes : (m : Bytes) (a v : ℕ) → IsBytes m → IsBytes (write16 m a v)
unfolding write16
write16-IsBytes m a v b x = ground (arith, b x)

pub write32-IsBytes : (m : Bytes) (a v : ℕ) → IsBytes m → IsBytes (write32 m a v)
unfolding write32
write32-IsBytes m a v b x = ground (arith, b x)

pub memset-IsBytes : (m : Bytes) (a v num : ℕ) → IsBytes m → v < 256 → IsBytes (memset m a v num)
unfolding memset
memset-IsBytes m a v zero b h = b
memset-IsBytes m a v (suc num) b h =
    memset-IsBytes (write8 m a v) (a + 1) v num (write8-IsBytes m a v b h) h

pub memcpy-IsBytes :
    (dst : Bytes) (d : ℕ) (src : Bytes) (s num : ℕ)
    → IsBytes dst
    → IsBytes src
    → IsBytes (memcpy dst d src s num)
unfolding memcpy
memcpy-IsBytes dst d src s zero b c = b
memcpy-IsBytes dst d src s (suc num) b c =
    memcpy-IsBytes (write8 dst d (src s)) (d + 1) src (s + 1) num
      (write8-IsBytes dst d (src s) b (c s)) c
