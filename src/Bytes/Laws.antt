-- ===== src/Bytes/Laws.antt =====
-- What memset and memcpy leave at every offset.
use kernel_on_qemu.Prelude.{ℕ, zero, suc, ◌+◌, ◌-◌, ◌≡◌, ◌&&◌, arith, ltb, leb, if◌then◌else◌}
use kernel_on_qemu.Bytes.{Bytes, write8, memset, memcpy}

-- memset stores the value at the `num` offsets from `ptr` on, and leaves every other byte.
pub memset_lem :
    (m : Bytes) (ptr value num x : ℕ)
    → memset m ptr value num x ≡ (if leb ptr x && ltb x (ptr + num) then value else m x)
unfolding memset
memset_lem m ptr value zero x = ground arith
memset_lem m ptr value (suc num) x =
    ground (arith, memset_lem (write8 m ptr value) (ptr + 1) value num x)

-- memcpy moves the `num` bytes from `s` on to the offsets from `d` on, and leaves every other byte.
pub memcpy_lem :
    (dst : Bytes) (d : ℕ) (src : Bytes) (s num x : ℕ)
    → memcpy dst d src s num x ≡ (if leb d x && ltb x (d + num) then src (s + (x - d)) else dst x)
unfolding memcpy
memcpy_lem dst d src s zero x = ground arith
memcpy_lem dst d src s (suc num) x =
    ground (arith, memcpy_lem (write8 dst d (src s)) (d + 1) src (s + 1) num x)
