-- ===== src/Intel/Started.antt =====
-- What `intel_8254xx_init` of source/kernel/intel_8254xx.c leaves.
use kernel_on_qemu.Prelude.{List, [], ◌∷◌, if◌then◌else◌, ℕ, ◌+◌, ◌*◌, ◌/◌, ◌%◌, ◌^◌, ◌≡◌, ◌==◌}
use kernel_on_qemu.Bytes.{Bytes}
use kernel_on_qemu.Intel.{IntelDevice}

-- The address of the card holds a word of the EEPROM, the low byte first.
abbrev pub HoldsWord : (m : Bytes) (i eerd : ℕ) → Type 0
HoldsWord m i eerd = m i + m (i + 1) * 2 ^ 8 ≡ eerd / 2 ^ 16 % 2 ^ 16

-- What was last written to a register, or `x`.
unfoldable pub last_write : (offset x : ℕ) → List (ℕ × ℕ) → ℕ
last_write offset x [] = x
last_write offset x ((o, v) ∷ l) = last_write offset (if o == offset then v else x) l

-- The value that a register of the card has been given, or 0.
unfoldable pub register : (offset : ℕ) → IntelDevice → ℕ
unfolding last_write
register offset d = last_write offset 0 d.writes
