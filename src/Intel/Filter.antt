-- ===== src/Intel/Filter.antt =====
-- The filter for addresses in source/kernel/intel_8254xx.c.
use kernel_on_qemu.Prelude.{ℕ, ◌+◌, ◌-◌, ◌*◌, ◌/◌, ◌%◌, ◌^◌, ◌<◌, ◌≡◌, refl, [], ◌∷◌, ◌++◌, arith}
use kernel_on_qemu.Bytes.{Bytes}
use kernel_on_qemu.Bytes.Range.{IsBytes}
use kernel_on_qemu.Intel.{
  IntelDevice, mmio_write, address_low, address_high, intel_8254xx_rar_add, reg_ral0, reg_rah0,
}

-- The address that a valid pair of registers stands for.
abbrev pub Filters : (eth : Bytes) → (low high : ℕ) → Type 0
Filters eth low high =
    (low % 2 ^ 8 ≡ eth 0)
    × (low / 2 ^ 8 % 2 ^ 8 ≡ eth 1)
    × (low / 2 ^ 16 % 2 ^ 8 ≡ eth 2)
    × (low / 2 ^ 24 ≡ eth 3)
    × (high % 2 ^ 8 ≡ eth 4)
    × (high / 2 ^ 8 % 2 ^ 8 ≡ eth 5)
    × (high / 2 ^ 31 ≡ 1)

-- Adding an address writes the next pair of registers of the filter, and they stand for that address
-- and are valid; the pair after it is next.
pub rar_add_lem :
    (d : IntelDevice) (eth : Bytes)
    → IsBytes eth
    → d.rar_count < 2 ^ 32 - 1
    → (low : ℕ) × (high : ℕ) × Filters eth low high
      × ((intel_8254xx_rar_add d eth).writes
          ≡ d.writes
            ++ ((reg_ral0 + 8 * d.rar_count, low) ∷ [])
            ++ ((reg_rah0 + 8 * d.rar_count, high) ∷ []))
      × ((intel_8254xx_rar_add d eth).rar_count ≡ d.rar_count + 1)
unfolding intel_8254xx_rar_add mmio_write
rar_add_lem d eth b lt =
    let b0 = b 0 in
    let b1 = b 1 in
    let b2 = b 2 in
    let b3 = b 3 in
    let b4 = b 4 in
    let b5 = b 5 in
    (
      address_low eth,
      address_high eth,
      (
        omega (arith, b0, b1, b2, b3),
        omega (arith, b0, b1, b2, b3),
        omega (arith, b0, b1, b2, b3),
        omega (arith, b0, b1, b2, b3),
        omega (arith, b4, b5),
        omega (arith, b4, b5),
        omega (arith, b4, b5),
      ),
      refl,
      omega (arith, lt),
    )
