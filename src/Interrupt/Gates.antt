-- ===== src/Interrupt/Gates.antt =====
-- Where a handler is registered by source/kernel/interrupt.c, and which interrupt lines are let
-- through.
use kernel_on_qemu.Prelude.{
  ℕ, ◌+◌, ◌*◌, ◌%◌, ◌/◌, ◌^◌, ◌≤◌, ◌<◌, ◌≡◌, ◌≢◌, refl, Bool, true, ap, arith, zero, suc, ◌==◌,
  ◌&&◌, ◌||◌,
}
use native.Mathlib.Decide.{dec_lt}
use kernel_on_qemu.Interrupt.{
  Cpu, register_interrupt, clear_bit, pic_line_enable, pic1_data, pic2_data,
}

-- The address that the processor jumps to: the two halves of the gate.
abbrev pub handler : Cpu → ℕ → ℕ
handler c n = (c.idt n).offset_1 + (c.idt n).offset_2 * 2 ^ 16

-- A registered handler is the one that its interrupt reaches, 32 entries up for a line of the
-- controllers, for an address of 32 bits and a counter that does not wrap; the gates of all other interrupts stay, and the nesting counter is as before.
pub register_interrupt_lem :
    (interrupt_offset line : ℕ) (c : Cpu)
    → interrupt_offset < 2 ^ 32
    → c.disable_counter + 1 < 2 ^ 32
    → let c' = register_interrupt interrupt_offset line c in
      (handler c' (0x20 + line) ≡ interrupt_offset)
      × ((n : ℕ) → n ≢ 0x20 + line → c'.idt n ≡ c.idt n)
      × (c'.disable_counter ≡ c.disable_counter)
unfolding register_interrupt
register_interrupt_lem interrupt_offset line c h small =
    (ground arith, λ n ne. ground arith, ground arith)

-- The bit of a line in its controller's mask, set for a line that is held back.
abbrev pub bit : (mask n : ℕ) → ℕ
bit mask n = (mask / 2 ^ n) % 2

-- Does `p` hold for the `n` numbers from `lo` on?
holds_from : (ℕ → Bool) → (lo n : ℕ) → Bool
holds_from p lo zero = true
holds_from p lo (suc n) = p lo && holds_from p (lo + 1) n

holds_at : (p : ℕ → Bool) (lo n x : ℕ) → lo ≤ x → x < lo + n → holds_from p lo n ≡ true → p x ≡ true
unfolding holds_from
holds_at p lo zero x above under all = absurd (omega arith)
holds_at p lo (suc n) x above under all = elim (dec_lt lo x) [
  | yes later ↦ holds_at p (lo + 1) n x (omega arith) (omega arith) (ground arith)
  | no here ↦ let e : lo ≡ x = omega arith in ground (arith, ap p e)
]

-- Clearing one of the bits 0 to 7 of a byte.
clears : ℕ → ℕ → Bool
clears mask k =
    (bit (clear_bit mask k) k == 0)
    && holds_from (λ j. j == k || bit (clear_bit mask k) j == bit mask j) 0 8

clear_table : holds_from (λ mask. holds_from (clears mask) 0 8) 0 256 ≡ true
unfolding holds_from clears clear_bit
clear_table = refl

untouched_table : holds_from (λ mask. clear_bit mask 8 == mask) 0 256 ≡ true
unfolding holds_from clear_bit
untouched_table = refl

clear_bit_lem :
    (mask k : ℕ)
    → mask < 256
    → k < 8
    → (bit (clear_bit mask k) k ≡ 0)
      × ((j : ℕ) → j < 8 → j ≢ k → bit (clear_bit mask k) j ≡ bit mask j)
unfolding clears
clear_bit_lem mask k hm hk =
    let row = holds_at _ 0 256 mask (omega arith) hm clear_table in
    let cell : clears mask k ≡ true = holds_at (clears mask) 0 8 k (omega arith) hk row in
    (
      ground arith,
      λ j hj ne. ground (
        arith,
        holds_at (λ j. j == k || bit (clear_bit mask k) j == bit mask j) 0 8 j (omega arith) hj,
      ),
    )

-- Enabling one of the lines 0 to 7, with a mask of 8 bits, lets it through the first controller and changes no other line of
-- either controller.
pub pic_line_enable_first :
    (line : ℕ) (c : Cpu)
    → line < 8
    → c.masks pic1_data < 256
    → let c' = pic_line_enable line c in
      (bit (c'.masks pic1_data) line ≡ 0)
      × ((j : ℕ) → j < 8 → j ≢ line → bit (c'.masks pic1_data) j ≡ bit (c.masks pic1_data) j)
      × (c'.masks pic2_data ≡ c.masks pic2_data)
unfolding pic_line_enable
pic_line_enable_first line c h hm =
    let e : line % 2 ^ 8 ≡ line = omega arith in
    let (on, same) = clear_bit_lem (c.masks pic1_data) line hm h in
    (ground arith, λ j hj ne. ground (arith, same j), ground arith)

-- Line 8 is the first line of the second controller; enabling it changes no mask, where the mask of
-- the first controller is of 8 bits.
pub pic_line_enable_eight :
    (c : Cpu) (port : ℕ) → c.masks pic1_data < 256 → (pic_line_enable 8 c).masks port ≡ c.masks port
unfolding pic_line_enable
pic_line_enable_eight c port h =
    let row =
      holds_at (λ mask. clear_bit mask 8 == mask) 0 256 (c.masks pic1_data) (omega arith) h
        untouched_table in
    ground arith
