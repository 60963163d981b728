-- ===== src/Reports/Processor.antt =====
-- source/kernel/mtrr.c and msr.c: what the processor says of itself. `cpuid` and `msr` are what the
-- instructions leave in the registers, for each value of EAX or ECX.
use Prim.Native.Nat.{bit_and, bit_xor}
use kernel_on_qemu.Prelude.{
  ℕ, zero, suc, ◌+◌, ◌*◌, ◌/◌, ◌%◌, ◌^◌, [], ◌∷◌, ◌&&◌, ◌||◌, leb, ◌==◌, if◌then◌else◌,
}
use kernel_on_qemu.Words.{u8, u32}
use kernel_on_qemu.Output.Screen.{Screen, print_byte, print_dword, print_literal, print_newline}
use kernel_on_qemu.Reports.Lists.{print_all}

pub record Registers : Type 0 where
  pub eax : ℕ
  pub ebx : ℕ
  pub ecx : ℕ
  pub edx : ℕ

unfoldable pub check_msr : (cpuid : ℕ → Registers) → ℕ
check_msr cpuid = if bit_and (cpuid 0x1).edx 0x20 == 0 then 0x1 else 0x0

unfoldable pub check_mtrr : (cpuid : ℕ → Registers) → ℕ
check_mtrr cpuid = if bit_and (cpuid 0x1).edx 0x1000 == 0 then 0x1 else 0x0

unfoldable pub check_mtrrcap : (cpuid : ℕ → Registers) → ℕ
check_mtrrcap cpuid =
    let eax = (cpuid 0x1).eax in
    let model = u8 (eax / 2 ^ 4) % 2 ^ 4 in
    let family_id = u8 (eax / 2 ^ 8) % 2 ^ 4 in
    let ext_model = u8 (eax / 2 ^ 16) % 2 ^ 4 in
    let ext_family_id = u8 (eax / 2 ^ 20) in
    let display_family = if family_id == 0xF then u8 (family_id + ext_family_id) else family_id in
    let display_model =
      if family_id == 0x6 || family_id == 0xF then u8 (ext_model * 2 ^ 4 + model) else model in
    if display_family == 0x6 && leb 0x1 display_model
    then 0x0
    else if display_family == 0xF
    then 0x0
    else 0x1

-- The lower half of a register of a range without the bits below 2 ^ 12.
abbrev pub page_base : ℕ → ℕ
page_base eax = u32 (eax / 2 ^ 12 * 2 ^ 12)

unfoldable pub phys_len : (phys_mask : ℕ) → ℕ
phys_len phys_mask = u32 (bit_xor phys_mask 0xFFFFFFFF + 1)

-- The range `i`.
unfoldable pub print_range : (msr : ℕ → Registers) → (i : ℕ) → Screen → Screen
print_range msr i =
    let base = msr (0x200 + i * 2) in
    let mask = msr (0x201 + i * 2) in
    let phys_base = page_base base.eax in
    let phys_mask = page_base mask.eax in
    print_all (
      print_literal "MTRRphysBase "
      ∷ print_byte i
      ∷ print_literal ": "
      ∷ print_dword base.edx
      ∷ print_dword base.eax
      ∷ print_newline
      ∷ print_literal "MTRRphysMask "
      ∷ print_byte i
      ∷ print_literal ": "
      ∷ print_dword mask.edx
      ∷ print_dword mask.eax
      ∷ print_newline
      ∷ print_literal "MTRRphysBase "
      ∷ print_byte i
      ∷ print_literal " physBase: "
      ∷ print_dword (base.edx % 2 ^ 4)
      ∷ print_dword phys_base
      ∷ print_newline
      ∷ print_literal "MTRRphysMask "
      ∷ print_byte i
      ∷ print_literal " physMask: "
      ∷ print_dword (mask.edx % 2 ^ 4)
      ∷ print_dword phys_mask
      ∷ print_newline
      ∷ print_literal "physLen "
      ∷ print_byte i
      ∷ print_literal ": "
      ∷ print_dword (phys_len phys_mask)
      ∷ print_newline
      ∷ [])

-- The loop over `n` ranges from `i` on; the code has seven.
unfoldable pub print_ranges : (msr : ℕ → Registers) → (n i : ℕ) → Screen → Screen
print_ranges msr zero i s = s
print_ranges msr (suc n) i s = print_ranges msr n (i + 1) (print_range msr i s)

unfoldable pub print_mtrr_range : (msr : ℕ → Registers) → Screen → Screen
print_mtrr_range msr = print_ranges msr 7 0
