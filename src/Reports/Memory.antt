-- ===== src/Reports/Memory.antt =====
-- The reports of source/kernel/memory.c on the screen.
use kernel_on_qemu.Prelude.{ℕ, zero, suc, ◌+◌, ◌-◌, ◌/◌, ◌^◌, [], ◌∷◌}
use kernel_on_qemu.Words.{u16}
use kernel_on_qemu.Bytes.{Bytes, read16, read32}
use kernel_on_qemu.Memory.Lists.{Buddy}
use kernel_on_qemu.Output.Screen.{
  Screen, print_byte, print_word, print_dword, print_space, print_literal, print_newline,
}
use kernel_on_qemu.Reports.Lists.{print_all}

-- The size of ADDRESS_RANGE_DESCRIPTOR.
abbrev pub descriptor_size : ℕ
descriptor_size = 24

-- The loop over `n` entries of the memory map from offset `p` on.
unfoldable pub print_entries : (n : ℕ) → Bytes → (p : ℕ) → Screen → Screen
print_entries zero m p s = s
print_entries (suc n) m p s = print_entries n m (p + descriptor_size) (
    print_all
      (print_dword (read32 m p)
        ∷ print_space 0x1
        ∷ print_dword (read32 m (p + 4))
        ∷ print_space 0x1
        ∷ print_dword (read32 m (p + 8))
        ∷ print_space 0x1
        ∷ print_dword (read32 m (p + 12))
        ∷ print_space 0x1
        ∷ print_dword (read32 m (p + 16))
        ∷ print_space 0x1
        ∷ print_dword (read32 m (p + 20))
        ∷ print_space 0x1
        ∷ print_newline
        ∷ [])
      s)

-- `m` is the memory map of the boot loader at `g_memoryMapPtr`.
unfoldable pub print_memmap : Bytes → Screen → Screen
print_memmap m s =
    let memory_map_length = u16 (read16 m 0 + 2 ^ 16 - 2) in
    let memory_map_count = memory_map_length / descriptor_size in
    print_entries memory_map_count m 2 (
      print_all
        (print_literal "Memory map entry count: "
          ∷ print_word memory_map_count
          ∷ print_newline
          ∷ [])
        s)

-- The first node of the list with this index; that of an empty list is read through NULL, from the
-- node at address 0.
unfoldable pub print_freelist : (index : ℕ) → Buddy → Screen → Screen
print_freelist index b =
    let node = b.store (b.lists index) in
    print_all (
      print_literal "Buddy_list: "
      ∷ print_dword node.address
      ∷ print_literal ", type: "
      ∷ print_byte node.type
      ∷ print_newline
      ∷ [])

unfoldable pub print_freelists : Buddy → Screen → Screen
print_freelists b = print_all (
    print_freelist 0 b
    ∷ print_freelist 1 b
    ∷ print_freelist 2 b
    ∷ print_freelist 3 b
    ∷ print_freelist 4 b
    ∷ print_freelist 5 b
    ∷ [])
