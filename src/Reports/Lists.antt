-- ===== src/Reports/Lists.antt =====
-- Reports of lists on the screen: `AHCI_print_devices` of source/kernel/ahci.c and
-- `networking_enum_interfaces` of source/kernel/networking.c.
use kernel_on_qemu.Prelude.{
  ℕ, zero, suc, ◌+◌, Option, some, ◌>>=◌, List, [], ◌∷◌, ◌==◌, if◌then◌else◌,
}
use kernel_on_qemu.Words.{u8, u32}
use kernel_on_qemu.Bytes.{Bytes}
use kernel_on_qemu.Packet.{NetworkInterface}
use kernel_on_qemu.Ahci.{Device}
use kernel_on_qemu.Output.Screen.{
  Screen, print_byte, print_dword, print_string, print_literal, print_newline,
}

-- Prints one after the other.
abbrev pub print_all : List (Screen → Screen) → Screen → Screen
print_all [] s = s
print_all (f ∷ fs) s = print_all fs (f s)

-- `fuel` is for each model number, which is printed up to its first zero.
unfoldable pub ahci_print_device : (fuel : ℕ) → Device → Screen → Option Screen
ahci_print_device fuel device s =
    let start =
      print_literal "Port " ∷ print_byte (u8 device.port) ∷ print_literal ", model nr: " ∷ [] in
    let rest =
      print_newline
      ∷ print_literal "sector size: "
      ∷ print_dword device.lba_size
      ∷ print_literal ", sector count: "
      ∷ print_dword device.lba_count_high
      ∷ print_dword device.lba_count_low
      ∷ print_newline
      ∷ [] in
    print_string fuel device.model_number 0 (print_all start s) >>= λ s'. some (print_all rest s')

unfoldable pub ahci_print_devices : (fuel : ℕ) → List Device → Screen → Option Screen
ahci_print_devices fuel [] s = some s
ahci_print_devices fuel (device ∷ l) s =
    ahci_print_device fuel device s >>= ahci_print_devices fuel l

-- The loop over the `n` bytes of the address from the `i`-th on.
unfoldable pub print_ether_addr : (n i : ℕ) → Bytes → Screen → Screen
print_ether_addr zero i ether_addr s = s
print_ether_addr (suc n) i ether_addr s =
    let s' = print_byte (ether_addr i) s in
    print_ether_addr n (i + 1) ether_addr (if i == 5 then s' else print_literal ":" s')

unfoldable pub networking_enum_interfaces :
    (intf_index : ℕ) → List NetworkInterface → Screen → Screen
networking_enum_interfaces intf_index [] s = s
networking_enum_interfaces intf_index (intf ∷ l) s =
    networking_enum_interfaces (u32 (intf_index + 1)) l (
      print_all
        (print_literal "Interface "
          ∷ print_byte (u8 intf_index)
          ∷ print_literal " ether addr: "
          ∷ print_ether_addr 6 0 intf.ether_addr
          ∷ print_newline
          ∷ [])
        s)
