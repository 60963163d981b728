-- ===== src/Tests/Devices.antt =====
-- The configuration space of source/kernel/pci.c at a concrete device.
use kernel_on_qemu.Prelude.{ℕ, ◌<◌, ◌^◌, arith, ◌≤◌, ◌≡◌, length, All, ◌==◌, if◌then◌else◌}
use kernel_on_qemu.Pci.{Token, DeviceClass, Space, enum_pci, find_pci_device}
use kernel_on_qemu.Pci.Enumeration.{last_match, matches, find_pci_device_lem}
use kernel_on_qemu.Pci.Present.{Listed, enum_pci_lem}

-- One device of one function, on bus 0.
abbrev one_device : Space
one_device address =
    if address == 0x80000000
    then 0x100E8086
    else if address == 0x80000008
    then 0x02000000
    else if address == 0x8000000C
    then 0
    else 0xFFFFFFFF

abbrev network_class : DeviceClass
network_class = record { class_code = 2; sub_class = 0; prog_if = 0 }

abbrev no_token : Token
no_token = record { bus = 0; device = 0; function = 0 }

words : (x : ℕ) → one_device x < 2 ^ 32
words x = ground arith

find_pci_device_lem_example :
    find_pci_device one_device no_token network_class
    ≡ last_match (matches one_device network_class) no_token (enum_pci one_device)
find_pci_device_lem_example =
    find_pci_device_lem one_device no_token network_class words (omega arith) (omega arith)
      (omega arith)

enum_pci_lem_example :
    All (Listed one_device) (enum_pci one_device) × (length (enum_pci one_device) ≤ 0x10000)
enum_pci_lem_example = enum_pci_lem one_device
