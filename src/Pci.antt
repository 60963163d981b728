-- ===== src/Pci.antt =====
-- source/kernel/pci.c: the addresses of the configuration space, the enumeration of the functions
-- of all devices, and the search for a class of devices. The configuration space is a function from
-- the addresses written to port 0xCF8 to the values then read from port 0xCFC.
pub mod Enumeration
pub mod Present
use Prim.Native.Nat.{bit_and}
use kernel_on_qemu.Prelude.{
  ℕ, zero, suc, ◌+◌, ◌*◌, ◌/◌, ◌^◌, Bool, true, false, ◌&&◌, List, [], ◌∷◌, ◌++◌, ◌==◌,
  if◌then◌else◌,
}
use kernel_on_qemu.Words.{u8, u16, u32}

-- PCI_ENUM_TOKEN
pub record Token : Type 0 where
  pub bus : ℕ
  pub device : ℕ
  pub function : ℕ

-- PCI_DEVICE_CLASS
pub record DeviceClass : Type 0 where
  pub class_code : ℕ
  pub sub_class : ℕ
  pub prog_if : ℕ

-- The configuration space.
abbrev pub Space : Type 0
Space = ℕ → ℕ

-- The address that is written for a register. The fields do not overlap for a device below 32 and a
-- function below 8, as all loops have them.
unfoldable pub config_address : (bus device function offset : ℕ) → ℕ
config_address bus device function offset =
    0x80000000 + bus * 2 ^ 16 + device * 2 ^ 11 + function * 2 ^ 8 + offset

unfoldable pub read_config_data : Space → (bus device function offset : ℕ) → ℕ
unfolding config_address
read_config_data space bus device function offset =
    space (config_address bus device function offset)

-- The writes to ports, first one first.
unfoldable pub write_config_data : (bus device function offset write_data : ℕ) → List (ℕ × ℕ)
unfolding config_address
write_config_data bus device function offset write_data =
    (0xCF8, config_address bus device function offset) ∷ (0xCFC, write_data) ∷ []

unfoldable pub get_pci_offset : Space → (bus device function offset : ℕ) → ℕ
unfolding read_config_data
get_pci_offset space bus device function offset = read_config_data space bus device function offset

unfoldable pub get_pci_offset_token : Space → Token → (offset : ℕ) → ℕ
unfolding read_config_data
get_pci_offset_token space t offset = read_config_data space t.bus t.device t.function offset

unfoldable pub set_pci_offset : (bus device function offset write_data : ℕ) → List (ℕ × ℕ)
unfolding write_config_data
set_pci_offset bus device function offset write_data =
    write_config_data bus device function offset write_data

unfoldable pub set_pci_offset_token : Token → (offset write_data : ℕ) → List (ℕ × ℕ)
unfolding write_config_data
set_pci_offset_token t offset write_data =
    write_config_data t.bus t.device t.function offset write_data

-- The test for a function that is there.
unfoldable pub is_present : Space → (bus device function : ℕ) → Bool
unfolding get_pci_offset
is_present space bus device function =
    if u16 (get_pci_offset space bus device function 0) == 0xFFFF then false else true

-- The test of the header type for a device of several functions.
unfoldable pub has_functions : Space → (bus device : ℕ) → Bool
unfolding get_pci_offset
has_functions space bus device =
    if bit_and (u8 (get_pci_offset space bus device 0 0xC / 2 ^ 16)) 0x80 == 0 then false else true

-- Are the bytes of the class register those of the class?
unfoldable pub is_class : Space → DeviceClass → Token → Bool
unfolding get_pci_offset
is_class space c t =
    let device_class = get_pci_offset space t.bus t.device t.function 8 in
    (u8 (device_class / 2 ^ 24) == c.class_code)
    && (u8 (device_class / 2 ^ 16) == c.sub_class)
    && (u8 (device_class / 2 ^ 8) == c.prog_if)

-- The same without the programming interface.
unfoldable pub is_class_no_progif : Space → DeviceClass → Token → Bool
unfolding get_pci_offset
is_class_no_progif space c t =
    let device_class = get_pci_offset space t.bus t.device t.function 8 in
    (u8 (device_class / 2 ^ 24) == c.class_code) && (u8 (device_class / 2 ^ 16) == c.sub_class)

-- The loops over all buses, devices and functions: `visit` is what the body does with a function
-- that is there.
module _ {S : Type 0} (space : Space) (visit : Token → S → S) where
  -- The `n` functions of a device from `k` on.
  unfoldable pub walk_functions : (bus device k n : ℕ) → S → S
  walk_functions bus device k zero s = s
  walk_functions bus device k (suc n) s = walk_functions bus device (k + 1) n (
      if is_present space bus device k
      then visit (record { bus = bus; device = device; function = k }) s
      else s)

  unfoldable pub walk_device : (bus device : ℕ) → S → S
  unfolding walk_functions
  walk_device bus device s =
      if is_present space bus device 0
      then (let s' = visit (record { bus = bus; device = device; function = 0 }) s in
          if has_functions space bus device then walk_functions bus device 1 7 s' else s')
      else s

  unfoldable pub walk_devices : (bus j n : ℕ) → S → S
  unfolding walk_device
  walk_devices bus j zero s = s
  walk_devices bus j (suc n) s = walk_devices bus (j + 1) n (walk_device bus j s)

  unfoldable pub walk_buses : (i n : ℕ) → S → S
  unfolding walk_devices
  walk_buses i zero s = s
  walk_buses i (suc n) s = walk_buses (i + 1) n (walk_devices i 0 0x20 s)

unfoldable pub enum_pci_count : Space → ℕ
unfolding walk_buses
enum_pci_count space = walk_buses space (λ t count. u32 (count + 1)) 0 0x100 0

-- The tokens that are written to the buffer, in its order.
unfoldable pub enum_pci : Space → List Token
unfolding walk_buses
enum_pci space = walk_buses space (λ t buf. buf ++ (t ∷ [])) 0 0x100 []

-- The loops of `find_PCI_device`, which are its own. Every match overwrites the token.
module _ (space : Space) (c : DeviceClass) where
  -- The functions of a device from `k` on, `n` of them.
  unfoldable pub find_functions : (bus device k n : ℕ) → Token → Token
  unfolding get_pci_offset is_class
  find_functions bus device k zero token = token
  find_functions bus device k (suc n) token = find_functions bus device (k + 1) n (
      if u16 (get_pci_offset space bus device k 0) == 0xFFFF
      then token
      else if is_class space c (record { bus = bus; device = device; function = k })
      then record { bus = bus; device = device; function = k }
      else token)

  unfoldable pub find_on_device : (bus device : ℕ) → Token → Token
  unfolding get_pci_offset is_class find_functions
  find_on_device bus device token =
      if u16 (get_pci_offset space bus device 0 0) == 0xFFFF
      then token
      else (let token =
            if is_class space c (record { bus = bus; device = device; function = 0 })
            then record { bus = bus; device = device; function = 0 }
            else token in
          if bit_and (u8 (get_pci_offset space bus device 0 0xC / 2 ^ 16)) 0x80 == 0
          then token
          else find_functions bus device 1 7 token)

  unfoldable pub find_devices : (bus j n : ℕ) → Token → Token
  unfolding find_on_device
  find_devices bus j zero token = token
  find_devices bus j (suc n) token = find_devices bus (j + 1) n (find_on_device bus j token)

  unfoldable pub find_buses : (i n : ℕ) → Token → Token
  unfolding find_devices
  find_buses i zero token = token
  find_buses i (suc n) token = find_buses (i + 1) n (find_devices i 0 0x20 token)

unfoldable pub find_pci_device : Space → Token → DeviceClass → Token
unfolding find_buses
find_pci_device space token c = find_buses space c 0 0x100 token

unfoldable pub find_pci_device_no_progif : Space → Token → DeviceClass → Token
unfolding walk_buses
find_pci_device_no_progif space token c =
    walk_buses space (λ t found. if is_class_no_progif space c t then t else found) 0 0x100 token
