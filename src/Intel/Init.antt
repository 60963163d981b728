-- ===== src/Intel/Init.antt =====
-- `intel_8254xx_init` of source/kernel/intel_8254xx.c with the set-up of both rings, and the choice of
-- the driver and the list of the interfaces of source/kernel/networking.c and list.c. The pages of
-- kalloc and what the card answers are parameters.
use Prim.Native.Nat.{bit_or}
use kernel_on_qemu.Prelude.{
  ℕ, zero, suc, ◌+◌, ◌*◌, ◌/◌, ◌^◌, Bool, ◌&&◌, List, [], ◌∷◌, Option, none, some, ◌==◌,
  if◌then◌else◌,
}
use kernel_on_qemu.Words.{u8, u16}
use kernel_on_qemu.Bytes.{Bytes, write8}
use kernel_on_qemu.Packet.{ErrCode, ErrCode.e_ok, ErrCode.e_fail, NetworkInterface}
use kernel_on_qemu.Pci.{Space, Token, get_pci_offset_token, set_pci_offset_token}
use kernel_on_qemu.Intel.{
  RxDesc, TxDesc, IntelDevice, rx_desc_count, tx_desc_count, reg_ctrl, mmio_write,
  intel_8254xx_eeprom_read,
}

-- The rounds `i` to `i + n - 1` of the loop that clears the table of multicast addresses.
unfoldable pub clear_multicast : (n i : ℕ) → IntelDevice → IntelDevice
unfolding mmio_write
clear_multicast zero i d = d
clear_multicast (suc n) i d = clear_multicast n (i + 1) (mmio_write (0x5200 + i * 4) 0 d)

-- A descriptor for the page at `buffer`.
abbrev pub rx_desc : (buffer : ℕ) → RxDesc
rx_desc buffer = record {
  addr_low = buffer;
  addr_high = 0;
  length = 0;
  checksum = 0;
  status = 0;
  errors = 0;
  special = 0;
}

abbrev pub set_rx : (ℕ → RxDesc) → ℕ → RxDesc → ℕ → RxDesc
set_rx l i r k = if k == i then r else l k

unfoldable pub init_rx_descs : (buffers : ℕ → ℕ) (n i : ℕ) → (ℕ → RxDesc) → ℕ → RxDesc
init_rx_descs buffers zero i l = l
init_rx_descs buffers (suc n) i l =
    init_rx_descs buffers n (i + 1) (set_rx l i (rx_desc (buffers i)))

-- RCTL: EN, SBP, UPE, BAM, BSIZE = 3, BSEX and SECRC.
abbrev pub rctl : ℕ
rctl = 2 ^ 1 + 2 ^ 2 + 2 ^ 3 + 2 ^ 15 + 3 * 2 ^ 16 + 2 ^ 25 + 2 ^ 26

-- The descriptors are at `address`, which hold `l` before.
unfoldable pub intel_8254xx_rx_init :
    (address : ℕ) (buffers : ℕ → ℕ) (l : ℕ → RxDesc) → IntelDevice → IntelDevice
unfolding clear_multicast init_rx_descs
intel_8254xx_rx_init address buffers l d =
    let d = clear_multicast 128 0 d in
    let l = init_rx_descs buffers rx_desc_count 0 l in
    let d = mmio_write 0x2800 address d in
    let d = mmio_write 0x2804 0 d in
    let d = mmio_write 0x2808 (rx_desc_count * 16) d in
    let d = mmio_write 0x2810 0 d in
    let d = mmio_write 0x2818 rx_desc_count d in
    let d = mmio_write 0x100 rctl d in record d { rxdl = l }

-- A descriptor that was sent.
abbrev pub tx_desc : TxDesc
tx_desc = record {
  addr_low = 0;
  addr_high = 0;
  length = 0;
  cso = 0;
  command = 0;
  status = 1;
  css = 0;
  special = 0;
}

unfoldable pub init_tx_descs : (n i : ℕ) → (ℕ → TxDesc) → ℕ → TxDesc
init_tx_descs zero i l = l
init_tx_descs (suc n) i l = init_tx_descs n (i + 1) (λ k. if k == i then tx_desc else l k)

-- TCTL: EN, PSP, CT = 15, COLD = 64 and RTLC.
abbrev pub tctl : ℕ
tctl = 2 ^ 1 + 2 ^ 3 + 15 * 2 ^ 4 + 64 * 2 ^ 12 + 2 ^ 24

unfoldable pub intel_8254xx_tx_init : (address : ℕ) (l : ℕ → TxDesc) → IntelDevice → IntelDevice
unfolding init_tx_descs
intel_8254xx_tx_init address l d =
    let l = init_tx_descs tx_desc_count 0 l in
    let d = mmio_write 0x3800 address d in
    let d = mmio_write 0x3804 0 d in
    let d = mmio_write 0x3808 (tx_desc_count * 16) d in
    let d = mmio_write 0x3810 0 d in
    let d = mmio_write 0x3818 0 d in
    let d = mmio_write 0x400 tctl d in record d { tx_tail = 0; txdl = l }

-- What the card answers, and the pages and what they hold before.
pub record Card : Type 0 where
  pub ctrl_reset : ℕ
  pub ctrl_link : ℕ
  pub eerd : ℕ → ℕ
  pub rx_address : ℕ
  pub rx_before : ℕ → RxDesc
  pub rx_buffers : ℕ → ℕ
  pub tx_address : ℕ
  pub tx_before : ℕ → TxDesc
  pub interface : NetworkInterface
  pub device : IntelDevice

-- The address of the card from the three words of its EEPROM.
unfoldable pub write_mac : (mac0 mac1 mac2 : ℕ) → Bytes → Bytes
unfolding write8
write_mac mac0 mac1 mac2 m =
    let m = write8 m 0 (u8 mac0) in
    let m = write8 m 1 (u8 (mac0 / 2 ^ 8)) in
    let m = write8 m 2 (u8 mac1) in
    let m = write8 m 3 (u8 (mac1 / 2 ^ 8)) in
    let m = write8 m 4 (u8 mac2) in write8 m 5 (u8 (mac2 / 2 ^ 8))

-- What the function leaves: the interface, the device, and the writes to the configuration space. The
-- code ORs the number of the link bit into CTRL, 6, and not the bit.
pub record Started : Type 0 where
  pub interface : NetworkInterface
  pub device : IntelDevice
  pub pci_writes : List (ℕ × ℕ)

unfoldable pub intel_8254xx_init : Card → Space → Token → Started
unfolding intel_8254xx_rx_init intel_8254xx_tx_init intel_8254xx_eeprom_read write_mac
intel_8254xx_init c space token =
    let pci_writes = set_pci_offset_token token 4 (bit_or (get_pci_offset_token space token 4) 7) in
    let d = record c.device {
      reg_base_addr = get_pci_offset_token space token 0x10 / 2 ^ 3 * 2 ^ 3;
      writes = [];
    } in
    let d = mmio_write reg_ctrl (bit_or c.ctrl_reset (2 ^ 26)) d in
    let mac0 = intel_8254xx_eeprom_read (c.eerd 0) 0 d in
    let mac1 = intel_8254xx_eeprom_read (c.eerd 1) 1 mac0.1 in
    let mac2 = intel_8254xx_eeprom_read (c.eerd 2) 2 mac1.1 in
    let d = mmio_write reg_ctrl (bit_or c.ctrl_link 6) mac2.1 in
    let d = intel_8254xx_rx_init c.rx_address c.rx_buffers c.rx_before d in
    let d = intel_8254xx_tx_init c.tx_address c.tx_before d in
    record {
      interface = record {
        ether_addr = write_mac mac0.0 mac1.0 mac2.0 c.interface.ether_addr;
        ip_addr = 0;
        ip_addr_dhcp = 0;
        ip_addr_dns = 0;
        subnet_mask = 0;
      };
      device = record d { rar_count = 1 };
      pci_writes = pci_writes;
    }

-- The list of the interfaces, each with its device.
abbrev pub Interfaces : Type 0
Interfaces = List (NetworkInterface × IntelDevice)

unfoldable pub list_add {ℓ} : {A : Type ℓ} → List A → A → List A
list_add l x = x ∷ l

abbrev pub networking_init : Interfaces
networking_init = []

-- A network card of Intel that the driver is for.
unfoldable pub is_supported : Space → Token → Bool
is_supported space token =
    let device_class = get_pci_offset_token space token 8 in
    let id = get_pci_offset_token space token 0 in
    (u8 (device_class / 2 ^ 24) == 2 && u8 (device_class / 2 ^ 16) == 0)
    && (u16 (id / 2 ^ 16) == 0x100E && u16 id == 0x8086)

-- The code, the writes to the configuration space, and the list.
unfoldable pub networking_init_device :
    Card → Space → Token → Interfaces → ErrCode × List (ℕ × ℕ) × Interfaces
unfolding is_supported list_add intel_8254xx_init
networking_init_device c space token l =
    let s = intel_8254xx_init c space token in
    if is_supported space token
    then (e_ok, s.pci_writes, list_add l (s.interface, s.device))
    else (e_fail, [], l)

unfoldable pub get_network_interface : (index : ℕ) → Interfaces → Option NetworkInterface
get_network_interface index [] = none
get_network_interface zero (x ∷ l) = some x.0
get_network_interface (suc index) (x ∷ l) = get_network_interface index l
