-- ===== src/Ahci/Identify.antt =====
-- `AHCI_init` of source/kernel/ahci.c: the reset of the controller, its interrupt, and the disks at
-- its ports. What the disks answer and the pages that kalloc returns are parameters. A loop that waits
-- for a register is left out: the code after it runs when the register has the bit.
use kernel_on_qemu.Prelude.{
  ℕ, zero, suc, ◌+◌, ◌*◌, ◌/◌, ◌%◌, ◌^◌, Bool, not, List, ◌&&◌, ◌==◌, if◌then◌else◌,
}
use kernel_on_qemu.Words.{u8, u32}
use kernel_on_qemu.Bytes.{Bytes, write8, write32, read16, read32, memset}
use kernel_on_qemu.Interrupt.{Cpu, register_interrupt, pic_line_enable}
use kernel_on_qemu.Pci.{Space, Token, get_pci_offset}
use kernel_on_qemu.Ahci.{
  Port, Hba, Device, port_count, has_bit, set_bit, set_port, ahci_execute_command, register_device,
}
use kernel_on_qemu.Ahci.Transfer.{
  fis_type_reg_h2d, command_table_size, prdt_offset, prdt_entry_size,
}

-- The rounds `i` to `i + n - 1`.
unfoldable pub swap_rounds : (n i buf : ℕ) → Bytes → Bytes
unfolding write8
swap_rounds zero i buf m = m
swap_rounds (suc n) i buf m = swap_rounds n (i + 1) buf (
    if i % 2 == 0
    then write8 (write8 m (buf + i) (m (buf + (i + 1)))) (buf + (i + 1)) (m (buf + i))
    else m)

unfoldable pub identify_swap : (buf len : ℕ) → Bytes → Bytes
unfolding swap_rounds
identify_swap buf len m = swap_rounds len 0 buf m

-- The table of the command IDENTIFY DEVICE, with one region of 512 bytes at `identify_buf`.
unfoldable pub identify_table : (identify_buf : ℕ) → Bytes → Bytes
unfolding memset write8 write32
identify_table identify_buf m =
    let m = memset m 0 0 command_table_size in
    let m = memset m prdt_offset 0 prdt_entry_size in
    let m = write8 m 0 fis_type_reg_h2d in
    let m = write8 m 1 0x80 in
    let m = write8 m 2 0xEC in
    let m = write32 m prdt_offset identify_buf in write32 m (prdt_offset + 12) (0x1FF + 2 ^ 31)

unfoldable pub swap_strings : Bytes → Bytes
unfolding identify_swap
swap_strings m = identify_swap 54 40 (identify_swap 46 8 (identify_swap 20 20 m))

-- Does the disk take addresses of 48 bits?
unfoldable pub has_feature_48 : Bytes → Bool
unfolding read16
has_feature_48 m = has_bit (read16 m 166) 10

-- The size of a logical sector.
unfoldable pub logical_sector_size : Bytes → ℕ
unfolding read16
logical_sector_size m =
    let w = read16 m 212 in
    if not (has_bit w 15) && (has_bit w 14 && has_bit w 12)
    then u32 (read16 m 234 + read16 m 236 * 2 ^ 16)
    else 0x200

-- What becomes of the answer of the disk at a port: a disk with addresses of 48 bits is registered.
unfoldable pub take_identity : (entry answer : Bytes) (port : ℕ) → List Device → List Device
unfolding swap_strings has_feature_48 logical_sector_size register_device read32
take_identity entry answer port devices =
    let m = swap_strings answer in
    let support = has_feature_48 m in
    let low = if support then read32 m 200 else 0 in
    let high = if support then read32 m 204 else 0 in
    if support
    then register_device entry m 54 port (logical_sector_size m) low high devices
    else devices

-- The pages that kalloc returns for a port, what the pages of the command table and of the new entry
-- hold before, and the answer of the disk.
pub record PortPages : Type 0 where
  pub command_list : ℕ
  pub received_fis : ℕ
  pub command_table : ℕ
  pub table : Bytes
  pub identify_buf : ℕ
  pub entry : Bytes
  pub answer : Bytes

-- The registers of a port that is started, and the command IDENTIFY DEVICE.
unfoldable pub start_port : PortPages → Port → Port
start_port pages p = record p {
  clb = pages.command_list;
  fb = pages.received_fis;
  ie = set_bit p.ie 0;
  cmd = set_bit (set_bit p.cmd 4) 0;
}

unfoldable pub issue_identify : PortPages → Port → Port
unfolding start_port ahci_execute_command identify_table
issue_identify pages p =
    (ahci_execute_command pages.command_table (identify_table pages.identify_buf pages.table) 1
      (start_port pages p)).1

-- The disks, and the controller.
abbrev pub Disks : Type 0
Disks = List Device × Hba

-- One round of the loop over the ports.
unfoldable pub init_port : (pages : ℕ → PortPages) (i : ℕ) → Disks → Disks
unfolding issue_identify take_identity
init_port pages i (devices, h) =
    if has_bit h.pi i && not ((h.ports i).ssts % 4 == 0)
    then (
      take_identity (pages i).entry (pages i).answer i devices,
      record h { ports = set_port h.ports i (issue_identify (pages i) (h.ports i)) },
    )
    else (devices, h)

-- The rounds `i` to `i + n - 1`.
unfoldable pub init_ports : (pages : ℕ → PortPages) (n i : ℕ) → Disks → Disks
unfolding init_port
init_ports pages zero i d = d
init_ports pages (suc n) i d = init_ports pages n (i + 1) (init_port pages i d)

-- The address of the registers.
unfoldable pub abar : Space → Token → ℕ
abar space t = let x = get_pci_offset space t.bus t.device t.function 0x24 in x / 2 ^ 4 * 2 ^ 4

-- `handler` is the address of interrupt_wrapper_ahci, and `reset` what the controller holds when the
-- reset that was asked for is over.
unfoldable pub ahci_init :
    (handler : ℕ) (space : Space) (token : Token) (pages : ℕ → PortPages) (reset : Hba → Hba)
    → Cpu
    → Disks
    → Cpu × Disks
unfolding init_ports get_pci_offset register_interrupt pic_line_enable
ahci_init handler space token pages reset cpu (devices, h) =
    if has_bit h.cap2 0
    then (cpu, (devices, h))
    else (let h = reset (record h { ghc = set_bit h.ghc 0 }) in
        let h = record h { ghc = set_bit h.ghc 1 } in
        let line = u8 (get_pci_offset space token.bus token.device token.function 0x3C) in
        let cpu = pic_line_enable line (register_interrupt handler line cpu) in
        (cpu, init_ports pages port_count 0 (devices, h)))
