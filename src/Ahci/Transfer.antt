-- ===== src/Ahci/Transfer.antt =====
-- `AHCI_write` and `AHCI_read` of source/kernel/ahci.c: the command table and its regions of memory.
-- `none` stands for a disk that is not there, for a write behind the page of the table, and for fuel
-- that runs out.
use kernel_on_qemu.Prelude.{
  ℕ, zero, suc, ◌+◌, ◌-◌, ◌*◌, ◌/◌, ◌^◌, true, false, List, Option, none, some, ltb, ◌>>=◌,
  if◌then◌else◌,
}
use kernel_on_qemu.Words.{u8, u32}
use kernel_on_qemu.Bytes.{Bytes, write8, write32, memset}
use kernel_on_qemu.Ahci.{Hba, Device, find_device, ahci_execute_command, set_port}

abbrev pub fis_type_reg_h2d : ℕ
fis_type_reg_h2d = 0x27

abbrev pub ata_command_read_dma_ext : ℕ
ata_command_read_dma_ext = 0x25

abbrev pub ata_command_write_dma_ext : ℕ
ata_command_write_dma_ext = 0x35

-- sizeof(AHCI_COMMAND_TABLE), and the offset of its PRDT.
abbrev pub command_table_size : ℕ
command_table_size = 129

abbrev pub prdt_offset : ℕ
prdt_offset = 128

-- sizeof(AHCI_PRDT_ENTRY)
abbrev pub prdt_entry_size : ℕ
prdt_entry_size = 16

-- SATA_REG_H2D_FIS at the start of the table.
unfoldable pub write_fis : (command lba_low lba_high sector_count : ℕ) → Bytes → Bytes
unfolding write8
write_fis command lba_low lba_high sector_count m =
    let m = write8 m 0 fis_type_reg_h2d in
    let m = write8 m 1 0x80 in
    let m = write8 m 2 command in
    let m = write8 m 4 (u8 lba_low) in
    let m = write8 m 5 (u8 (lba_low / 2 ^ 8)) in
    let m = write8 m 6 (u8 (lba_low / 2 ^ 16)) in
    let m = write8 m 8 (u8 (lba_low / 2 ^ 24)) in
    let m = write8 m 9 (u8 lba_high) in
    let m = write8 m 10 (u8 (lba_high / 2 ^ 8)) in
    let m = write8 m 12 (u8 sector_count) in
    let m = write8 m 13 (u8 (sector_count / 2 ^ 8)) in write8 m 7 0x40

-- The most bytes of a region.
abbrev pub region_size : ℕ
region_size = 0x2000

-- One entry of the PRDT; bit 31 asks for an interrupt.
unfoldable pub write_entry : (prdt address length : ℕ) → Bytes → Bytes
unfolding write32 memset
write_entry prdt address length m =
    let m = memset m prdt 0 prdt_entry_size in
    let m = write32 m prdt address in write32 m (prdt + 12) (length - 1 + 2 ^ 31)

-- The page that kalloc returns for the table.
abbrev pub table_page_size : ℕ
table_page_size = 0x1000

-- The loop over the buffer: the number of entries, and the table. A fuel of one more than the number
-- of regions is enough. The loop has no bound of its own: `none` also stands for an entry that is
-- written behind the page of the table.
unfoldable pub fill_prdt : (fuel prdt buf buf_end entry_count : ℕ) → Bytes → Option (ℕ × Bytes)
unfolding write_entry
fill_prdt zero prdt buf buf_end entry_count m = none
fill_prdt (suc fuel) prdt buf buf_end entry_count m = elim (ltb buf buf_end) [
  | false ↦ some (entry_count, m)
  | true ↦ elim (ltb table_page_size (prdt + prdt_entry_size)) [
    | true ↦ none
    | false ↦
        let length = if ltb region_size (buf_end - buf) then region_size else buf_end - buf in
        fill_prdt fuel (prdt + prdt_entry_size) (u32 (buf + length)) buf_end (entry_count + 1)
          (write_entry prdt buf length m)
  ]
]

-- A command that was issued: its index, and the controller.
pub record Issued : Type 0 where
  pub index : ℕ
  pub hba : Hba

-- Both functions, which differ in the command. The page at `command_table` holds `m` before.
unfoldable pub transfer :
    (fuel command command_table : ℕ) (m : Bytes) (port buf lba_low lba_high sector_count : ℕ)
    → List Device
    → Hba
    → Option Issued
unfolding write_fis fill_prdt find_device ahci_execute_command memset
transfer fuel command command_table m port buf lba_low lba_high sector_count devices h =
    find_device port devices >>= λ d.
    fill_prdt fuel prdt_offset buf (u32 (buf + u32 (sector_count * d.lba_size))) 0
      (write_fis command lba_low lba_high sector_count (memset m 0 0 command_table_size))
    >>= λ t.
        let issued = ahci_execute_command command_table t.1 t.0 (h.ports (u8 port)) in
        some (record {
          index = issued.0;
          hba = record h { ports = set_port h.ports (u8 port) issued.1 };
        })

unfoldable pub ahci_write :
    (fuel command_table : ℕ) (m : Bytes) (port buf lba_low lba_high sector_count : ℕ)
    → List Device
    → Hba
    → Option Issued
unfolding transfer
ahci_write fuel command_table m port buf lba_low lba_high sector_count devices h =
    transfer fuel ata_command_write_dma_ext command_table m port buf lba_low lba_high sector_count
      devices h

unfoldable pub ahci_read :
    (fuel command_table : ℕ) (m : Bytes) (port buf lba_low lba_high sector_count : ℕ)
    → List Device
    → Hba
    → Option Issued
unfolding transfer
ahci_read fuel command_table m port buf lba_low lba_high sector_count devices h =
    transfer fuel ata_command_read_dma_ext command_table m port buf lba_low lba_high sector_count
      devices h
