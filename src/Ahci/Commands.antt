-- ===== src/Ahci/Commands.antt =====
-- The command that `AHCI_write` and `AHCI_read` of source/kernel/ahci.c issue.
use kernel_on_qemu.Prelude.{
  ℕ, ◌+◌, ◌*◌, ◌^◌, ◌<◌, ◌≤◌, ◌≡◌, refl, sym, ◌∙◌, ap, true, false, some, List, arith, Yields,
  Yields-bind, ◌>>=◌,
}
use mathlib.Core.Path.{subst}
use kernel_on_qemu.Words.{u32, u16, u8}
use kernel_on_qemu.Bytes.{Bytes, write8, memset}
use kernel_on_qemu.Ahci.{
  CommandHeader, Port, Hba, Device, find_device, has_bit, port_count, ahci_execute_command,
  set_port,
}
use kernel_on_qemu.Ahci.Slots.{IsIssued, ahci_execute_command_lem}
use kernel_on_qemu.Ahci.Transfer.{
  fill_prdt, write_fis, command_table_size, transfer, Issued, ahci_write, ahci_read,
  ata_command_write_dma_ext, ata_command_read_dma_ext, prdt_offset,
}
use kernel_on_qemu.Ahci.Regions.{region_count, AreRegions, Filled, fill_prdt_lem}

-- The address of the first sector that a command is for.
abbrev pub lba_of : Bytes → ℕ
lba_of m = m 4 + m 5 * 2 ^ 8 + m 6 * 2 ^ 16 + m 8 * 2 ^ 24 + m 9 * 2 ^ 32 + m 10 * 2 ^ 40

-- A command that names the buffer and the sectors.
abbrev pub NamesTransfer :
    (command command_table buf lba sector_count len : ℕ) → (c : CommandHeader) → Type 0
NamesTransfer command command_table buf lba sector_count len c =
    (c.ctba ≡ command_table)
    × (c.desc_info ≡ 5 + u16 (region_count len) * 2 ^ 16)
    × AreRegions c.table prdt_offset buf len
    × (c.table 2 ≡ command)
    × (lba_of c.table ≡ lba)
    × (c.table 12 + c.table 13 * 2 ^ 8 ≡ sector_count)

fis_lem :
    (command lba_low lba_high sector_count : ℕ) (m : Bytes)
    → lba_low < 2 ^ 32
    → lba_high < 2 ^ 16
    → sector_count < 2 ^ 16
    → let t = write_fis command lba_low lba_high sector_count m in
      (t 2 ≡ command)
      × (lba_of t ≡ lba_low + lba_high * 2 ^ 32)
      × (t 12 + t 13 * 2 ^ 8 ≡ sector_count)
unfolding write_fis write8
fis_lem command lba_low lba_high sector_count m hl hh hc =
    (refl, omega (arith, hl, hh), omega (arith, hc))

fis_same :
    (command lba sector_count : ℕ) (m n : Bytes)
    → ((x : ℕ) → x < prdt_offset → n x ≡ m x)
    → (m 2 ≡ command) × (lba_of m ≡ lba) × (m 12 + m 13 * 2 ^ 8 ≡ sector_count)
    → (n 2 ≡ command) × (lba_of n ≡ lba) × (n 12 + n 13 * 2 ^ 8 ≡ sector_count)
fis_same command lba sector_count m n h (a, b, c) = (
  h 2 (omega arith) ∙ a,
  omega (
    arith,
    b,
    h 4 (omega arith),
    h 5 (omega arith),
    h 6 (omega arith),
    h 8 (omega arith),
    h 9 (omega arith),
    h 10 (omega arith),
  ),
  omega (arith, c, h 12 (omega arith), h 13 (omega arith)),
)

-- What a transfer leaves: the command in slot `j` of the port.
abbrev pub Transferred :
    (command command_table port buf lba sector_count len j : ℕ) → (h : Hba) → (r : Issued) → Type 0
Transferred command command_table port buf lba sector_count len j h r =
    (r.index ≡ j)
    × NamesTransfer command command_table buf lba sector_count len
        ((r.hba.ports port).command_list j)
    × ((r.hba.ports port).ci ≡ (h.ports port).ci + 2 ^ j)

set_port-same : (ports : ℕ → Port) (i : ℕ) (p : Port) → set_port ports i p i ≡ p
set_port-same ports i p = ground arith

buffer_end : (buf len : ℕ) → buf + len < 2 ^ 32 → u32 (buf + u32 len) ≡ buf + len
buffer_end buf len h = omega (arith, h)

-- The command after the table is filled.
module _ (command command_table port buf lba sector_count len j : ℕ) (m : Bytes) (h : Hba)
    (low : port < 256)
    (fis : (m 2 ≡ command) × (lba_of m ≡ lba) × (m 12 + m 13 * 2 ^ 8 ≡ sector_count))
    (lt : j < port_count) (free : has_bit (h.ports port).ci j ≡ false)
    (busy : (k : ℕ) → k < j → has_bit (h.ports port).ci k ≡ true) where
  issue_lem :
      (t : ℕ × Bytes)
      → Filled prdt_offset buf len 0 m t
      → Transferred command command_table port buf lba sector_count len j h (
          let issued = ahci_execute_command command_table t.1 t.0 (h.ports (u8 port)) in
          record {
            index = issued.0;
            hba = record h { ports = set_port h.ports (u8 port) issued.1 };
          })
  issue_lem t (count, regions, below) =
      let same : u8 port ≡ port = omega (arith, low) in
      let issued = ahci_execute_command command_table t.1 t.0 (h.ports port) in
      let (slot, header, others, bit) : IsIssued command_table t.1 t.0 j (h.ports port) issued =
        ahci_execute_command_lem command_table t.1 t.0 j (h.ports port) lt free busy in
      let named = fis_same command lba sector_count m t.1 below fis in
      let names : NamesTransfer command command_table buf lba sector_count len
          (issued.1.command_list j) =
        subst (NamesTransfer command command_table buf lba sector_count len) (sym header) (
          refl,
          ap (λ n. 5 + u16 n * 2 ^ 16) (count ∙ omega arith),
          regions,
          named.0,
          named.1,
          named.2,
        ) in
      let done : (p : Port)
          → p ≡ issued.1
          → NamesTransfer command command_table buf lba sector_count len (p.command_list j)
            × (p.ci ≡ (h.ports port).ci + 2 ^ j) =
        λ p e. (
          subst
              (λ p. NamesTransfer command command_table buf lba sector_count len (p.command_list j))
              (sym e) names,
          ap (λ p. p.ci) e ∙ bit,
        ) in
      subst
        (λ q. Transferred command command_table port buf lba sector_count len j h (
          let issued = ahci_execute_command command_table t.1 t.0 (h.ports q) in
          record { index = issued.0; hba = record h { ports = set_port h.ports q issued.1 } }))
        (sym same) (let r = done _ (set_port-same h.ports port issued.1) in (slot, r.0, r.1))

transfer_lem :
    (fuel command command_table : ℕ) (m : Bytes) (port buf lba_low lba_high sector_count j : ℕ)
    (devices : List Device) (d : Device) (h : Hba)
    → find_device port devices ≡ some d
    → let len = sector_count * d.lba_size in
      region_count len < fuel
      → buf + len < 2 ^ 32
      → region_count len ≤ 248
      → port < 256
      → lba_low < 2 ^ 32
      → lba_high < 2 ^ 16
      → sector_count < 2 ^ 16
      → j < port_count
      → has_bit (h.ports port).ci j ≡ false
      → ((k : ℕ) → k < j → has_bit (h.ports port).ci k ≡ true)
      → Yields
          (Transferred command command_table port buf
            (lba_low + lba_high * 2 ^ 32)
            sector_count
            len
            j
            h)
          (transfer fuel command command_table m port buf lba_low lba_high sector_count devices h)
unfolding transfer
transfer_lem fuel command command_table m port buf lba_low lba_high sector_count j devices d h found
      f hb hl hp hlba hhigh hc lt free busy =
    let len = sector_count * d.lba_size in
    let fis = write_fis command lba_low lba_high sector_count (memset m 0 0 command_table_size) in
    let Goal =
      Transferred command command_table port buf (lba_low + lba_high * 2 ^ 32) sector_count len j
        h in
    let issue : ℕ × Bytes → Issued = λ t.
      let issued = ahci_execute_command command_table t.1 t.0 (h.ports (u8 port)) in
      record { index = issued.0; hba = record h { ports = set_port h.ports (u8 port) issued.1 } } in
    subst
      (λ o. Yields Goal (
        o >>= λ d.
        fill_prdt fuel prdt_offset buf (u32 (buf + u32 (sector_count * d.lba_size))) 0 fis >>= λ t.
        some (issue t)))
      (sym found)
      (subst (λ e. Yields Goal (fill_prdt fuel prdt_offset buf e 0 fis >>= λ t. some (issue t)))
        (sym (buffer_end buf len hb))
        (Yields-bind (Filled prdt_offset buf len 0 fis) Goal
          (fill_prdt fuel prdt_offset buf (buf + len) 0 fis) _
          (fill_prdt_lem fuel prdt_offset buf len 0 fis f hb (omega (arith, hl))
            (omega (arith, hl)))
          (issue_lem command command_table port buf (lba_low + lba_high * 2 ^ 32) sector_count len j
            fis h hp
            (fis_lem command lba_low lba_high sector_count (memset m 0 0 command_table_size) hlba
              hhigh hc)
            lt free busy)))

-- AHCI_write and AHCI_read for a disk that is registered reach the wait for the disk with one command
-- issued at its port, in the first slot that is free. The command is the one for their direction; it
-- names the sectors and, region by region and in order, exactly the buffer. The buffer ends below
-- 2 ^ 32 and has at most the 248 regions for which the page of the command table has room, the sectors
-- are fewer than 2 ^ 16, and the fuel is more than the number of regions. That the disk clears the
-- command's bit, for which both functions wait at the end, is not stated.
pub ahci_transfer_lem :
    (fuel command_table : ℕ) (m : Bytes) (port buf lba_low lba_high sector_count j : ℕ)
    (devices : List Device) (d : Device) (h : Hba)
    → find_device port devices ≡ some d
    → region_count (sector_count * d.lba_size) < fuel
    → buf + sector_count * d.lba_size < 2 ^ 32
    → region_count (sector_count * d.lba_size) ≤ 248
    → port < 256
    → lba_low < 2 ^ 32
    → lba_high < 2 ^ 16
    → sector_count < 2 ^ 16
    → j < port_count
    → has_bit (h.ports port).ci j ≡ false
    → ((k : ℕ) → k < j → has_bit (h.ports port).ci k ≡ true)
    → let lba = lba_low + lba_high * 2 ^ 32 in
      let len = sector_count * d.lba_size in
      Yields
        (Transferred ata_command_write_dma_ext command_table port buf lba sector_count len j h)
        (ahci_write fuel command_table m port buf lba_low lba_high sector_count devices h)
      × Yields
          (Transferred ata_command_read_dma_ext command_table port buf lba sector_count len j h)
          (ahci_read fuel command_table m port buf lba_low lba_high sector_count devices h)
unfolding ahci_write ahci_read
ahci_transfer_lem fuel command_table m port buf lba_low lba_high sector_count j devices d h found f
      hb hl hp hlba hhigh hc lt free busy =
    let done : (command : ℕ) → _ = λ command.
      transfer_lem fuel command command_table m port buf lba_low lba_high sector_count j devices d h
        found f hb hl hp hlba hhigh hc lt free busy in
    (done ata_command_write_dma_ext, done ata_command_read_dma_ext)
