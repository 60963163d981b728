-- ===== src/Ahci.antt =====
-- source/kernel/ahci.c: the registers of a port, the commands that are issued to it, the list of the
-- disks, and the interrupt handler. The registers are fields of a state, and what the controller does
-- to them between two steps of the code is no part of a step.
pub mod Transfer
pub mod Identify
pub mod Regions
pub mod Slots
pub mod Swap
pub mod Commands
pub mod Ready
use kernel_on_qemu.Prelude.{
  ℕ, zero, suc, ◌+◌, ◌-◌, ◌*◌, ◌/◌, ◌%◌, ◌^◌, Bool, true, false, not, List, [], ◌∷◌, Option, none,
  some, ◌==◌, if◌then◌else◌,
}
use kernel_on_qemu.Words.{u8, u16, u32}
use kernel_on_qemu.Bytes.{Bytes, memcpy, write8}

-- AHCI_COMMAND_HEADER, with the AHCI_COMMAND_TABLE that its address is of.
pub record CommandHeader : Type 0 where
  pub desc_info : ℕ
  pub prdbc : ℕ
  pub ctba : ℕ
  pub ctbau : ℕ
  pub table : Bytes

-- AHCI_PORT_SPECIFIC_REGISTERS, those that are used, and the command list that PxCLB points to.
pub record Port : Type 0 where
  pub clb : ℕ
  pub fb : ℕ
  pub is : ℕ
  pub ie : ℕ
  pub cmd : ℕ
  pub ssts : ℕ
  pub ci : ℕ
  pub command_list : ℕ → CommandHeader

-- AHCI_GENERIC_HOST_CONTROL, those that are used, and the ports.
pub record Hba : Type 0 where
  pub ghc : ℕ
  pub is : ℕ
  pub pi : ℕ
  pub cap2 : ℕ
  pub ports : ℕ → Port

-- AHCI_DEVICE_LIST
pub record Device : Type 0 where
  pub lba_size : ℕ
  pub lba_count_low : ℕ
  pub lba_count_high : ℕ
  pub port : ℕ
  pub model_number : Bytes

abbrev pub port_count : ℕ
port_count = 32

-- `x & (1 << i)`
abbrev pub has_bit : (x i : ℕ) → Bool
has_bit x i = x / 2 ^ i % 2 == 1

-- `x |= 1 << i`
abbrev pub set_bit : (x i : ℕ) → ℕ
set_bit x i = if has_bit x i then x else x + 2 ^ i

abbrev pub set_port : (ℕ → Port) → ℕ → Port → ℕ → Port
set_port ports i p k = if k == i then p else ports k

-- The loop that looks for a command that is not issued, and 0 if there is none.
unfoldable pub find_slot : (fuel i ci : ℕ) → ℕ
find_slot zero i ci = 0
find_slot (suc fuel) i ci = elim (has_bit ci i) [ true ↦ find_slot fuel (i + 1) ci | false ↦ i ]

-- sizeof(SATA_REG_H2D_FIS)
abbrev pub fis_size : ℕ
fis_size = 20

abbrev pub set_command : (ℕ → CommandHeader) → ℕ → CommandHeader → ℕ → CommandHeader
set_command l i c k = if k == i then c else l k

-- The index of the command, and the port when it is issued; then the code waits while the bit of the
-- command in PxCI is set.
unfoldable pub ahci_execute_command :
    (command_table : ℕ) (table : Bytes) (prdtl : ℕ) → Port → ℕ × Port
unfolding find_slot
ahci_execute_command command_table table prdtl p =
    let index = find_slot port_count 0 p.ci in
    (
      index,
      record p {
        command_list = set_command p.command_list index (record {
          desc_info = fis_size / 4 + u16 prdtl * 2 ^ 16;
          prdbc = 0;
          ctba = command_table;
          ctbau = 0;
          table = table;
        });
        ci = set_bit p.ci index;
      },
    )

-- Does the code wait on?
unfoldable pub is_waiting : (index : ℕ) → Port → Bool
is_waiting index p = has_bit p.ci index

-- The page of the new entry holds `entry` before.
unfoldable pub register_device :
    (entry model_number_buf : Bytes) (start port lba_size lba_count_low lba_count_high : ℕ)
    → List Device
    → List Device
unfolding memcpy write8
register_device entry model_number_buf start port lba_size lba_count_low lba_count_high devices =
    record {
      port = port;
      lba_size = lba_size;
      lba_count_low = lba_count_low;
      lba_count_high = lba_count_high;
      model_number = write8 (memcpy entry 0 model_number_buf start 40) 40 0;
    }
    ∷ devices

-- The loop of AHCI_write and AHCI_read over the disks; what follows reads through NULL if there is
-- none at the port.
unfoldable pub find_device : (port : ℕ) → List Device → Option Device
find_device port [] = none
find_device port (d ∷ l) = elim (d.port == port) [ true ↦ some d | false ↦ find_device port l ]

-- The rounds `i` to `i + n - 1` of the interrupt handler.
unfoldable pub acknowledge_ports : (n i : ℕ) → Hba → Hba
acknowledge_ports zero i h = h
acknowledge_ports (suc n) i h = acknowledge_ports n (i + 1) (
    if has_bit h.is i
    then record h { ports = set_port h.ports i (record (h.ports i) { is = 2 ^ 32 - 1 }) }
    else h)

-- The two ends of interrupt: port and value.
abbrev pub end_of_interrupt : List (ℕ × ℕ)
end_of_interrupt = (0x20, 0x20) ∷ (0xA0, 0x20) ∷ []

unfoldable pub interrupt_function_ahci : Hba → Hba × List (ℕ × ℕ)
unfolding acknowledge_ports
interrupt_function_ahci h = (acknowledge_ports port_count 0 h, end_of_interrupt)
