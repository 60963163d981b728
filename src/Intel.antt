-- ===== src/Intel.antt =====
-- source/kernel/intel_8254xx.c: the descriptors of the card, its registers, sending and the filter for
-- addresses. What the code reads from a register is a parameter; what it writes is logged in order.
pub mod Init
pub mod Poll
pub mod Ring
pub mod Filter
pub mod Received
pub mod Started
use kernel_on_qemu.Prelude.{
  ℕ, zero, suc, ◌+◌, ◌-◌, ◌*◌, ◌/◌, ◌%◌, ◌^◌, Bool, List, [], ◌∷◌, ◌++◌, ◌==◌, if◌then◌else◌,
}
use kernel_on_qemu.Words.{u8, u16, u32, sub32}
use kernel_on_qemu.Bytes.{Bytes}
use kernel_on_qemu.Packet.{NetworkPacket}

-- INTEL_8254XX_RX_DESC
pub record RxDesc : Type 0 where
  pub addr_low : ℕ
  pub addr_high : ℕ
  pub length : ℕ
  pub checksum : ℕ
  pub status : ℕ
  pub errors : ℕ
  pub special : ℕ

-- INTEL_8254XX_TX_DESC
pub record TxDesc : Type 0 where
  pub addr_low : ℕ
  pub addr_high : ℕ
  pub length : ℕ
  pub cso : ℕ
  pub command : ℕ
  pub status : ℕ
  pub css : ℕ
  pub special : ℕ

-- INTEL_8254XX_DEVICE, and the writes to its registers: offset and value, the first one first.
pub record IntelDevice : Type 0 where
  pub rxdl : ℕ → RxDesc
  pub txdl : ℕ → TxDesc
  pub tx_tail : ℕ
  pub reg_base_addr : ℕ
  pub rar_count : ℕ
  pub writes : List (ℕ × ℕ)

abbrev pub rx_desc_count : ℕ
rx_desc_count = 0x100

abbrev pub tx_desc_count : ℕ
tx_desc_count = 0x100

abbrev pub reg_ctrl : ℕ
reg_ctrl = 0x00

abbrev pub reg_eerd : ℕ
reg_eerd = 0x14

abbrev pub reg_tdt : ℕ
reg_tdt = 0x3818

abbrev pub reg_ral0 : ℕ
reg_ral0 = 0x5400

abbrev pub reg_rah0 : ℕ
reg_rah0 = 0x5404

unfoldable pub mmio_write : (offset value : ℕ) → IntelDevice → IntelDevice
mmio_write offset value d = record d { writes = d.writes ++ ((offset, value) ∷ []) }

-- `eerd` is the register when the word at `addr` has been read.
unfoldable pub intel_8254xx_eeprom_read : (eerd addr : ℕ) → IntelDevice → ℕ × IntelDevice
unfolding mmio_write
intel_8254xx_eeprom_read eerd addr d =
    (u16 (eerd / 2 ^ 16), mmio_write reg_eerd (1 + u8 addr * 2 ^ 8) d)

abbrev pub set_tx : (ℕ → TxDesc) → ℕ → TxDesc → ℕ → TxDesc
set_tx l i t k = if k == i then t else l k

-- The page of the packet is at `page`.
unfoldable pub intel_8254xx_tx_send : (page : ℕ) → NetworkPacket → IntelDevice → IntelDevice
unfolding mmio_write
intel_8254xx_tx_send page pkt d =
    let tail = d.tx_tail in
    let desc = record (d.txdl tail) {
      addr_low = u32 (page + pkt.start);
      length = u16 (sub32 pkt.end pkt.start);
      command = 0xB;
      status = 0;
    } in
    let next = (tail + 1) % tx_desc_count in
    mmio_write reg_tdt next (record d { txdl = set_tx d.txdl tail desc; tx_tail = next })

-- The two words of an address in the filter; bit 31 of the high one makes it valid.
abbrev pub address_low : Bytes → ℕ
address_low eth = eth 0 + eth 1 * 2 ^ 8 + eth 2 * 2 ^ 16 + eth 3 * 2 ^ 24

abbrev pub address_high : Bytes → ℕ
address_high eth = eth 4 + eth 5 * 2 ^ 8 + 2 ^ 16 + 2 ^ 31

unfoldable pub intel_8254xx_rar_add : IntelDevice → Bytes → IntelDevice
unfolding mmio_write
intel_8254xx_rar_add d eth =
    let d = mmio_write (reg_ral0 + 8 * d.rar_count) (address_low eth) d in
    let d = mmio_write (reg_rah0 + 8 * d.rar_count) (address_high eth) d in
    record d { rar_count = u32 (d.rar_count + 1) }
