-- ===== src/Intel/Poll.antt =====
-- `intel_8254xx_rx_poll` of source/kernel/intel_8254xx.c: one round over all descriptors. The buffer of
-- a descriptor is an object of its own, and the pages that kalloc returns are parameters.
use kernel_on_qemu.Prelude.{
  ltb, if◌then◌else◌, ℕ, zero, suc, ◌+◌, ◌%◌, true, false, List, Option, none, some, ◌>>=◌, ◌==◌,
}
use kernel_on_qemu.Bytes.{Bytes}
use kernel_on_qemu.Packet.{
  ErrCode.e_ok, ErrCode.e_fail, NetworkMessage, NetworkMessageDesc, Decoded,
}
use kernel_on_qemu.Arp.{ArpTable}
use kernel_on_qemu.Socket.{Process}
use kernel_on_qemu.Ethernet.{ether_decode}
use kernel_on_qemu.Network.Receive.{networking_rx_sort, Sorted}
use kernel_on_qemu.Intel.{IntelDevice, rx_desc_count, intel_8254xx_rar_add}
use kernel_on_qemu.Intel.Init.{set_rx}

-- What the driver works on: its device, the ARP table, and the processes.
pub record Receiver : Type 0 where
  pub device : IntelDevice
  pub table : ArpTable
  pub processes : List Process

-- For a descriptor: what the card stored in its buffer, the message in fresh pages, and the page of a
-- new ARP entry.
pub record RxPages : Type 0 where
  pub buffer : Bytes
  pub message : NetworkMessage
  pub entry : Bytes

-- `NETWORK_MESSAGE_DESC msg_desc = {}`
abbrev pub empty_desc : NetworkMessageDesc
empty_desc = record { protocol = 0; src_port = 0; dest_port = 0; flags = 0; seq = 0; ack = 0 }

abbrev pub with_sorted : Option (Sorted IntelDevice) → Option Receiver
with_sorted none = none
with_sorted (some s) = some (record { device = s.device; table = s.table; processes = s.processes })

-- The page that kalloc returns for the bytes of a message.
abbrev pub page_size : ℕ
page_size = 0x1000

-- A message that was decoded is sorted; another is dropped, and keeps its pages. `none` where the
-- decoder's `memcpy` wrote behind the page of the message: the decoders have no bound on its length.
unfoldable pub take_message : RxPages → Decoded → Receiver → Option Receiver
unfolding networking_rx_sort intel_8254xx_rar_add
take_message pages (e_ok, msg, desc) r =
    if ltb page_size msg.len
    then none
    else with_sorted
        (networking_rx_sort intel_8254xx_rar_add pages.entry msg desc r.device r.table r.processes)
take_message pages (e_fail, msg, desc) r = some r

unfoldable pub clear_status : (i : ℕ) → Receiver → Receiver
clear_status i r = record r {
  device = record (r.device) {
    rxdl = set_rx r.device.rxdl i (record (r.device.rxdl i) { status = 0 });
  };
}

-- The round for a descriptor.
unfoldable pub rx_desc_round : (pages : ℕ → RxPages) (i : ℕ) → Receiver → Option Receiver
unfolding take_message ether_decode clear_status
rx_desc_round pages i r = elim ((r.device.rxdl i).status % 2 == 1) [
  | true ↦
      take_message (pages i) (ether_decode (pages i).message empty_desc (pages i).buffer 0) r
      >>= λ r. some (clear_status i r)
  | false ↦ some r
]

-- The descriptors `i` to `i + n - 1`.
unfoldable pub rx_round : (pages : ℕ → RxPages) (n i : ℕ) → Receiver → Option Receiver
unfolding rx_desc_round
rx_round pages zero i r = some r
rx_round pages (suc n) i r = rx_desc_round pages i r >>= λ r. rx_round pages n (i + 1) r

unfoldable pub intel_8254xx_rx_poll : (pages : ℕ → RxPages) → Receiver → Option Receiver
unfolding rx_round
intel_8254xx_rx_poll pages r = rx_round pages rx_desc_count 0 r
