-- ===== src/Ethernet/Frame.antt =====
-- What `ether_req` of source/kernel/ethernet.c leaves alone.
use kernel_on_qemu.Prelude.{ℕ, ◌+◌, ◌-◌, ◌≤◌, ◌≡◌, refl, Option, none, some, List, arith}
use kernel_on_qemu.Bytes.{Bytes, write16, memset}
use kernel_on_qemu.Bytes.Laws.{memset_lem, memcpy_lem}
use kernel_on_qemu.Packet.{NetworkPacket, NetworkInterface}
use kernel_on_qemu.Arp.{ArpEntry, ArpTable, find_entry, answer, arp_lookup}
use kernel_on_qemu.Ethernet.{ether_header_size, object_of, dest_addr, source_and_type, ether_req}

source_and_type_above :
    (page : Bytes) (a : ℕ) (intf : NetworkInterface) (ether_type x : ℕ)
    → a + 14 ≤ x
    → source_and_type page a intf ether_type x ≡ page x
unfolding source_and_type write16
source_and_type_above page a intf ether_type x h =
    ground (arith, memcpy_lem page (a + 6) intf.ether_addr 0 6 x)

answer_above :
    (page : Bytes) (a : ℕ) (es : List ArpEntry) (found : Option ArpEntry) (x : ℕ)
    → a + 14 ≤ x
    → object_of page (answer (some (page, a)) es found).1 x ≡ page x
unfolding answer
answer_above page a es none x h = refl
answer_above page a es (some e) x h = ground (arith, memcpy_lem page a e.eth 0 6 x)

dest_addr_above :
    (page : Bytes) (a ip : ℕ) (table : ArpTable) (x : ℕ)
    → a + 14 ≤ x
    → (dest_addr page a ip table).0 x ≡ page x
unfolding dest_addr arp_lookup
dest_addr_above page a ip none x h = ground (arith, memset_lem page a 0xFF 6 x)
dest_addr_above page a ip (some es) x h =
    ground (arith, memset_lem page a 0xFF 6 x, answer_above page a es (find_entry ip es) x)

-- The frame header lies before the packet: no byte from the packet's start on changes.
pub ether_req_above :
    (pkt : NetworkPacket) (intf : NetworkInterface) (ether_type ip : ℕ) (table : ArpTable) (x : ℕ)
    → ether_header_size ≤ pkt.start
    → pkt.start ≤ x
    → (ether_req pkt intf ether_type ip table).0.page x ≡ pkt.page x
unfolding ether_req
ether_req_above pkt intf ether_type ip table x fits h = ground (
  arith,
  dest_addr_above pkt.page (pkt.start - ether_header_size) ip table x,
  source_and_type_above (dest_addr pkt.page (pkt.start - ether_header_size) ip table).0
      (pkt.start - ether_header_size) intf ether_type x,
  source_and_type_above (memset pkt.page (pkt.start - ether_header_size) 0xFF 6)
      (pkt.start - ether_header_size) intf ether_type x,
  memset_lem pkt.page (pkt.start - ether_header_size) 0xFF 6 x,
)
