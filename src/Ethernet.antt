-- ===== src/Ethernet.antt =====
-- source/kernel/ethernet.c: the frame header before a packet, and what becomes of a received frame.
pub mod Frame
use kernel_on_qemu.Prelude.{ℕ, ◌+◌, ◌-◌, none, some, ◌==◌, if◌then◌else◌}
use kernel_on_qemu.Words.{netswap16}
use kernel_on_qemu.Bytes.{Bytes, write16, read16, memset, memcpy}
use kernel_on_qemu.Packet.{
  e_fail, NetworkPacket, NetworkInterface, NetworkMessage, NetworkMessageDesc, Decoded,
}
use kernel_on_qemu.Arp.{ArpTable, Destination, arp_lookup, arp_decode}
use kernel_on_qemu.Ipv4.Decode.{ipv4_decode}

abbrev pub ether_type_ipv4 : ℕ
ether_type_ipv4 = 0x0800

abbrev pub ether_type_arp : ℕ
ether_type_arp = 0x0806

abbrev pub ether_header_size : ℕ
ether_header_size = 14

-- The object behind a destination that was given.
abbrev pub object_of : Bytes → Destination → Bytes
object_of m none = m
object_of m (some (m', a)) = m'

-- The destination address of an IPv4 frame. When the lookup fails the six bytes stay as they are.
unfoldable pub dest_addr : Bytes → ℕ → ℕ → ArpTable → Bytes × ArpTable
dest_addr page a ip table =
    if ip == 0
    then (memset page a 0xFF 6, table)
    else (let (code, dest, table') = arp_lookup ip (some (page, a)) table in
        (object_of page dest, table'))

-- The sender's address and the type, which both kinds of frame write last.
unfoldable pub source_and_type : Bytes → ℕ → NetworkInterface → ℕ → Bytes
source_and_type page a intf ether_type =
    write16 (memcpy page (a + 6) intf.ether_addr 0 6) (a + 12) (netswap16 ether_type)

unfoldable pub ether_req :
    NetworkPacket → NetworkInterface → (ether_type ip : ℕ) → ArpTable → NetworkPacket × ArpTable
unfolding dest_addr source_and_type
ether_req pkt intf ether_type ip table =
    let start = pkt.start - ether_header_size in
    if ether_type == ether_type_ipv4
    then (let (page, table') = dest_addr pkt.page start ip table in
        (record pkt { page = source_and_type page start intf ether_type; start = start }, table'))
    else if ether_type == ether_type_arp
    then (
      record pkt {
        page = source_and_type (memset pkt.page start 0xFF 6) start intf ether_type;
        start = start;
      },
      table,
    )
    else (record pkt { start = start }, table)

unfoldable pub ether_decode : NetworkMessage → NetworkMessageDesc → Bytes → ℕ → Decoded
ether_decode msg msg_desc m buf =
    let ether_type = netswap16 (read16 m (buf + 12)) in
    if ether_type == ether_type_ipv4
    then ipv4_decode msg msg_desc m (buf + ether_header_size)
    else if ether_type == ether_type_arp
    then arp_decode msg msg_desc m (buf + ether_header_size)
    else (e_fail, msg, msg_desc)
