-- ===== src/Ipv4/Request.antt =====
-- `ipv4_req` of source/kernel/ipv4.c, `udp_req` of source/kernel/udp.c and `tcp_req` of
-- source/kernel/tcp.c: the headers before a payload.
use Prim.Native.Nat.{bit_and}
use kernel_on_qemu.Prelude.{ℕ, ◌+◌, ◌-◌, ◌*◌, ◌==◌, if◌then◌else◌}
use kernel_on_qemu.Words.{u8, netswap16, netswap32}
use kernel_on_qemu.Bytes.{Bytes, write8, write16, write32, memset}
use kernel_on_qemu.Checksum.{netchecksum}
use kernel_on_qemu.Packet.{NetworkPacket, NetworkInterface}
use kernel_on_qemu.Arp.{ArpTable}
use kernel_on_qemu.Ethernet.{ether_type_ipv4, ether_req}
use kernel_on_qemu.Ipv4.Decode.{
  udp_header_size, tcp_header_size, ipv4_header_size, ipv4_protocol_tcp, ipv4_protocol_udp,
}

-- The fields of the header at offset `h`, with a checksum of 0. The source address is left as it is
-- for an interface without one.
unfoldable pub ipv4_fields : Bytes → (h : ℕ) → NetworkInterface → (length protocol ip : ℕ) → Bytes
ipv4_fields m h intf length protocol ip =
    let m = write8 m h (4 * 16 + 5) in
    let m = write8 m (h + 1) 0x10 in
    let m = write16 m (h + 2) (netswap16 length) in
    let m = write16 m (h + 4) 0 in
    let m = write16 m (h + 6) 0 in
    let m = write8 m (h + 8) 64 in
    let m = write8 m (h + 9) (u8 protocol) in
    let m = write16 m (h + 10) 0 in
    let m = if intf.ip_addr == 0 then m else write32 m (h + 12) (netswap32 intf.ip_addr) in
    if ip == 0 then write32 m (h + 16) 0xFFFFFFFF else write32 m (h + 16) (netswap32 ip)

-- The header with its checksum.
unfoldable pub ipv4_header : Bytes → (h : ℕ) → NetworkInterface → (length protocol ip : ℕ) → Bytes
ipv4_header m h intf length protocol ip =
    let m = ipv4_fields m h intf length protocol ip in
    write16 m (h + 10) (netswap16 (netchecksum m h (h + ipv4_header_size)))

-- The address whose Ethernet address the frame goes to.
unfoldable pub next_hop : NetworkInterface → ℕ → ℕ
next_hop intf ip =
    if ip == 0
    then 0
    else if bit_and intf.subnet_mask ip == bit_and intf.subnet_mask intf.ip_addr_dhcp
    then ip
    else intf.ip_addr_dhcp

unfoldable pub ipv4_req :
    NetworkPacket → NetworkInterface → (protocol ip : ℕ) → ArpTable → NetworkPacket × ArpTable
ipv4_req pkt intf protocol ip table =
    let start = pkt.start - ipv4_header_size in
    let page = ipv4_header pkt.page start intf (pkt.end - start) protocol ip in
    ether_req (record pkt { page = page; start = start }) intf ether_type_ipv4 (next_hop intf ip)
      table

-- The UDP header at offset `h`. Its checksum is not written.
unfoldable pub udp_header : Bytes → (h send_port recv_port length : ℕ) → Bytes
udp_header m h send_port recv_port length =
    write16 (write16 (write16 m h (netswap16 recv_port)) (h + 2) (netswap16 send_port)) (h + 4)
      (netswap16 length)

unfoldable pub udp_req :
    NetworkPacket
    → NetworkInterface
    → (send_port recv_port ip : ℕ) → ArpTable
    → NetworkPacket × ArpTable
udp_req pkt intf send_port recv_port ip table =
    let start = pkt.start - udp_header_size in
    let page = udp_header pkt.page start send_port recv_port (pkt.end - start) in
    ipv4_req (record pkt { page = page; start = start }) intf ipv4_protocol_udp ip table

-- The TCP header at offset `h`, with a checksum of 0.
unfoldable pub tcp_fields : Bytes → (h send_port recv_port flags seq ack : ℕ) → Bytes
tcp_fields m h send_port recv_port flags seq ack =
    let m = memset m h 0 tcp_header_size in
    let m = write16 m h (netswap16 recv_port) in
    let m = write16 m (h + 2) (netswap16 send_port) in
    let m = write8 m (h + 12) (5 * 16) in
    let m = write8 m (h + 13) (u8 flags) in
    let m = write16 m (h + 14) (netswap16 0x4000) in
    let m = write32 m (h + 4) (netswap32 seq) in write32 m (h + 8) (netswap32 ack)

-- The pseudo header, in the 12 bytes before the TCP header.
unfoldable pub pseudo_header : Bytes → (p : ℕ) → NetworkInterface → (ip length : ℕ) → Bytes
pseudo_header m p intf ip length =
    let m = write32 m p (netswap32 intf.ip_addr) in
    let m = write32 m (p + 4) (netswap32 ip) in
    let m = write8 m (p + 8) 0 in
    let m = write8 m (p + 9) ipv4_protocol_tcp in write16 m (p + 10) (netswap16 length)

abbrev pub pseudo_header_size : ℕ
pseudo_header_size = 12

unfoldable pub tcp_header :
    Bytes → (h end : ℕ) → NetworkInterface → (send_port recv_port ip flags seq ack : ℕ) → Bytes
tcp_header m h end intf send_port recv_port ip flags seq ack =
    let p = h - pseudo_header_size in
    let m = tcp_fields m h send_port recv_port flags seq ack in
    let m = pseudo_header m p intf ip (end - h) in
    write16 m (h + 16) (netswap16 (netchecksum m p end))

unfoldable pub tcp_req :
    NetworkPacket
    → NetworkInterface
    → (send_port recv_port ip flags seq ack : ℕ) → ArpTable
    → NetworkPacket × ArpTable
tcp_req pkt intf send_port recv_port ip flags seq ack table =
    let start = pkt.start - tcp_header_size in
    let page = tcp_header pkt.page start pkt.end intf send_port recv_port ip flags seq ack in
    ipv4_req (record pkt { page = page; start = start }) intf ipv4_protocol_tcp ip table
