-- ===== src/Tests/Packets.antt =====
-- The packets of source/kernel/arp.c, ipv4.c, udp.c and tcp.c at concrete inputs.
use kernel_on_qemu.Prelude.{suc, ◌-◌, ◌≡◌, none, some, [], arith, ◌==◌, if◌then◌else◌}
use kernel_on_qemu.Checksum.{netchecksum}
use kernel_on_qemu.Packet.{NetworkPacket, NetworkInterface, NetworkMessage, NetworkMessageDesc}
use kernel_on_qemu.Arp.{arp_sort}
use kernel_on_qemu.Arp.Table.{Learns, arp_sort-Learns}
use kernel_on_qemu.Ethernet.{ether_decode}
use kernel_on_qemu.Ipv4.Request.{ipv4_req, udp_req, tcp_req}
use kernel_on_qemu.Ipv4.Verify.{ipv4_req_verifies}
use kernel_on_qemu.Ipv4.Segment.{receiver, tcp_req_verifies}
use kernel_on_qemu.Ipv4.Datagram
use kernel_on_qemu.Ipv4.Stream

-- Four bytes to send, on a page of zeros.
abbrev packet : NetworkPacket
packet = record { page = λ x. if x == 0x101 then 42 else 0; start = 0x100; end = 0x104 }

abbrev interface : NetworkInterface
interface = record {
  ether_addr = λ x. 0x52;
  ip_addr = 0xC0A80178;
  ip_addr_dhcp = 0xC0A80101;
  ip_addr_dns = 0xC0A80101;
  subnet_mask = 0xFFFFFF00;
}

abbrev message : NetworkMessage
message = record { buf = λ x. 0; len = 0 }

abbrev description : NetworkMessageDesc
description = record { protocol = 0; src_port = 0; dest_port = 0; flags = 0; seq = 0; ack = 0 }

ipv4_req_verifies_example :
    netchecksum (ipv4_req packet interface 17 0xC0A80105 none).0.page (0x100 - 20) 0x100 ≡ 0
ipv4_req_verifies_example =
    ipv4_req_verifies packet interface 17 0xC0A80105 none (λ x. ground arith) (omega arith)
      (omega arith)

tcp_req_verifies_example :
    netchecksum
      (receiver (tcp_req packet interface 80 1024 0xC0A80105 18 1 2 none).0.page (0x100 - 20 - 20))
      (0x100 - 20 - 12)
      0x104
    ≡ 0
tcp_req_verifies_example =
    tcp_req_verifies packet interface 80 1024 0xC0A80105 18 1 2 none (omega arith) (omega arith)
      (λ x. ground arith) (omega arith) (omega arith) (omega arith) (omega arith)

udp_round_trip_example :
    let sent = (udp_req packet interface 68 67 0xC0A80105 none).0 in
    Datagram.Delivered
      (ether_decode message description sent.page sent.start)
      description
      packet
      68
      67
udp_round_trip_example =
    Datagram.udp_round_trip packet interface 68 67 0xC0A80105 none message description (omega arith)
      (omega arith) (omega arith) (omega arith) (omega arith)

tcp_round_trip_example :
    let sent = (tcp_req packet interface 80 1024 0xC0A80105 18 1 2 none).0 in
    Stream.Delivered
      (ether_decode message description sent.page sent.start)
      (Stream.segment 80 1024 18 1 2)
      packet
tcp_round_trip_example =
    Stream.tcp_round_trip packet interface 80 1024 0xC0A80105 18 1 2 none message description
      (omega arith) (omega arith) (omega arith) (omega arith) (omega arith) (omega arith)
      (omega arith) (omega arith)

-- A reply; the page of the new entry is all zeros.
abbrev reply : NetworkMessage
reply = record { buf = λ x. if x == 7 then 2 else if x == 14 then 10 else 0; len = 28 }

arp_sort-Learns_example :
    Learns
      (λ d eth. suc d)
      (λ x. 0)
      reply
      5
      []
      (arp_sort (λ d eth. suc d) (λ x. 0) reply 5 (some []))
arp_sort-Learns_example = arp_sort-Learns (λ d eth. suc d) (λ x. 0) reply 5 []
