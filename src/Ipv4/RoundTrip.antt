-- ===== src/Ipv4/RoundTrip.antt =====
-- `ether_decode` of source/kernel/ethernet.c on the frames of `udp_req` and `tcp_req`.
use kernel_on_qemu.Prelude.{ℕ, ◌+◌, ◌-◌, ◌^◌, ◌≤◌, ◌<◌, ◌≡◌, ◌∙◌, ap, ◌*◌, ◌%◌, refl, arith}
use mathlib.Core.Path.{ap₂}
use kernel_on_qemu.Words.{u8, netswap16}
use kernel_on_qemu.Bytes.{Bytes, write8, write16, write32, read16}
use kernel_on_qemu.Packet.{NetworkPacket, NetworkInterface, NetworkMessage, NetworkMessageDesc}
use kernel_on_qemu.Arp.{ArpTable}
use kernel_on_qemu.Ethernet.{ether_type_ipv4, ether_req, ether_decode}
use kernel_on_qemu.Ethernet.Frame.{ether_req_above}
use kernel_on_qemu.Ipv4.Decode.{ipv4_decode, udp_decode, tcp_decode}
use kernel_on_qemu.Ipv4.Request.{ipv4_fields, ipv4_header, ipv4_req, next_hop}

ether_type_sent :
    (pkt : NetworkPacket) (intf : NetworkInterface) (ip : ℕ) (table : ArpTable)
    → netswap16 (read16 (ether_req pkt intf ether_type_ipv4 ip table).0.page (pkt.start - 14 + 12))
      ≡ ether_type_ipv4
unfolding ether_req write16 write8 read16 netswap16
ether_type_sent pkt intf ip table = ground arith

pub protocol_sent :
    (m : Bytes) (h : ℕ) (intf : NetworkInterface) (length protocol ip : ℕ)
    → ipv4_header m h intf length protocol ip (h + 9) ≡ u8 protocol
unfolding ipv4_header ipv4_fields write16 write8 write32
protocol_sent m h intf length protocol ip = ground arith

pub length_sent :
    (m : Bytes) (h : ℕ) (intf : NetworkInterface) (length protocol ip : ℕ)
    → length < 2 ^ 16
    → netswap16 (read16 (ipv4_header m h intf length protocol ip) (h + 2)) ≡ length
unfolding ipv4_header ipv4_fields write16 write8 write32 read16 netswap16
length_sent m h intf length protocol ip small = ground arith

-- The three headers of a frame, as the decoder reads them at the frame's start `b`.
module _ (pkt : NetworkPacket) (intf : NetworkInterface) (protocol ip : ℕ) (table : ArpTable)
    (room : 34 ≤ pkt.start) where
  abbrev pub frame : Bytes
  frame = (ipv4_req pkt intf protocol ip table).0.page

  abbrev base : ℕ
  base = pkt.start - 20 - 14

  frame_ether_type : netswap16 (read16 frame (base + 12)) ≡ ether_type_ipv4
  unfolding ipv4_req
  frame_ether_type =
      let h : ℕ = pkt.start - 20 in
      let page : Bytes = ipv4_header pkt.page h intf (pkt.end - h) protocol ip in
      ether_type_sent (record pkt { page = page; start = h }) intf (next_hop intf ip) table

  pub frame_header :
      (x : ℕ)
      → pkt.start - 20 ≤ x
      → frame x
        ≡ ipv4_header pkt.page (pkt.start - 20) intf (pkt.end - (pkt.start - 20)) protocol ip x
  unfolding ipv4_req
  frame_header x lo =
      let h : ℕ = pkt.start - 20 in
      let page : Bytes = ipv4_header pkt.page h intf (pkt.end - h) protocol ip in
      ether_req_above (record pkt { page = page; start = h }) intf ether_type_ipv4
        (next_hop intf ip) table x (omega arith) lo

  frame_protocol : frame (base + 14 + 9) ≡ u8 protocol
  frame_protocol =
      let e : base + 14 + 9 ≡ pkt.start - 20 + 9 = omega arith in
      ap frame e
      ∙ frame_header (pkt.start - 20 + 9) (omega arith)
      ∙ protocol_sent pkt.page (pkt.start - 20) intf (pkt.end - (pkt.start - 20)) protocol ip

  frame_length :
      pkt.end < pkt.start + 2 ^ 15
      → pkt.start ≤ pkt.end
      → netswap16 (read16 frame (base + 14 + 2)) ≡ pkt.end - (pkt.start - 20)
  unfolding read16
  frame_length small payload =
      let h : ℕ = pkt.start - 20 in
      let e : base + 14 + 2 ≡ h + 2 = omega arith in
      ap (λ x. netswap16 (read16 frame x)) e
      ∙ ap₂ (λ a b. netswap16 (a + b * 2 ^ 8)) (frame_header (h + 2) (omega arith))
          (frame_header (h + 2 + 1) (omega arith))
      ∙ length_sent pkt.page h intf (pkt.end - h) protocol ip (omega arith)

  frame_start : (ipv4_req pkt intf protocol ip table).0.start ≡ base
  unfolding ipv4_req ether_req
  frame_start = refl

  pub decodes_udp :
      (msg : NetworkMessage) (desc : NetworkMessageDesc)
      → u8 protocol ≡ 17
      → ether_decode msg desc frame (ipv4_req pkt intf protocol ip table).0.start
        ≡ udp_decode msg desc frame pkt.start
  unfolding ether_decode ipv4_decode
  decodes_udp msg desc is_udp =
      let e : base + 14 + 20 ≡ pkt.start = omega arith in
      ap (ether_decode msg desc frame) frame_start
      ∙ rw (frame_ether_type, frame_protocol, is_udp) (ap (udp_decode msg desc frame) e)

  pub decodes_tcp :
      (msg : NetworkMessage) (desc : NetworkMessageDesc)
      → u8 protocol ≡ 6
      → pkt.end < pkt.start + 2 ^ 15
      → pkt.start ≤ pkt.end
      → ether_decode msg desc frame (ipv4_req pkt intf protocol ip table).0.start
        ≡ tcp_decode msg desc frame pkt.start (pkt.end - pkt.start)
  unfolding ether_decode ipv4_decode
  decodes_tcp msg desc is_tcp small payload =
      let e : base + 14 + 20 ≡ pkt.start = omega arith in
      let n : (pkt.end - (pkt.start - 20) + 2 ^ 16 - 20) % 2 ^ 16 ≡ pkt.end - pkt.start =
        omega arith in
      ap (ether_decode msg desc frame) frame_start
      ∙ rw (frame_ether_type, frame_protocol, is_tcp, frame_length small payload)
          (ap₂ (tcp_decode msg desc frame) e n)
