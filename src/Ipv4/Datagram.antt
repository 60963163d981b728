-- ===== src/Ipv4/Datagram.antt =====
-- Decoding the datagrams that `udp_req` of source/kernel/udp.c builds.
use kernel_on_qemu.Prelude.{ℕ, ◌+◌, ◌-◌, ◌^◌, ◌≤◌, ◌<◌, ◌≡◌, ◌∙◌, refl, arith}
use mathlib.Core.Path.{subst, sym}
use kernel_on_qemu.Words.{netswap16}
use kernel_on_qemu.Bytes.{Bytes, write8, write16, read16}
use kernel_on_qemu.Bytes.Laws.{memcpy_lem}
use kernel_on_qemu.Packet.{
  e_ok, NetworkPacket, NetworkInterface, NetworkMessage, NetworkMessageDesc, protocol_udp, Decoded,
}
use kernel_on_qemu.Arp.{ArpTable}
use kernel_on_qemu.Ethernet.{ether_decode}
use kernel_on_qemu.Ipv4.Decode.{udp_decode, ipv4_protocol_udp}
use kernel_on_qemu.Ipv4.Request.{ipv4_req, udp_header, udp_req}
use kernel_on_qemu.Ipv4.Verify.{ipv4_req_above}
use kernel_on_qemu.Ipv4.RoundTrip.{decodes_udp}

-- The fields of the UDP header.
record Fields (m : Bytes) (h send_port recv_port length : ℕ) : Type 0 where
  src : netswap16 (read16 m h) ≡ recv_port
  dest : netswap16 (read16 m (h + 2)) ≡ send_port
  len : netswap16 (read16 m (h + 4)) ≡ length

udp_header-Fields :
    (m : Bytes) (h send_port recv_port length : ℕ)
    → send_port < 2 ^ 16
    → recv_port < 2 ^ 16
    → length < 2 ^ 16
    → Fields (udp_header m h send_port recv_port length) h send_port recv_port length
unfolding udp_header write16 write8 read16 netswap16
udp_header-Fields m h send_port recv_port length hs hr hl = record {
  src = ground arith;
  dest = ground arith;
  len = ground arith;
}

udp_header_above :
    (m : Bytes) (h send_port recv_port length x : ℕ)
    → h + 8 ≤ x
    → udp_header m h send_port recv_port length x ≡ m x
unfolding udp_header write16 write8
udp_header_above m h send_port recv_port length x lo = ground arith

Fields-same :
    (m n : Bytes) (h send_port recv_port length : ℕ)
    → ((x : ℕ) → h ≤ x → n x ≡ m x)
    → Fields m h send_port recv_port length
    → Fields n h send_port recv_port length
unfolding read16
Fields-same m n h send_port recv_port length same f = record {
  src = ground (arith, f.src, same h, same (h + 1));
  dest = ground (arith, f.dest, same (h + 2), same (h + 2 + 1));
  len = ground (arith, f.len, same (h + 4), same (h + 4 + 1));
}

-- What a decoded datagram is to be.
pub record Delivered (d : Decoded) (desc : NetworkMessageDesc) (pkt : NetworkPacket)
    (send_port recv_port : ℕ) : Type 0 where
  pub code : d.0 ≡ e_ok
  pub length : d.1.len ≡ pkt.end - pkt.start + 8
  pub payload : (i : ℕ) → i < pkt.end - pkt.start → d.1.buf i ≡ pkt.page (pkt.start + i)
  pub description :
      d.2 ≡ record desc { protocol = protocol_udp; src_port = recv_port; dest_port = send_port }

udp_decode-Delivered :
    (msg : NetworkMessage) (desc : NetworkMessageDesc) (f : Bytes) (pkt : NetworkPacket)
    (send_port recv_port : ℕ)
    → 8 ≤ pkt.start
    → Fields f (pkt.start - 8) send_port recv_port (pkt.end - (pkt.start - 8))
    → pkt.start ≤ pkt.end
    → ((x : ℕ) → pkt.start ≤ x → f x ≡ pkt.page x)
    → Delivered (udp_decode msg desc f (pkt.start - 8)) desc pkt send_port recv_port
unfolding udp_decode
udp_decode-Delivered msg desc f pkt send_port recv_port room g le same = record {
  code = refl;
  length = ground (arith, g.len);
  payload = λ i lt. ground (
    arith,
    g.len,
    memcpy_lem msg.buf 0 f (pkt.start - 8 + 8) (netswap16 (read16 f (pkt.start - 8 + 4))) i,
    same (pkt.start + i),
  );
  description = ground (arith, g.src, g.dest);
}

-- A UDP datagram that is sent decodes, on any page and with any ARP table, to its ports and its
-- payload. The length of the message counts the payload and the eight bytes of the UDP header.
-- There are 42 bytes before the payload for the headers, the payload has less than 2 ^ 14 bytes, and
-- the ports are of 16 bits.
pub udp_round_trip :
    (pkt : NetworkPacket) (intf : NetworkInterface) (send_port recv_port ip : ℕ) (table : ArpTable)
    (msg : NetworkMessage) (desc : NetworkMessageDesc)
    → 42 ≤ pkt.start
    → pkt.start ≤ pkt.end
    → pkt.end < pkt.start + 2 ^ 14
    → send_port < 2 ^ 16
    → recv_port < 2 ^ 16
    → let sent = (udp_req pkt intf send_port recv_port ip table).0 in
      Delivered (ether_decode msg desc sent.page sent.start) desc pkt send_port recv_port
unfolding udp_req
udp_round_trip pkt intf send_port recv_port ip table msg desc room payload small hs hr =
    let h : ℕ = pkt.start - 8 in
    let length : ℕ = pkt.end - h in
    let page : Bytes = udp_header pkt.page h send_port recv_port length in
    let inner : NetworkPacket = record pkt { page = page; start = h } in
    let f : Bytes = (ipv4_req inner intf ipv4_protocol_udp ip table).0.page in
    let above = ipv4_req_above inner intf ipv4_protocol_udp ip table in
    subst (λ d. Delivered d desc pkt send_port recv_port)
      (sym (decodes_udp inner intf ipv4_protocol_udp ip table (omega arith) msg desc refl))
      (udp_decode-Delivered msg desc f pkt send_port recv_port (omega arith)
        (Fields-same page f h send_port recv_port length (λ x lo. above x (omega arith) lo)
          (udp_header-Fields pkt.page h send_port recv_port length hs hr (omega arith)))
        payload
        (λ x lo.
          above x (omega arith) (omega arith)
          ∙ udp_header_above pkt.page h send_port recv_port length x (omega arith)))
