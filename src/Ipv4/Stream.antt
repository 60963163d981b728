-- ===== src/Ipv4/Stream.antt =====
-- Decoding the segments that `tcp_req` of source/kernel/tcp.c builds.
use kernel_on_qemu.Prelude.{ℕ, ◌+◌, ◌-◌, ◌^◌, ◌≤◌, ◌<◌, ◌≡◌, ◌∙◌, refl, ap, arith}
use mathlib.Core.Path.{subst, sym}
use kernel_on_qemu.Words.{netswap16, netswap32, sub32}
use kernel_on_qemu.Bytes.{Bytes, write8, write16, write32, read16, read32}
use kernel_on_qemu.Bytes.Fields.{read32-write32_below, network_field}
use kernel_on_qemu.Bytes.Laws.{memcpy_lem, memset_lem}
use kernel_on_qemu.Packet.{
  e_ok, NetworkPacket, NetworkInterface, NetworkMessage, NetworkMessageDesc, protocol_tcp, Decoded,
}
use kernel_on_qemu.Arp.{ArpTable}
use kernel_on_qemu.Ethernet.{ether_decode}
use kernel_on_qemu.Ipv4.Decode.{tcp_decode, ipv4_protocol_tcp}
use kernel_on_qemu.Ipv4.Request.{ipv4_req, tcp_fields, pseudo_header, tcp_header, tcp_req}
use kernel_on_qemu.Ipv4.Verify.{ipv4_req_above}
use kernel_on_qemu.Ipv4.RoundTrip.{decodes_tcp}

-- The fields of the TCP header that are decoded.
record Fields (m : Bytes) (h : ℕ) (desc : NetworkMessageDesc) : Type 0 where
  src : netswap16 (read16 m h) ≡ desc.src_port
  dest : netswap16 (read16 m (h + 2)) ≡ desc.dest_port
  seq : netswap32 (read32 m (h + 4)) ≡ desc.seq
  ack : netswap32 (read32 m (h + 8)) ≡ desc.ack
  flags : m (h + 13) ≡ desc.flags

abbrev pub segment : (send_port recv_port flags seq ack : ℕ) → NetworkMessageDesc
segment send_port recv_port flags seq ack = record {
  protocol = protocol_tcp;
  src_port = recv_port;
  dest_port = send_port;
  flags = flags;
  seq = seq;
  ack = ack;
}

tcp_fields-Fields :
    (m : Bytes) (h send_port recv_port flags seq ack : ℕ)
    → send_port < 2 ^ 16
    → recv_port < 2 ^ 16
    → flags < 2 ^ 8
    → seq < 2 ^ 32
    → ack < 2 ^ 32
    → Fields
        (tcp_fields m h send_port recv_port flags seq ack)
        h
        (segment send_port recv_port flags seq ack)
tcp_fields-Fields m h send_port recv_port flags seq ack hs hr hf hq ha = record {
  src = unfold tcp_fields write32 write16 write8 read16 netswap16 in ground arith;
  dest = unfold tcp_fields write32 write16 write8 read16 netswap16 in ground arith;
  seq =
      unfold tcp_fields in
      ap netswap32 (read32-write32_below _ (h + 8) (netswap32 ack) (h + 4) (omega arith))
      ∙ network_field _ (h + 4) seq hq;
  ack = unfold tcp_fields in network_field _ (h + 8) ack ha;
  flags = unfold tcp_fields write32 write16 write8 in ground arith;
}

Fields-same :
    (m n : Bytes) (h : ℕ) (desc : NetworkMessageDesc)
    → ((x : ℕ) → h ≤ x → x < h + 16 → n x ≡ m x)
    → Fields m h desc
    → Fields n h desc
unfolding read16 read32
Fields-same m n h desc same f = record {
  src = ground (arith, f.src, same h, same (h + 1));
  dest = ground (arith, f.dest, same (h + 2), same (h + 2 + 1));
  seq = ground (arith, f.seq, same (h + 4), same (h + 4 + 1), same (h + 4 + 2), same (h + 4 + 3));
  ack = ground (arith, f.ack, same (h + 8), same (h + 8 + 1), same (h + 8 + 2), same (h + 8 + 3));
  flags = ground (arith, f.flags, same (h + 13));
}

-- Only the checksum and the pseudo header before the segment are written after the fields.
tcp_header_same :
    (m : Bytes) (h end : ℕ) (intf : NetworkInterface) (send_port recv_port ip flags seq ack x : ℕ)
    → 12 ≤ h
    → h ≤ x
    → x < h + 16
    → tcp_header m h end intf send_port recv_port ip flags seq ack x
      ≡ tcp_fields m h send_port recv_port flags seq ack x
unfolding tcp_header pseudo_header write32 write16 write8
tcp_header_same m h end intf send_port recv_port ip flags seq ack x room lo hi = ground arith

tcp_header_above :
    (m : Bytes) (h end : ℕ) (intf : NetworkInterface) (send_port recv_port ip flags seq ack x : ℕ)
    → 12 ≤ h
    → h + 20 ≤ x
    → tcp_header m h end intf send_port recv_port ip flags seq ack x ≡ m x
unfolding tcp_header tcp_fields pseudo_header write32 write16 write8
tcp_header_above m h end intf send_port recv_port ip flags seq ack x room lo =
    ground (arith, memset_lem m h 0 20 x)

-- What a decoded segment is to be.
pub record Delivered (d : Decoded) (desc : NetworkMessageDesc) (pkt : NetworkPacket) : Type 0 where
  pub code : d.0 ≡ e_ok
  pub length : d.1.len ≡ pkt.end - pkt.start
  pub payload : (i : ℕ) → i < pkt.end - pkt.start → d.1.buf i ≡ pkt.page (pkt.start + i)
  pub description : d.2 ≡ desc

tcp_decode-Delivered :
    (msg : NetworkMessage) (desc : NetworkMessageDesc) (f : Bytes) (pkt : NetworkPacket)
    (send_port recv_port flags seq ack : ℕ)
    → 20 ≤ pkt.start
    → Fields f (pkt.start - 20) (segment send_port recv_port flags seq ack)
    → pkt.start ≤ pkt.end
    → pkt.end < pkt.start + 2 ^ 14
    → ((x : ℕ) → pkt.start ≤ x → f x ≡ pkt.page x)
    → Delivered
        (tcp_decode msg desc f (pkt.start - 20) (pkt.end - (pkt.start - 20)))
        (segment send_port recv_port flags seq ack)
        pkt
unfolding tcp_decode
tcp_decode-Delivered msg desc f pkt send_port recv_port flags seq ack room g le small same =
    let n : sub32 (pkt.end - (pkt.start - 20)) 20 ≡ pkt.end - pkt.start = omega arith in
    record {
      code = refl;
      length = n;
      payload = λ i lt. ground (
        arith,
        n,
        memcpy_lem msg.buf 0 f (pkt.start - 20 + 20) (sub32 (pkt.end - (pkt.start - 20)) 20) i,
        same (pkt.start + i),
      );
      description = ground (arith, g.src, g.dest, g.seq, g.ack, g.flags);
    }

-- A TCP segment that is sent decodes, on any page and with any ARP table, to its ports, flags,
-- sequence numbers and payload. There are 54 bytes before the payload for the headers, the payload
-- has less than 2 ^ 14 bytes, and the fields have values of their widths.
pub tcp_round_trip :
    (pkt : NetworkPacket) (intf : NetworkInterface) (send_port recv_port ip flags seq ack : ℕ)
    (table : ArpTable) (msg : NetworkMessage) (desc : NetworkMessageDesc)
    → 54 ≤ pkt.start
    → pkt.start ≤ pkt.end
    → pkt.end < pkt.start + 2 ^ 14
    → send_port < 2 ^ 16
    → recv_port < 2 ^ 16
    → flags < 2 ^ 8
    → seq < 2 ^ 32
    → ack < 2 ^ 32
    → let sent = (tcp_req pkt intf send_port recv_port ip flags seq ack table).0 in
      Delivered
        (ether_decode msg desc sent.page sent.start)
        (segment send_port recv_port flags seq ack)
        pkt
unfolding tcp_req
tcp_round_trip pkt intf send_port recv_port ip flags seq ack table msg desc room payload small hs hr
      hf hq ha =
    let h : ℕ = pkt.start - 20 in
    let page : Bytes = tcp_header pkt.page h pkt.end intf send_port recv_port ip flags seq ack in
    let inner : NetworkPacket = record pkt { page = page; start = h } in
    let f : Bytes = (ipv4_req inner intf ipv4_protocol_tcp ip table).0.page in
    let above = ipv4_req_above inner intf ipv4_protocol_tcp ip table in
    let fields : Bytes = tcp_fields pkt.page h send_port recv_port flags seq ack in
    subst (λ d. Delivered d (segment send_port recv_port flags seq ack) pkt)
      (sym (
        decodes_tcp inner intf ipv4_protocol_tcp ip table (omega arith) msg desc refl (omega arith)
          (omega arith)))
      (tcp_decode-Delivered msg desc f pkt send_port recv_port flags seq ack (omega arith)
        (Fields-same fields f h (segment send_port recv_port flags seq ack)
          (λ x lo hi.
            above x (omega arith) lo
            ∙ tcp_header_same pkt.page h pkt.end intf send_port recv_port ip flags seq ack x
                (omega arith) lo hi)
          (tcp_fields-Fields pkt.page h send_port recv_port flags seq ack hs hr hf hq ha))
        payload small
        (λ x lo.
          above x (omega arith) (omega arith)
          ∙ tcp_header_above pkt.page h pkt.end intf send_port recv_port ip flags seq ack x
              (omega arith) (omega arith)))
