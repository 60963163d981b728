-- ===== src/Ipv4/Decode.antt =====
-- The decoders of source/kernel/ipv4.c, udp.c and tcp.c: from the bytes of a received packet to the
-- message that is handed on.
use kernel_on_qemu.Prelude.{ℕ, ◌+◌, ◌-◌, ◌^◌, ◌==◌, if◌then◌else◌}
use kernel_on_qemu.Words.{u16, sub32, netswap16, netswap32}
use kernel_on_qemu.Bytes.{Bytes, read16, read32, memcpy}
use kernel_on_qemu.Packet.{
  e_ok, e_fail, NetworkMessage, NetworkMessageDesc, Decoded, protocol_udp, protocol_tcp,
}

abbrev pub udp_header_size : ℕ
udp_header_size = 8

abbrev pub tcp_header_size : ℕ
tcp_header_size = 20

abbrev pub ipv4_header_size : ℕ
ipv4_header_size = 20

abbrev pub ipv4_protocol_tcp : ℕ
ipv4_protocol_tcp = 6

abbrev pub ipv4_protocol_udp : ℕ
ipv4_protocol_udp = 17

unfoldable pub udp_decode : NetworkMessage → NetworkMessageDesc → Bytes → ℕ → Decoded
udp_decode msg msg_desc m buf =
    let length = netswap16 (read16 m (buf + 4)) in
    (
      e_ok,
      record { buf = memcpy msg.buf 0 m (buf + udp_header_size) length; len = length },
      record msg_desc {
        src_port = netswap16 (read16 m buf);
        dest_port = netswap16 (read16 m (buf + 2));
        protocol = protocol_udp;
      },
    )

-- `size` is a `uint16_t`; the subtraction from it is of 32-bit words and wraps. The decoders have no
-- bound on what they copy; the caller has the page of the message, and Intel.Poll tests the length.
unfoldable pub tcp_decode : NetworkMessage → NetworkMessageDesc → Bytes → (buf size : ℕ) → Decoded
tcp_decode msg msg_desc m buf size =
    let length = sub32 size tcp_header_size in
    (
      e_ok,
      record { buf = memcpy msg.buf 0 m (buf + tcp_header_size) length; len = length },
      record msg_desc {
        src_port = netswap16 (read16 m buf);
        dest_port = netswap16 (read16 m (buf + 2));
        protocol = protocol_tcp;
        flags = m (buf + 13);
        seq = netswap32 (read32 m (buf + 4));
        ack = netswap32 (read32 m (buf + 8));
      },
    )

unfoldable pub ipv4_decode : NetworkMessage → NetworkMessageDesc → Bytes → ℕ → Decoded
ipv4_decode msg msg_desc m buf =
    let protocol = m (buf + 9) in
    if protocol == ipv4_protocol_udp
    then udp_decode msg msg_desc m (buf + ipv4_header_size)
    else if protocol == ipv4_protocol_tcp
    then tcp_decode msg msg_desc m (buf + ipv4_header_size)
        (u16 (netswap16 (read16 m (buf + 2)) + 2 ^ 16 - ipv4_header_size))
    else (e_fail, msg, msg_desc)
