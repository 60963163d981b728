-- ===== src/Network/Handshake.antt =====
-- The packets of the three-way handshake of source/kernel/networking.c, as they go to the network card.
use kernel_on_qemu.Prelude.{ℕ, ◌+◌, ◌<◌, ◌^◌, ◌≡◌, refl, some, [], ◌∷◌, ◌++◌, arith}
use kernel_on_qemu.Words.{u32}
use kernel_on_qemu.Bytes.{Bytes}
use kernel_on_qemu.Packet.{NetworkPacket, NetworkInterface, NetworkMessage, NetworkMessageDesc}
use kernel_on_qemu.Socket.{Socket}
use kernel_on_qemu.Socket.Calls.{connect_tcp, connect_to}
use kernel_on_qemu.Ethernet.{ether_decode}
use kernel_on_qemu.Ipv4.Request.{tcp_req}
use kernel_on_qemu.Ipv4.Stream
use kernel_on_qemu.Network.Receive.{rx_tcp_socket, tcp_syn, tcp_ack}
use kernel_on_qemu.Network.Transmit.{Wire, tx_socket, tx_tcp, send_tcp, tx_send, empty_packet}
use kernel_on_qemu.Network.Session.{poll, segment, run, syn_ack, established}

module _ (intfs : ℕ → NetworkInterface) (pages : ℕ → Bytes) where
  -- The packet is received as a segment without data, with these fields.
  abbrev pub IsReceived :
      (p : NetworkPacket) (port_out port_in flags seq ack : ℕ) (w : Wire) → Type 0
  IsReceived p port_out port_in flags seq ack w =
      (msg : NetworkMessage) (desc : NetworkMessageDesc)
      → Stream.Delivered (ether_decode msg desc p.page p.start)
          (Stream.segment port_out port_in flags seq ack) (empty_packet intfs pages w)

  -- The packet of a segment without data.
  abbrev sent_packet : Socket → (flags : ℕ) → Wire → NetworkPacket
  sent_packet s flags w =
      (tcp_req (empty_packet intfs pages w) (intfs s.intf) s.port_out s.port_in s.ip_out flags s.seq
        s.ack w.table).0

  sent_packet-IsReceived :
      (s : Socket) (flags : ℕ) (w : Wire)
      → s.port_out < 2 ^ 16
      → s.port_in < 2 ^ 16
      → flags < 2 ^ 8
      → s.seq < 2 ^ 32
      → s.ack < 2 ^ 32
      → IsReceived (sent_packet s flags w) s.port_out s.port_in flags s.seq s.ack w
  unfolding empty_packet
  sent_packet-IsReceived s flags w ho hi hf hq ha msg desc =
      Stream.tcp_round_trip (empty_packet intfs pages w) (intfs s.intf) s.port_out s.port_in
        s.ip_out flags s.seq s.ack w.table msg desc (omega arith) (omega arith) (omega arith) ho hi
        hf hq ha

  -- The three-way handshake of a socket that `kconnect` has set up: a poll sends a packet, the answer
  -- of the server arrives, a poll sends a packet. Whatever number the server starts with, the socket
  -- is open, and just two packets went to the card. The first is received as a SYN with the sequence
  -- number 0, and the second as an acknowledgement of the server's number, with the sequence number 1.
  -- The ports are of 16 bits.
  pub handshake_lem :
      (sck : Socket) (ip_out port_out server_seq : ℕ) (msg : NetworkMessage)
      (desc : NetworkMessageDesc) (w : Wire)
      → port_out < 2 ^ 16
      → sck.port_in < 2 ^ 16
      → let s = connect_tcp sck ip_out port_out in
        (w1 w2 : Wire) × (p1 p2 : NetworkPacket) × (run intfs pages
            (poll ∷ segment msg (syn_ack desc server_seq) ∷ poll ∷ [])
            s
            w
          ≡ some (established s server_seq, w2))
        × (w2.sent ≡ (w.sent ++ (p1 ∷ [])) ++ (p2 ∷ []))
        × IsReceived p1 port_out sck.port_in tcp_syn 0 0 w
        × IsReceived p2 port_out sck.port_in tcp_ack 1 (u32 (server_seq + 1)) w1
  unfolding run tx_socket tx_tcp rx_tcp_socket connect_tcp connect_to send_tcp tx_send
  handshake_lem sck ip_out port_out server_seq msg desc w ho hi =
      let s = connect_tcp sck ip_out port_out in
      let s' = established s server_seq in
      let w1 = send_tcp intfs pages s tcp_syn (empty_packet intfs pages w) w in
      (
        w1,
        _,
        sent_packet s tcp_syn w,
        sent_packet s' tcp_ack w1,
        refl,
        refl,
        sent_packet-IsReceived s tcp_syn w ho hi (omega arith) (omega arith) (omega arith),
        sent_packet-IsReceived s' tcp_ack w1 ho hi (omega arith) (omega arith) (omega arith),
      )
