-- ===== src/Tests/Connection.antt =====
-- A TCP connection of source/kernel/networking.c at concrete segments.
use kernel_on_qemu.Prelude.{ℕ, ◌+◌, ◌≡◌, ◌≢◌, refl, true, none, some, [], ◌∷◌, ◌++◌, arith}
use kernel_on_qemu.Words.{u32}
use kernel_on_qemu.Bytes.{Bytes}
use kernel_on_qemu.Packet.{NetworkPacket, NetworkInterface, NetworkMessage, NetworkMessageDesc}
use kernel_on_qemu.Socket.{Socket, s_null, s_open, s_ack}
use kernel_on_qemu.Socket.Calls.{connect_tcp}
use kernel_on_qemu.Network.Receive.{rx_tcp_socket}
use kernel_on_qemu.Network.Transmit.{Wire}
use kernel_on_qemu.Network.Invariant.{HasQueues, Kept}
use kernel_on_qemu.Words.{u32}
use kernel_on_qemu.Network.Receive.{tcp_syn, tcp_ack}
use kernel_on_qemu.Network.Handshake.{IsReceived, handshake_lem}
use kernel_on_qemu.Network.Session.{
  poll, segment, run, syn_ack, psh_ack, established, stream, seq_after, Arrived, stream_arrives,
  run-HasQueues, rx_tcp_once,
}

abbrev pub interfaces : ℕ → NetworkInterface
interfaces i = record {
  ether_addr = λ x. 0x52;
  ip_addr = 0xC0A80178;
  ip_addr_dhcp = 0xC0A80101;
  ip_addr_dns = 0xC0A80101;
  subnet_mask = 0xFFFFFF00;
}

abbrev pub pages : ℕ → Bytes
pages n x = 0

abbrev pub wire : Wire
wire = record { table = some []; allocated = 0; sent = [] }

-- A socket that `ksocket` made.
abbrev pub fresh_socket : Socket
fresh_socket = record {
  port_in = 1024;
  port_out = 0;
  ip_out = 0;
  protocol = 0;
  seq = 0;
  ack = 0;
  intf = 0;
  status = s_null;
  connect_status = s_null;
  message_queue_in = none;
  message_queue_out = none;
}

abbrev connected : Socket
connected = established (connect_tcp fresh_socket 0xC0A80105 80) 100

abbrev pub hello : NetworkMessage
hello = record { buf = λ x. 104; len = 5 }

abbrev bye : NetworkMessage
bye = record { buf = λ x. 98; len = 3 }

abbrev pub plain : NetworkMessageDesc
plain = record { protocol = 1; src_port = 80; dest_port = 1024; flags = 0; seq = 0; ack = 0 }

stream_arrives_example :
    Arrived interfaces pages
      ([] ++ (hello ∷ bye ∷ []))
      (seq_after connected.ack (hello ∷ bye ∷ []))
      (run interfaces pages
        (stream plain connected.ack connected.seq (hello ∷ bye ∷ []))
        connected
        wire)
unfolding connect_tcp
stream_arrives_example =
    stream_arrives interfaces pages plain (hello ∷ bye ∷ []) [] connected wire refl refl refl

pub fresh_socket-HasQueues : HasQueues fresh_socket
fresh_socket-HasQueues = record { both = refl; incoming = ground arith; outgoing = ground arith }

run-HasQueues_example :
    Kept (run interfaces pages (poll ∷ segment hello plain ∷ poll ∷ []) fresh_socket wire)
run-HasQueues_example =
    run-HasQueues interfaces pages (poll ∷ segment hello plain ∷ poll ∷ []) fresh_socket wire
      fresh_socket-HasQueues

handshake_lem_example :
    (w1 w2 : Wire) × (p1 p2 : NetworkPacket) × (run interfaces pages
        (poll ∷ segment bye (syn_ack plain 100) ∷ poll ∷ [])
        (connect_tcp fresh_socket 0xC0A80105 80)
        wire
      ≡ some (established (connect_tcp fresh_socket 0xC0A80105 80) 100, w2))
    × (w2.sent ≡ ([] ++ (p1 ∷ [])) ++ (p2 ∷ []))
    × IsReceived interfaces pages p1 80 1024 tcp_syn 0 0 wire
    × IsReceived interfaces pages p2 80 1024 tcp_ack 1 (u32 (100 + 1)) w1
handshake_lem_example =
    handshake_lem interfaces pages fresh_socket 0xC0A80105 80 100 bye plain wire (omega arith)
      (omega arith)

-- An open socket that has sent the bytes up to 1 and received the bytes up to 101.
abbrev open_socket : Socket
open_socket = record fresh_socket {
  seq = 1;
  ack = 101;
  status = s_open;
  connect_status = s_open;
  message_queue_in = some [];
  message_queue_out = some [];
}

abbrev after_hello : Socket
after_hello = record open_socket { ack = 106; status = s_ack; message_queue_in = some (hello ∷ []) }

hello_taken : rx_tcp_socket hello (psh_ack plain 101 1) open_socket ≡ some (after_hello, true)
unfolding rx_tcp_socket
hello_taken = refl

rx_tcp_once_example :
    rx_tcp_socket hello (psh_ack plain 101 1) after_hello ≢ some (after_hello, true)
rx_tcp_once_example =
    rx_tcp_once hello (psh_ack plain 101 1) open_socket after_hello after_hello after_hello
      hello_taken refl (omega arith) (omega arith) (omega arith)
