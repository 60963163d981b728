-- ===== src/Network/Invariant.antt =====
-- The queues that a socket of source/kernel/networking.c needs.
use kernel_on_qemu.Prelude.{◌≡◌, Bool, true, false, Option, none, some, arith}
use kernel_on_qemu.Packet.{NetworkMessage, NetworkMessageDesc}
use kernel_on_qemu.Socket.{SocketStatus, s_null, Socket}
use kernel_on_qemu.Network.Receive.{rx_tcp_socket, rx_udp_socket, is_some}

-- A socket is in use once `kconnect` has given it queues.
abbrev pub is_null : SocketStatus → Bool
is_null s_null = true
is_null _ = false

-- A socket has both queues or none, and none only while its status is S_NULL.
pub record HasQueues (s : Socket) : Type 0 where
  pub both : is_some s.message_queue_in ≡ is_some s.message_queue_out
  pub incoming : is_null s.status ≡ false → is_some s.message_queue_in ≡ true
  pub outgoing : is_null s.status ≡ false → is_some s.message_queue_out ≡ true

abbrev pub Kept : {A : Type 0} → Option (Socket × A) → Type 0
Kept none = ⊥
Kept (some (s, a)) = HasQueues s

-- Receiving a segment never faults at such a socket, and it stays such a socket.
pub rx_tcp_socket-HasQueues :
    (msg : NetworkMessage) (desc : NetworkMessageDesc) (s : Socket)
    → HasQueues s
    → Kept (rx_tcp_socket msg desc s)
unfolding rx_tcp_socket
rx_tcp_socket-HasQueues msg desc s v = ground arith

pub rx_udp_socket-HasQueues :
    (msg : NetworkMessage) (desc : NetworkMessageDesc) (s : Socket)
    → HasQueues s
    → Kept (rx_udp_socket msg desc s)
unfolding rx_udp_socket
rx_udp_socket-HasQueues msg desc s v = ground arith
