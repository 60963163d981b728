-- ===== src/Network/Life.antt =====
-- The life of a socket: the calls of source/kernel/socket.c by its task, and the polls and messages
-- of source/kernel/networking.c, in any order.
use kernel_on_qemu.Prelude.{ℕ, ◌≡◌, refl, Bool, some, arith}
use mathlib.Core.Path.{subst}
use kernel_on_qemu.Bytes.{Bytes}
use kernel_on_qemu.Packet.{ErrCode, NetworkInterface, NetworkMessage, NetworkMessageDesc}
use kernel_on_qemu.Socket.{Socket, Process, done, socket_protocol_udp}
use kernel_on_qemu.Socket.Calls.{ksocket, kwrite, kread, kclose, connect_to, connect_tcp}
use kernel_on_qemu.Network.Receive.{rx_tcp_socket, rx_udp_socket}
use kernel_on_qemu.Network.Transmit.{Wire, tx_socket}
use kernel_on_qemu.Network.Invariant.{
  HasQueues, Kept, rx_tcp_socket-HasQueues, rx_udp_socket-HasQueues,
}
use kernel_on_qemu.Network.Session.{tx_socket-HasQueues}

pub data SocketStep (intfs : ℕ → NetworkInterface) (pages : ℕ → Bytes)
    : Socket → Socket → Type 0 where
  connecting_tcp : (s : Socket) (ip port : ℕ) → SocketStep intfs pages s (connect_tcp s ip port)
  connecting_udp :
      (s : Socket) (ip port : ℕ)
      → SocketStep intfs pages s (connect_to s ip port socket_protocol_udp)
  writing :
      (copy buf : Bytes) (len : ℕ) (code : ErrCode) (s s' : Socket)
      → kwrite copy s buf len ≡ done (code, s')
      → SocketStep intfs pages s s'
  reading :
      (buf buf' : Bytes) (len : ℕ) (s s' : Socket)
      → kread s buf ≡ done (len, buf', s')
      → SocketStep intfs pages s s'
  closing : (s s' : Socket) → kclose s ≡ done s' → SocketStep intfs pages s s'
  receiving_tcp :
      (msg : NetworkMessage) (desc : NetworkMessageDesc) (took : Bool) (s s' : Socket)
      → rx_tcp_socket msg desc s ≡ some (s', took)
      → SocketStep intfs pages s s'
  receiving_udp :
      (msg : NetworkMessage) (desc : NetworkMessageDesc) (took : Bool) (s s' : Socket)
      → rx_udp_socket msg desc s ≡ some (s', took)
      → SocketStep intfs pages s s'
  polling :
      (w w' : Wire) (s s' : Socket)
      → tx_socket intfs pages s w ≡ some (s', w')
      → SocketStep intfs pages s s'

-- The sockets that a socket can become.
pub data Becomes (intfs : ℕ → NetworkInterface) (pages : ℕ → Bytes) (s : Socket)
    : Socket → Type 0 where
  unchanged : Becomes intfs pages s s
  after :
      {t u : Socket}
      → Becomes intfs pages s t
      → SocketStep intfs pages t u
      → Becomes intfs pages s u

kwrite-HasQueues :
    (copy buf : Bytes) (len : ℕ) (code : ErrCode) (s s' : Socket)
    → kwrite copy s buf len ≡ done (code, s')
    → HasQueues s
    → HasQueues s'
unfolding kwrite
kwrite-HasQueues copy buf len code s s' e v = ground arith

kread-HasQueues :
    (buf buf' : Bytes) (len : ℕ) (s s' : Socket)
    → kread s buf ≡ done (len, buf', s')
    → HasQueues s
    → HasQueues s'
unfolding kread
kread-HasQueues buf buf' len s s' e v = ground arith

kclose-HasQueues : (s s' : Socket) → kclose s ≡ done s' → HasQueues s → HasQueues s'
unfolding kclose
kclose-HasQueues s s' e v = ground arith

module _ (intfs : ℕ → NetworkInterface) (pages : ℕ → Bytes) where
  SocketStep-HasQueues : {s t : Socket} → SocketStep intfs pages s t → HasQueues s → HasQueues t
  unfolding connect_tcp connect_to
  SocketStep-HasQueues (connecting_tcp s ip port) v = record {
    both = refl;
    incoming = λ n. refl;
    outgoing = λ n. refl;
  }
  SocketStep-HasQueues (connecting_udp s ip port) v = record {
    both = refl;
    incoming = λ n. refl;
    outgoing = λ n. refl;
  }
  SocketStep-HasQueues (writing copy buf len code s s' e) v =
      kwrite-HasQueues copy buf len code s s' e v
  SocketStep-HasQueues (reading buf buf' len s s' e) v = kread-HasQueues buf buf' len s s' e v
  SocketStep-HasQueues (closing s s' e) v = kclose-HasQueues s s' e v
  SocketStep-HasQueues (receiving_tcp msg desc took s s' e) v =
      subst Kept e (rx_tcp_socket-HasQueues msg desc s v)
  SocketStep-HasQueues (receiving_udp msg desc took s s' e) v =
      subst Kept e (rx_udp_socket-HasQueues msg desc s v)
  SocketStep-HasQueues (polling w w' s s' e) v =
      subst Kept e (tx_socket-HasQueues intfs pages s w v)

  Becomes-HasQueues : {s t : Socket} → Becomes intfs pages s t → HasQueues s → HasQueues t
  Becomes-HasQueues unchanged v = v
  Becomes-HasQueues (after r st) v = SocketStep-HasQueues st (Becomes-HasQueues r v)

  -- A socket that `ksocket` returned has both its queues or none, and has both unless its status is
  -- S_NULL, whatever its task calls, and whatever is received and polled, in any order.
  pub ksocket-HasQueues :
      (intf port_in : ℕ) (p p' : Process) (s t : Socket)
      → ksocket intf port_in p ≡ done (s, p')
      → Becomes intfs pages s t
      → HasQueues t
  unfolding ksocket
  ksocket-HasQueues intf port_in p p' s t e r =
      let made : HasQueues s = ground arith in Becomes-HasQueues r made
