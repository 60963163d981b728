-- ===== src/Socket/State.antt =====
-- SOCKET and SOCKET_STATUS of source/kernel/socket.h.
use kernel_on_qemu.Prelude.{ℕ, Bool, true, false, Option, List}
use kernel_on_qemu.Packet.{NetworkMessage}

pub data SocketStatus : Type 0 where
  s_syn s_ack s_fin s_open s_write s_read s_null : SocketStatus

abbrev pub is_open : SocketStatus → Bool
is_open s_open = true
is_open _ = false

abbrev pub is_write : SocketStatus → Bool
is_write s_write = true
is_write _ = false

abbrev pub is_syn : SocketStatus → Bool
is_syn s_syn = true
is_syn _ = false

-- The QUEUE of a socket; `none` is NULL.
abbrev pub MessageQueue : Type 0
MessageQueue = Option (List NetworkMessage)

-- SOCKET. `intf` names the NETWORK_INTERFACE, by its address.
pub record Socket : Type 0 where
  pub port_in : ℕ
  pub port_out : ℕ
  pub ip_out : ℕ
  pub protocol : ℕ
  pub seq : ℕ
  pub ack : ℕ
  pub intf : ℕ
  pub status : SocketStatus
  pub connect_status : SocketStatus
  pub message_queue_in : MessageQueue
  pub message_queue_out : MessageQueue

abbrev pub socket_protocol_tcp : ℕ
socket_protocol_tcp = 0

abbrev pub socket_protocol_udp : ℕ
socket_protocol_udp = 1

-- What a task of the system owns: TASK_STATE's list of sockets and its socket for ARP.
pub record Process : Type 0 where
  pub sockets : Option (List Socket)
  pub arp_sck : Option Socket

-- What comes of one try of a call.
pub data Outcome {ℓ} (A : Type ℓ) : Type ℓ where
  done : A → Outcome A
  waits : Outcome A
  fault : Outcome A
