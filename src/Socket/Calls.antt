-- ===== src/Socket/Calls.antt =====
-- ksocket, kconnect, kwrite, kread and kclose of source/kernel/socket.c.
use Prim.Native.Nat.{bit_and}
use kernel_on_qemu.Prelude.{ℕ, not, ◌&&◌, Option, none, some, [], ◌∷◌, ◌++◌, ◌==◌, if◌then◌else◌}
use kernel_on_qemu.Bytes.{Bytes, memcpy}
use kernel_on_qemu.Packet.{ErrCode, e_ok, e_fail, NetworkInterface, NetworkMessage}
use kernel_on_qemu.Arp.{ArpTable, arp_lookup, arp_req}
use kernel_on_qemu.Socket.State.{
  s_syn, s_fin, s_write, s_null, is_open, Socket, Process, Outcome, done, waits, fault,
  socket_protocol_tcp, socket_protocol_udp,
}

-- What memset leaves of a socket: the status 0 is S_SYN, the protocol 0 is TCP.
abbrev pub zeroed : Socket
zeroed = record {
  port_in = 0;
  port_out = 0;
  ip_out = 0;
  protocol = 0;
  seq = 0;
  ack = 0;
  intf = 0;
  status = s_syn;
  connect_status = s_syn;
  message_queue_in = none;
  message_queue_out = none;
}

-- The task's socket for ARP, made by the first call.
unfoldable pub with_arp_sck : (intf : ℕ) → Process → Process
with_arp_sck intf p = elim p.arp_sck [
  | some s ↦ p
  | none ↦ record p {
    arp_sck =
        some
          (record zeroed { intf = intf; message_queue_in = some []; message_queue_out = some [] });
  }
]

-- The new socket is the first of the task's list. A task with no list faults.
unfoldable pub ksocket : (intf port_in : ℕ) → Process → Outcome (Socket × Process)
unfolding with_arp_sck
ksocket intf port_in p =
    let sck : Socket = record zeroed {
      port_in = port_in;
      intf = intf;
      status = s_null;
      connect_status = s_null;
    } in
    elim p.sockets [
      | none ↦ fault
      | some l ↦ done (sck, record (with_arp_sck intf p) { sockets = some (sck ∷ l) })
    ]

-- Copies the page of the message, queues it and asks for it to be sent. `copy` is what the page of
-- the copy held before.
unfoldable pub kwrite : (copy : Bytes) → Socket → Bytes → ℕ → Outcome (ErrCode × Socket)
kwrite copy sck buf len =
    let msg : NetworkMessage = record { buf = memcpy copy 0 buf 0 0x1000; len = len } in
    elim sck.message_queue_out [
      | none ↦ fault
      | some q ↦
          done (e_ok, record sck { message_queue_out = some (q ++ (msg ∷ [])); status = s_write })
    ]

-- The first message of the queue, copied to `buf`; its length.
unfoldable pub kread : Socket → Bytes → Outcome (ℕ × Bytes × Socket)
kread sck buf = elim sck.message_queue_in [
  | none ↦ fault
  | some [] ↦ waits
  | some (msg ∷ q) ↦
      done (msg.len, memcpy buf 0 msg.buf 0 msg.len, record sck { message_queue_in = some q })
]

unfoldable pub kclose : Socket → Outcome Socket
kclose sck =
    if sck.protocol == socket_protocol_tcp
    then (if is_open sck.status then done (record sck { status = s_fin }) else waits)
    else done sck

-- The socket of `kconnect`, set up for a protocol; `status` is set for TCP only.
unfoldable pub connect_to : Socket → (ip_out port_out protocol : ℕ) → Socket
connect_to sck ip_out port_out protocol = record sck {
  ip_out = ip_out;
  port_out = port_out;
  protocol = protocol;
  message_queue_in = some [];
  message_queue_out = some [];
  seq = 0;
  ack = 0;
}

unfoldable pub connect_tcp : Socket → (ip_out port_out : ℕ) → Socket
unfolding connect_to
connect_tcp sck ip_out port_out = record (connect_to sck ip_out port_out socket_protocol_tcp) {
  status = s_syn;
  connect_status = s_syn;
}

-- How far `kconnect` comes before it waits or returns. `resolving` waits until the address is in
-- the table, and has queued a request on the socket for ARP; `opening` waits for the handshake.
pub data Connect : Type 0 where
  returned : ErrCode → Socket → Connect
  resolving : Socket → ArpTable → Connect
  opening : Socket → ArpTable → Connect
  faulted : Connect

-- The request for the address `ip_out`, in a page that held `buf` before.
unfoldable pub request_address :
    (copy buf : Bytes) → NetworkInterface → Option Socket → ℕ → ArpTable → Connect
unfolding kwrite
request_address copy buf intf none ip_out table = faulted
request_address copy buf intf (some arp_sck) ip_out table =
    let (b, len) = arp_req intf buf ip_out in
    elim (kwrite copy arp_sck b len) [
      | done r ↦ resolving r.1 table
      | waits ↦ faulted
      | fault ↦ faulted
    ]

unfoldable pub kconnect :
    (copy buf : Bytes)
    → NetworkInterface
    → (arp_sck : Option Socket) → Socket
    → (ip_out port_out protocol : ℕ) → ArpTable
    → Connect
unfolding request_address connect_tcp
kconnect copy buf intf arp_sck sck ip_out port_out protocol table =
    if protocol == socket_protocol_tcp
    then (if intf.ip_addr == 0
        then returned e_fail sck
        else if bit_and intf.subnet_mask intf.ip_addr == bit_and intf.subnet_mask ip_out
        then (let (code, dest, table') = arp_lookup ip_out none table in
            elim code [
              | e_fail ↦ request_address copy buf intf arp_sck ip_out table'
              | e_ok ↦ opening (connect_tcp sck ip_out port_out) table'
            ])
        else opening (connect_tcp sck ip_out port_out) table)
    else if protocol == socket_protocol_udp
    then (if intf.ip_addr == 0 && not (ip_out == 0)
        then returned e_fail sck
        else returned e_ok (connect_to sck ip_out port_out socket_protocol_udp))
    else returned e_fail sck

-- The wait for the address: it looks again, and goes on once the address is there.
unfoldable pub await_address :
    Socket → (ip_out port_out : ℕ) → ArpTable → Outcome (Socket × ArpTable)
unfolding connect_tcp
await_address sck ip_out port_out table =
    let (code, dest, table') = arp_lookup ip_out none table in
    elim code [ e_fail ↦ waits | e_ok ↦ done (connect_tcp sck ip_out port_out, table') ]

-- The wait for the handshake.
unfoldable pub await_open : Socket → Outcome ErrCode
await_open sck = if is_open sck.connect_status then done e_ok else waits
