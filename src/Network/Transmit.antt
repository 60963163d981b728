-- ===== src/Network/Transmit.antt =====
-- `networking_tx_poll` of source/kernel/networking.c: one round of the polling task. `none` is a
-- fault. The log is left out, and so is the page of the message, which is freed.
use kernel_on_qemu.Prelude.{ℕ, ◌+◌, Option, none, some, List, [], ◌∷◌, ◌++◌, ◌==◌, if◌then◌else◌}
use kernel_on_qemu.Words.{u32}
use kernel_on_qemu.Bytes.{Bytes, memcpy}
use kernel_on_qemu.Packet.{NetworkPacket, NetworkInterface, NetworkMessage}
use kernel_on_qemu.Arp.{ArpTable}
use kernel_on_qemu.Ethernet.{ether_req, ether_type_arp}
use kernel_on_qemu.Ipv4.Request.{udp_req, tcp_req}
use kernel_on_qemu.Socket.{
  SocketStatus, s_syn, s_ack, s_fin, s_open, s_write, s_read, s_null, is_syn, Socket, Process,
  MessageQueue, socket_protocol_udp, socket_protocol_tcp,
}
use kernel_on_qemu.Network.Receive.{tcp_syn, tcp_fin, tcp_psh, tcp_ack}

-- The ARP table, the pages that kalloc has handed out, and the packets given to `tx_send`, first
-- one first.
pub record Wire : Type 0 where
  pub table : ArpTable
  pub allocated : ℕ
  pub sent : List NetworkPacket

-- The offset of the payload in the page of a packet.
abbrev pub payload_offset : ℕ
payload_offset = 0x100

-- `pages n` is what the page of the n-th call of kalloc holds;
-- `intfs` holds the network interfaces by their addresses.
module _ (intfs : ℕ → NetworkInterface) (pages : ℕ → Bytes) where
  -- A packet with only a payload.
  unfoldable pub wrap : NetworkMessage → Wire → NetworkPacket
  wrap msg w = record {
    page = memcpy (pages w.allocated) payload_offset msg.buf 0 msg.len;
    start = payload_offset;
    end = payload_offset + msg.len;
  }

  unfoldable pub empty_packet : Wire → NetworkPacket
  empty_packet w = record { page = pages w.allocated; start = payload_offset; end = payload_offset }

  -- `tx_send` takes the packet that a `_req` function built.
  unfoldable pub tx_send : Wire → NetworkPacket × ArpTable → Wire
  tx_send w (pkt, table) = record {
    table = table;
    allocated = w.allocated + 1;
    sent = w.sent ++ (pkt ∷ []);
  }

  unfoldable pub send_arp : Socket → NetworkMessage → Wire → Wire
  unfolding wrap tx_send
  send_arp sck msg w = tx_send w (ether_req (wrap msg w) (intfs sck.intf) ether_type_arp 0 w.table)

  unfoldable pub send_udp : Socket → NetworkMessage → Wire → Wire
  unfolding wrap tx_send
  send_udp sck msg w =
      tx_send w (udp_req (wrap msg w) (intfs sck.intf) sck.port_out sck.port_in sck.ip_out w.table)

  unfoldable pub send_tcp : Socket → (flags : ℕ) → NetworkPacket → Wire → Wire
  unfolding tx_send
  send_tcp sck flags pkt w = tx_send w (
      tcp_req pkt (intfs sck.intf) sck.port_out sck.port_in sck.ip_out flags sck.seq sck.ack
        w.table)

  -- The loops that empty an outgoing queue, first message first.
  unfoldable pub drain : (NetworkMessage → Wire → Wire) → List NetworkMessage → Wire → Wire
  drain send [] w = w
  drain send (msg ∷ q) w = drain send q (send msg w)

  -- The queue that is left, and what was sent from it.
  unfoldable pub drain_queue :
      (NetworkMessage → Wire → Wire) → MessageQueue → Wire → MessageQueue × Wire
  unfolding drain
  drain_queue send none w = (none, w)
  drain_queue send (some q) w = (some [], drain send q w)

  unfoldable pub tx_write : Socket → MessageQueue → Wire → Option (Socket × Wire)
  unfolding send_tcp wrap
  tx_write sck none w = none
  tx_write sck (some []) w = some (sck, w)
  tx_write sck (some (msg ∷ q)) w = some (
    record sck { message_queue_out = some q; seq = u32 (sck.seq + msg.len) },
    send_tcp sck (tcp_psh + tcp_ack) (wrap msg w) w,
  )

  -- The branch for TCP, by the status of the socket.
  unfoldable pub tx_tcp : SocketStatus → Socket → Wire → Option (Socket × Wire)
  unfolding send_tcp empty_packet tx_write
  tx_tcp s_syn sck w = some (
    record sck { status = s_open; seq = u32 (sck.seq + 1) },
    send_tcp sck tcp_syn (empty_packet w) w,
  )
  tx_tcp s_fin sck w = some (
    record sck { status = s_open; seq = u32 (sck.seq + 1) },
    send_tcp sck (tcp_fin + tcp_ack) (empty_packet w) w,
  )
  tx_tcp s_write sck w = tx_write sck sck.message_queue_out w
  tx_tcp s_ack sck w = some (
    record sck {
      status = s_open;
      connect_status = if is_syn sck.connect_status then s_open else sck.connect_status;
    },
    send_tcp sck tcp_ack (empty_packet w) w,
  )
  tx_tcp s_open sck w = some (sck, w)
  tx_tcp s_read sck w = some (sck, w)
  tx_tcp s_null sck w = some (sck, w)

  unfoldable pub tx_socket : Socket → Wire → Option (Socket × Wire)
  unfolding drain_queue send_udp tx_tcp
  tx_socket sck w =
      if sck.protocol == socket_protocol_udp
      then (let (q, w') = drain_queue (send_udp sck) sck.message_queue_out w in
          some (record sck { message_queue_out = q }, w'))
      else if sck.protocol == socket_protocol_tcp
      then tx_tcp sck.status sck w
      else some (sck, w)

  abbrev pub then_sockets :
      Option (Socket × Wire) → (Wire → Option (List Socket × Wire)) → Option (List Socket × Wire)
  then_sockets none rest = none
  then_sockets (some (s, w)) rest = elim (rest w) [ none ↦ none | some (l, w') ↦ some (s ∷ l, w') ]

  unfoldable pub tx_sockets : List Socket → Wire → Option (List Socket × Wire)
  unfolding tx_socket
  tx_sockets [] w = some ([], w)
  tx_sockets (s ∷ l) w = then_sockets (tx_socket s w) (tx_sockets l)

  -- The socket for ARP of a process.
  unfoldable pub tx_arp : Option Socket → Wire → Option Socket × Wire
  unfolding drain_queue send_arp
  tx_arp none w = (none, w)
  tx_arp (some s) w =
      let (q, w') = drain_queue (send_arp s) s.message_queue_out w in
      (some (record s { message_queue_out = q }), w')

  abbrev pub with_list : Process → Option (List Socket × Wire) → Option (Process × Wire)
  with_list p none = none
  with_list p (some (l, w)) = some (record p { sockets = some l }, w)

  unfoldable pub tx_process : Process → Wire → Option (Process × Wire)
  unfolding tx_arp tx_sockets
  tx_process p w =
      let (arp_sck, w') = tx_arp p.arp_sck w in
      elim p.sockets [
        | none ↦ some (record p { arp_sck = arp_sck }, w')
        | some l ↦ with_list (record p { arp_sck = arp_sck }) (tx_sockets l w')
      ]

  abbrev pub then_processes :
      Option (Process × Wire) → (Wire → Option (List Process × Wire)) → Option (List Process × Wire)
  then_processes none rest = none
  then_processes (some (p, w)) rest = elim (rest w) [
    | none ↦ none
    | some (l, w') ↦ some (p ∷ l, w')
  ]

  unfoldable pub networking_tx_poll : List Process → Wire → Option (List Process × Wire)
  unfolding tx_process
  networking_tx_poll [] w = some ([], w)
  networking_tx_poll (p ∷ l) w = then_processes (tx_process p w) (networking_tx_poll l)
