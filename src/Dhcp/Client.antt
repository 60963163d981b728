-- ===== src/Dhcp/Client.antt =====
-- The whole client of source/kernel/dhcp_client.c, with its calls of the sockets.
use kernel_on_qemu.Prelude.{ℕ, Option, none, some}
use kernel_on_qemu.Bytes.{Bytes}
use kernel_on_qemu.Packet.{ErrCode, e_fail, NetworkInterface}
use kernel_on_qemu.Arp.{ArpTable}
use kernel_on_qemu.Socket.State.{Socket, Process, Outcome, done, waits, fault, socket_protocol_udp}
use kernel_on_qemu.Socket.Calls.{Connect, ksocket, kconnect, kwrite, kread}
use kernel_on_qemu.Dhcp.{dhcp_discover, dhcp_request, dhcp_req, Offer, take_offer, take_ack}

abbrev pub bootp_port_client : ℕ
bootp_port_client = 68

abbrev pub bootp_port_server : ℕ
bootp_port_server = 67

-- What the client starts with: the interface and its name, the task's sockets, the ARP table, the
-- transaction number, and the pages that it allocates, with what they held.
pub record Setting : Type 0 where
  pub intf_name : ℕ
  pub intf : NetworkInterface
  pub process : Process
  pub table : ArpTable
  pub xid : ℕ
  pub send_buf : Bytes
  pub recv_buf : Bytes
  pub copy : Bytes

-- How the client ends: with its code, the interface and its socket. `waiting`: no answer has come.
-- `endless`: an answer has no end of its options within the fuel.
pub data Ending : Type 0 where
  ended : ErrCode → NetworkInterface → Socket → Ending
  waiting : Ending
  endless : Ending
  faulted : Ending

-- The socket after `kconnect`, whose code is not looked at. For UDP it does not wait.
abbrev pub connected : Connect → Option Socket
connected (Connect.returned code sck) = some sck
connected (Connect.resolving sck table) = none
connected (Connect.opening sck table) = none
connected Connect.faulted = none

abbrev pub and_then : {A : Type 0} → Outcome A → (A → Ending) → Ending
and_then (done a) f = f a
and_then waits f = waiting
and_then fault f = faulted

-- From the second answer on.
unfoldable pub end_client :
    (fuel : ℕ) → NetworkInterface → (Offer × ℕ) → (ℕ × Bytes × Socket) → Ending
end_client fuel intf offer (recv_len, recv_buf, sck) =
    elim (take_ack fuel intf offer recv_buf recv_len) [
      | none ↦ endless
      | some (code, intf') ↦ ended code intf' sck
    ]

-- The request, sent from the page `send_buf`, and the wait for the second answer: `polls` is what the
-- polling tasks make of the socket meanwhile.
unfoldable pub request_lease :
    (fuel : ℕ)
    → Setting
    → (polls : Socket → Socket) → (send_buf : Bytes) → (xid : ℕ) → (Offer × ℕ)
    → Bytes
    → Socket
    → Ending
request_lease fuel s polls send_buf xid (o, offer_ip) recv_buf sck =
    let (m, len, xid') = dhcp_req s.intf send_buf dhcp_request offer_ip o.offer_dhcp xid in
    and_then (kwrite s.copy sck m len)
      λ w. and_then (kread (polls w.1) recv_buf) (end_client fuel s.intf (o, offer_ip))

-- From the first answer on.
unfoldable pub answer_offer :
    (fuel : ℕ)
    → Setting
    → (polls : Socket → Socket) → (send_buf : Bytes) → (xid : ℕ) → (ℕ × Bytes × Socket)
    → Ending
answer_offer fuel s polls send_buf xid (recv_len, recv_buf, sck) =
    elim (take_offer fuel recv_buf recv_len) [
      | none ↦ endless
      | some none ↦ ended e_fail s.intf sck
      | some (some offer) ↦ request_lease fuel s polls send_buf xid offer recv_buf sck
    ]

-- The discovery, and the wait for the first answer.
unfoldable pub discover :
    (fuel : ℕ) → Setting → (polls polls' : Socket → Socket) → Option Socket → Ending
discover fuel s polls polls' none = faulted
discover fuel s polls polls' (some sck) =
    let (m, len, xid) = dhcp_req s.intf s.send_buf dhcp_discover 0 0 s.xid in
    and_then (kwrite s.copy sck m len)
      λ w. and_then (kread (polls w.1) s.recv_buf) (answer_offer fuel s polls' m xid)

unfoldable pub dhcp_client : (fuel : ℕ) → Setting → (polls polls' : Socket → Socket) → Ending
dhcp_client fuel s polls polls' = and_then (ksocket s.intf_name bootp_port_client s.process) λ r.
    discover fuel s polls polls' (
      connected (
        kconnect s.copy s.send_buf s.intf r.1.arp_sck r.0 0 bootp_port_server socket_protocol_udp
          s.table))
