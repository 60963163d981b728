-- ===== src/Dhcp/Protocol.antt =====
-- What the whole client of source/kernel/dhcp_client.c does.
use kernel_on_qemu.Prelude.{
  ℕ, ◌<◌, ◌≡◌, ◌≢◌, refl, ◌∙◌, ap, false, Option, none, some, List, [], ◌∷◌, ◌++◌, length,
  if◌then◌else◌, Bool-cases, ◌==◌, inl, inr,
}
use kernel_on_qemu.Words.{netswap32}
use kernel_on_qemu.Bytes.{Bytes, memcpy, read32}
use kernel_on_qemu.Packet.{ErrCode, e_ok, e_fail, NetworkInterface, NetworkMessage}
use kernel_on_qemu.Arp.{ArpTable}
use kernel_on_qemu.Socket.State.{Socket, Process, socket_protocol_udp, s_write, s_null}
use kernel_on_qemu.Socket.Done.{received, kread_done, kwrite_done, ksocket_done}
use kernel_on_qemu.Socket.Calls.{zeroed, kconnect, connect_to, kwrite, kread}
use kernel_on_qemu.Dhcp.{
  Offer, no_offer, dhcp_req, dhcp_discover, dhcp_request, take_offer, take_ack, yiaddr,
}
use kernel_on_qemu.Dhcp.Options.{DhcpOption, offer_of, ack_of, read_all}
use kernel_on_qemu.Dhcp.Lease.{IsAnswer, take_offer_lem, take_ack_lem}
use kernel_on_qemu.Dhcp.Client.{
  Setting, Ending, ended, and_then, dhcp_client, discover, answer_offer, request_lease, end_client,
  connected, bootp_port_client, bootp_port_server,
}

-- The interface with the address and the servers of an offer.
abbrev pub leased : NetworkInterface → Offer → (ip : ℕ) → NetworkInterface
leased intf o ip = record intf {
  ip_addr = ip;
  ip_addr_dhcp = o.offer_dhcp;
  ip_addr_dns = o.offer_dns;
  subnet_mask = o.offer_subnet_mask;
}

-- The socket that the client makes and connects.
abbrev pub client_socket : Setting → Socket
client_socket s =
    connect_to
      (record zeroed {
        port_in = bootp_port_client;
        intf = s.intf_name;
        status = s_null;
        connect_status = s_null;
      })
      0 bootp_port_server socket_protocol_udp

connected_udp :
    (copy buf : Bytes) (intf : NetworkInterface) (arp_sck : Option Socket) (sck : Socket) (port : ℕ)
    (table : ArpTable)
    → connected (kconnect copy buf intf arp_sck sck 0 port socket_protocol_udp table)
      ≡ some (connect_to sck 0 port socket_protocol_udp)
unfolding kconnect
connected_udp copy buf intf arp_sck sck port table = elim (Bool-cases (intf.ip_addr == 0)) [
  | inl fresh ↦ rw fresh refl
  | inr known ↦ rw known refl
]

pub dhcp_client_starts :
    (fuel : ℕ) (s : Setting) (polls polls' : Socket → Socket) (l : List Socket)
    → s.process.sockets ≡ some l
    → dhcp_client fuel s polls polls' ≡ discover fuel s polls polls' (some (client_socket s))
unfolding dhcp_client
dhcp_client_starts fuel s polls polls' l e =
    let (p', made) = ksocket_done s.intf_name bootp_port_client s.process l e in
    let rest : Socket × Process → Ending = λ r. discover fuel s polls polls' (
      connected (
        kconnect s.copy s.send_buf s.intf r.1.arp_sck r.0 0 bootp_port_server socket_protocol_udp
          s.table)) in
    ap (λ o. and_then o rest) made
    ∙ ap (discover fuel s polls polls')
        (connected_udp s.copy s.send_buf s.intf p'.arp_sck _ bootp_port_server s.table)

-- The discovery has been queued.
abbrev pub discovering : Setting → Socket
discovering s =
    let (m, len, xid) = dhcp_req s.intf s.send_buf dhcp_discover 0 0 s.xid in
    record (client_socket s) {
      message_queue_out = some (record { buf = memcpy s.copy 0 m 0 0x1000; len = len } ∷ []);
      status = s_write;
    }

-- The request for the address of an offer has been queued behind `q`.
abbrev pub requesting : Setting → Offer → (ip : ℕ) → (q : List NetworkMessage) → Socket → Socket
requesting s o ip q sck =
    let (m, len, xid) = dhcp_req s.intf s.send_buf dhcp_discover 0 0 s.xid in
    let (m', len', xid') = dhcp_req s.intf m dhcp_request ip o.offer_dhcp xid in
    record sck {
      message_queue_out =
          some (q ++ (record { buf = memcpy s.copy 0 m' 0 0x1000; len = len' } ∷ []));
      status = s_write;
    }

discover_lem :
    (fuel : ℕ) (s : Setting) (polls polls' : Socket → Socket) (msg : NetworkMessage)
    (q : List NetworkMessage)
    → (polls (discovering s)).message_queue_in ≡ some (msg ∷ q)
    → let (m, len, xid) = dhcp_req s.intf s.send_buf dhcp_discover 0 0 s.xid in
      discover fuel s polls polls' (some (client_socket s))
      ≡ answer_offer fuel s polls' m xid (
        msg.len,
        received s.recv_buf msg,
        record (polls (discovering s)) { message_queue_in = some q },
      )
unfolding discover kwrite connect_to kread
discover_lem fuel s polls polls' msg q e =
    let (m, len, xid) = dhcp_req s.intf s.send_buf dhcp_discover 0 0 s.xid in
    ap (λ o. and_then o (answer_offer fuel s polls' m xid))
      (kread_done (polls (discovering s)) s.recv_buf msg q e)

request_lease_lem :
    (fuel : ℕ) (s : Setting) (polls' : Socket → Socket) (o : Offer) (ip : ℕ) (buf : Bytes)
    (sck : Socket) (out : List NetworkMessage) (msg : NetworkMessage) (q : List NetworkMessage)
    → sck.message_queue_out ≡ some out
    → (polls' (requesting s o ip out sck)).message_queue_in ≡ some (msg ∷ q)
    → let (m, len, xid) = dhcp_req s.intf s.send_buf dhcp_discover 0 0 s.xid in
      request_lease fuel s polls' m xid (o, ip) buf sck
      ≡ end_client fuel s.intf
          (o, ip)
          (
            msg.len,
            received buf msg,
            record (polls' (requesting s o ip out sck)) { message_queue_in = some q },
          )
unfolding request_lease
request_lease_lem fuel s polls' o ip buf sck out msg q queued e =
    let (m, len, xid) = dhcp_req s.intf s.send_buf dhcp_discover 0 0 s.xid in
    let (m', len', xid') = dhcp_req s.intf m dhcp_request ip o.offer_dhcp xid in
    ap (λ r. and_then r (λ w. and_then (kread (polls' w.1) buf) (end_client fuel s.intf (o, ip))))
      (kwrite_done s.copy sck m' len' out queued)
    ∙ ap (λ r. and_then r (end_client fuel s.intf (o, ip)))
        (kread_done (polls' (requesting s o ip out sck)) buf msg q e)

answer_offer_refused :
    (fuel : ℕ) (s : Setting) (polls' : Socket → Socket) (m : Bytes) (xid len : ℕ) (buf : Bytes)
    (sck : Socket)
    → take_offer fuel buf len ≡ some none
    → answer_offer fuel s polls' m xid (len, buf, sck) ≡ ended e_fail s.intf sck
unfolding answer_offer
answer_offer_refused fuel s polls' m xid len buf sck e = rw (e, answer_offer) refl

answer_offer_taken :
    (fuel : ℕ) (s : Setting) (polls' : Socket → Socket) (m : Bytes) (xid len : ℕ) (buf : Bytes)
    (sck : Socket) (offer : Offer × ℕ)
    → take_offer fuel buf len ≡ some (some offer)
    → answer_offer fuel s polls' m xid (len, buf, sck)
      ≡ request_lease fuel s polls' m xid offer buf sck
unfolding answer_offer
answer_offer_taken fuel s polls' m xid len buf sck offer e = rw (e, answer_offer) refl

end_client_lem :
    (fuel : ℕ) (intf : NetworkInterface) (offer : Offer × ℕ) (len : ℕ) (buf : Bytes) (sck : Socket)
    (r : ErrCode × NetworkInterface)
    → take_ack fuel intf offer buf len ≡ some r
    → end_client fuel intf offer (len, buf, sck) ≡ ended r.0 r.1 sck
unfolding end_client
end_client_lem fuel intf offer len buf sck r e = rw (e, end_client) refl

-- How the client ends when its two answers are the messages `msg`, with the options `l`, and `msg'`,
-- with the options `l'`: it asks for what it was offered, and takes it if that is acknowledged.
abbrev pub outcome :
    Setting → (msg : NetworkMessage) (l l' : List DhcpOption) (sck sck' : Socket) → Ending
outcome s msg l l' sck sck' =
    let o = read_all offer_of l no_offer in
    if o.is_dhcpoffer
    then (if read_all ack_of l' false
        then ended e_ok (leased s.intf o (netswap32 (read32 (received s.recv_buf msg) yiaddr))) sck'
        else ended e_fail s.intf sck')
    else ended e_fail s.intf sck

module _ (fuel : ℕ) (s : Setting) (polls polls' : Socket → Socket) (sockets : List Socket)
    (msg msg' : NetworkMessage) (q q' out : List NetworkMessage) (l l' : List DhcpOption) where
  abbrev offer : Offer
  offer = read_all offer_of l no_offer

  abbrev offer_ip : ℕ
  offer_ip = netswap32 (read32 (received s.recv_buf msg) yiaddr)

  -- The socket once the first answer is read, and once the second one is.
  abbrev pub after_offer : Socket
  after_offer = record (polls (discovering s)) { message_queue_in = some q }

  abbrev pub after_ack : Socket
  after_ack = record (polls' (requesting s offer offer_ip out after_offer)) {
    message_queue_in = some q';
  }

  -- The client, where the task has a list of sockets. While it waits with the discovery queued, the
  -- polls leave the first answer in its queue, and while it waits with the request for the offered
  -- address queued behind what was there, the second one. Both answers are not empty, and have
  -- fewer options than there is fuel. Then it ends: with the address and the servers of the offer
  -- in the interface if the first answer is an offer and the second one acknowledges, and otherwise
  -- with E_FAIL and the interface as it was.
  pub dhcp_client_lem :
      s.process.sockets ≡ some sockets
      → (polls (discovering s)).message_queue_in ≡ some (msg ∷ q)
      → (polls (discovering s)).message_queue_out ≡ some out
      → (polls' (requesting s offer offer_ip out after_offer)).message_queue_in ≡ some (msg' ∷ q')
      → IsAnswer (received s.recv_buf msg) l
      → IsAnswer (received (received s.recv_buf msg) msg') l'
      → msg.len ≢ 0
      → msg'.len ≢ 0
      → length l < fuel
      → length l' < fuel
      → dhcp_client fuel s polls polls' ≡ outcome s msg l l' after_offer after_ack
  dhcp_client_lem e in_queue out_queue in_queue' a a' ne ne' enough enough' =
      let (m, len, xid) = dhcp_req s.intf s.send_buf dhcp_discover 0 0 s.xid in
      let buf = received s.recv_buf msg in
      let first = take_offer_lem fuel buf msg.len l a ne enough in
      let second =
        take_ack_lem fuel s.intf offer offer_ip (received buf msg') msg'.len l' a' ne' enough' in
      let begun =
        dhcp_client_starts fuel s polls polls' sockets e
        ∙ discover_lem fuel s polls polls' msg q in_queue in
      elim (Bool-cases offer.is_dhcpoffer) [
        | inr refused ↦
            begun
            ∙ answer_offer_refused fuel s polls' m xid msg.len buf after_offer
                (first ∙ rw refused refl)
            ∙ rw refused refl
        | inl offered ↦
            begun
            ∙ answer_offer_taken fuel s polls' m xid msg.len buf after_offer (offer, offer_ip)
                (first ∙ rw offered refl)
            ∙ request_lease_lem fuel s polls' offer offer_ip buf after_offer out msg' q' out_queue
                in_queue'
            ∙ end_client_lem fuel s.intf (offer, offer_ip) msg'.len (received buf msg') after_ack _
                second
            ∙ elim (Bool-cases (read_all ack_of l' false)) [
              | inl acknowledged ↦ rw (offered, acknowledged) refl
              | inr silent ↦ rw (offered, silent) refl
            ]
      ]
