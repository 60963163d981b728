-- ===== src/Dhcp/Failure.antt =====
-- What the client of source/kernel/dhcp_client.c leaves alone, however it ends.
use kernel_on_qemu.Prelude.{
  ℕ, ◌≡◌, refl, sym, Bool, true, false, Option, none, some, List, [], ◌∷◌, ◌==◌, Bool-cases,
  Option-cases, inl, inr, if◌then◌else◌,
}
use mathlib.Core.Option
use mathlib.Core.Path.{subst}
use kernel_on_qemu.Bytes.{Bytes}
use kernel_on_qemu.Packet.{ErrCode, e_ok, e_fail, NetworkInterface}
use kernel_on_qemu.Socket.State.{Socket, Outcome, done, waits, fault}
use kernel_on_qemu.Socket.Calls.{kwrite, kread, connect_to}
use kernel_on_qemu.Network.Receive.{is_some}
use kernel_on_qemu.Dhcp.{
  Offer, dhcp_req, dhcp_discover, dhcp_request, take_offer, take_ack, read_answer, read_option_ack,
}
use kernel_on_qemu.Dhcp.Client.{
  Setting, Ending, ended, waiting, endless, faulted, and_then, dhcp_client, discover, answer_offer,
  request_lease, end_client,
}
use kernel_on_qemu.Dhcp.Protocol.{leased, client_socket, dhcp_client_starts}

-- The client uses no missing queue, and changes the interface only where it returns E_OK, and then only its
-- addresses and its mask.
abbrev pub Keeps : NetworkInterface → Ending → Type 0
Keeps intf (ended e_ok intf' sck) = (o : Offer) × (ip : ℕ) × (intf' ≡ leased intf o ip)
Keeps intf (ended e_fail intf' sck) = intf' ≡ intf
Keeps intf waiting = Unit
Keeps intf endless = Unit
Keeps intf faulted = ⊥

-- The same of the second answer alone.
abbrev KeepsAck : NetworkInterface → Option (ErrCode × NetworkInterface) → Type 0
KeepsAck intf none = Unit
KeepsAck intf (some (e_ok, intf')) = (o : Offer) × (ip : ℕ) × (intf' ≡ leased intf o ip)
KeepsAck intf (some (e_fail, intf')) = intf' ≡ intf

acknowledged_keeps :
    (intf : NetworkInterface) (o : Offer) (ip : ℕ) (r : Option Bool)
    → KeepsAck intf (
        Option.map
          (λ is_dhcpack. if is_dhcpack then (e_ok, leased intf o ip) else (e_fail, intf))
          r)
acknowledged_keeps intf o ip none = tt
acknowledged_keeps intf o ip (some true) = (o, ip, refl)
acknowledged_keeps intf o ip (some false) = refl

take_ack_keeps :
    (fuel : ℕ) (intf : NetworkInterface) (o : Offer) (ip len : ℕ) (buf : Bytes)
    → KeepsAck intf (take_ack fuel intf (o, ip) buf len)
unfolding take_ack
take_ack_keeps fuel intf o ip len buf = elim (Bool-cases (len == 0)) [
  | inl empty ↦ rw (empty, KeepsAck) refl
  | inr more ↦
      rw (more, KeepsAck)
        (acknowledged_keeps intf o ip (read_answer read_option_ack fuel buf false))
]

end_client-Keeps :
    (fuel : ℕ) (intf : NetworkInterface) (o : Offer) (ip : ℕ) (r : ℕ × Bytes × Socket)
    → Keeps intf (end_client fuel intf (o, ip) r)
unfolding end_client
end_client-Keeps fuel intf o ip (len, buf, sck) =
    let ending : Option (ErrCode × NetworkInterface) → Ending =
      λ x. elim x [ none ↦ endless | some (code, intf') ↦ ended code intf' sck ] in
    let keeps : (x : Option (ErrCode × NetworkInterface))
        → KeepsAck intf x
        → Keeps intf (ending x) =
      λ x. elim x as (λ y. KeepsAck intf y → Keeps intf (ending y)) [
        | none ↦ λ k. tt
        | some (code, intf') ↦
            elim code as (λ c. KeepsAck intf (some (c, intf')) → Keeps intf (ended c intf' sck)) [
              | e_ok ↦ λ k. k
              | e_fail ↦ λ k. k
            ]
      ] in
    keeps (take_ack fuel intf (o, ip) buf len) (take_ack_keeps fuel intf o ip len buf)

-- Both queues are there.
abbrev pub HasBoth : Socket → Type 0
HasBoth sck = (is_some sck.message_queue_in ≡ true) × (is_some sck.message_queue_out ≡ true)

-- One try of a call is done with a result that has the property, or waits.
abbrev Safe : {A : Type 0} → (A → Type 0) → Outcome A → Type 0
Safe P (done a) = P a
Safe P waits = Unit
Safe P fault = ⊥

and_then-Keeps :
    {A : Type 0} (P : A → Type 0) (intf : NetworkInterface) (o : Outcome A) (f : A → Ending)
    → Safe P o
    → ((a : A) → P a → Keeps intf (f a))
    → Keeps intf (and_then o f)
and_then-Keeps P intf (done a) f safe keeps = keeps a safe
and_then-Keeps P intf waits f safe keeps = tt
and_then-Keeps P intf fault f safe keeps = safe

kwrite-Safe :
    (copy : Bytes) (sck : Socket) (m : Bytes) (len : ℕ)
    → HasBoth sck
    → Safe (λ w. HasBoth w.1) (kwrite copy sck m len)
unfolding kwrite
kwrite-Safe copy sck m len (incoming, outgoing) = elim (Option-cases sck.message_queue_out) [
  | inl missing ↦ cc
  | inr (q, e) ↦ rw (e, Safe) (incoming, refl)
]

kread-Safe : (sck : Socket) (buf : Bytes) → HasBoth sck → Safe (λ r. HasBoth r.2) (kread sck buf)
unfolding kread
kread-Safe sck buf (incoming, outgoing) = elim (Option-cases sck.message_queue_in) [
  | inl missing ↦ cc
  | inr ([], e) ↦ rw (e, Safe) tt
  | inr (msg ∷ q, e) ↦ rw (e, Safe) (refl, outgoing)
]

module _ (fuel : ℕ) (s : Setting) (polls polls' : Socket → Socket)
    (keep : (t : Socket) → HasBoth t → HasBoth (polls t))
    (keep' : (t : Socket) → HasBoth t → HasBoth (polls' t)) where
  request_lease-Keeps :
      (m : Bytes) (xid : ℕ) (offer : Offer × ℕ) (buf : Bytes) (sck : Socket)
      → HasBoth sck
      → Keeps s.intf (request_lease fuel s polls' m xid offer buf sck)
  unfolding request_lease
  request_lease-Keeps m xid (o, ip) buf sck both =
      let (m', len, xid') = dhcp_req s.intf m dhcp_request ip o.offer_dhcp xid in
      and_then-Keeps (λ w. HasBoth w.1) s.intf (kwrite s.copy sck m' len) _
        (kwrite-Safe s.copy sck m' len both)
        (λ w both'.
          and_then-Keeps (λ r. HasBoth r.2) s.intf (kread (polls' w.1) buf) _
            (kread-Safe (polls' w.1) buf (keep' w.1 both'))
            (λ r both''. end_client-Keeps fuel s.intf o ip r))

  answer_offer-Keeps :
      (m : Bytes) (xid : ℕ) (r : ℕ × Bytes × Socket)
      → HasBoth r.2
      → Keeps s.intf (answer_offer fuel s polls' m xid r)
  unfolding answer_offer
  answer_offer-Keeps m xid (len, buf, sck) both =
      let go : Option (Option (Offer × ℕ)) → Ending = λ x. elim x [
        | none ↦ endless
        | some none ↦ ended e_fail s.intf sck
        | some (some offer) ↦ request_lease fuel s polls' m xid offer buf sck
      ] in
      let keeps : (x : Option (Option (Offer × ℕ))) → Keeps s.intf (go x) = λ x.
        elim x as (λ y. Keeps s.intf (go y)) [
          | none ↦ tt
          | some none ↦ refl
          | some (some offer) ↦ request_lease-Keeps m xid offer buf sck both
        ] in
      keeps (take_offer fuel buf len)

  -- Whatever the messages are that the client gets, and whatever the polling tasks do to its socket
  -- but take a queue away, none of its calls uses a queue that is missing; where it returns, the
  -- interface is as it was, but with E_OK, and then with other addresses and another mask at most. The
  -- task has a list of sockets. Nothing is stated of a client that waits for ever, or reads on behind
  -- an answer without an end option; a message is taken to fit in the page that it is read to.
  pub dhcp_client-Keeps :
      (sockets : List Socket)
      → s.process.sockets ≡ some sockets
      → Keeps s.intf (dhcp_client fuel s polls polls')
  unfolding discover connect_to
  dhcp_client-Keeps sockets e =
      let (m, len, xid) = dhcp_req s.intf s.send_buf dhcp_discover 0 0 s.xid in
      subst (Keeps s.intf) (sym (dhcp_client_starts fuel s polls polls' sockets e)) (
        and_then-Keeps (λ w. HasBoth w.1) s.intf (kwrite s.copy (client_socket s) m len) _
          (kwrite-Safe s.copy (client_socket s) m len (refl, refl))
          (λ w both.
            and_then-Keeps (λ r. HasBoth r.2) s.intf (kread (polls w.1) s.recv_buf) _
              (kread-Safe (polls w.1) s.recv_buf (keep w.1 both)) (answer_offer-Keeps m xid)))
