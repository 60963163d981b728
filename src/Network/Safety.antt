-- ===== src/Network/Safety.antt =====
-- Faults in source/kernel/networking.c as a whole: the polls and the sorting of messages, over all
-- sockets of all processes.
use kernel_on_qemu.Prelude.{
  ℕ, ◌≡◌, refl, Bool, true, false, Option, none, some, List, [], ◌∷◌, All, ◌==◌, Bool-cases, inl,
  inr,
}
use mathlib.Core.Path.{subst, sym}
use kernel_on_qemu.Bytes.{Bytes}
use kernel_on_qemu.Packet.{
  NetworkInterface, NetworkMessage, NetworkMessageDesc, protocol_udp, protocol_arp, protocol_tcp,
}
use kernel_on_qemu.Arp.{ArpEntry, ArpTable}
use kernel_on_qemu.Arp.Table.{Learns, arp_sort-Learns}
use kernel_on_qemu.Socket.{Socket, Process}
use kernel_on_qemu.Network.Receive.{
  is_some, rx_tcp_socket, rx_udp_socket, and_rest, walk_sockets, with_sockets, rx_process,
  walk_processes, Fate, leaked, freed, Sorted, sorted, arp_sorted, networking_rx_sort,
}
use kernel_on_qemu.Network.Transmit.{
  Wire, tx_socket, tx_arp, then_sockets, tx_sockets, with_list, tx_process, then_processes,
  networking_tx_poll,
}
use kernel_on_qemu.Network.Invariant.{
  HasQueues, Kept, rx_tcp_socket-HasQueues, rx_udp_socket-HasQueues,
}
use kernel_on_qemu.Network.Session.{tx_socket-HasQueues}

-- All sockets of a process, if it has any, have their queues.
abbrev pub SocketsSafe : Option (List Socket) → Type 0
SocketsSafe none = Unit
SocketsSafe (some l) = All HasQueues l

abbrev pub IsSafe : List Process → Type 0
IsSafe = All (λ p. SocketsSafe p.sockets)

-- Not a fault, and every element that is left has the property.
abbrev pub KeptAll : {X A : Type 0} → (X → Type 0) → Option (List X × A) → Type 0
KeptAll P none = ⊥
KeptAll P (some (l, a)) = All P l

abbrev KeptOne : {X A : Type 0} → (X → Type 0) → Option (X × A) → Type 0
KeptOne P none = ⊥
KeptOne P (some (x, a)) = P x

and_rest-KeptAll :
    {X : Type 0} (P : X → Type 0) (o : Option (X × Bool)) (l : List X)
    (rest : Option (List X × Bool))
    → KeptOne P o
    → All P l
    → KeptAll P rest
    → KeptAll P (and_rest o l rest)
and_rest-KeptAll P none l rest k h r = k
and_rest-KeptAll P (some (x, true)) l rest k h r = (k, h)
and_rest-KeptAll P (some (x, false)) l none k h r = r
and_rest-KeptAll P (some (x, false)) l (some (l', b)) k h r = (k, r)

module _ (rx : Socket → Option (Socket × Bool))
    (safe : (s : Socket) → HasQueues s → Kept (rx s)) where
  kept_one : (o : Option (Socket × Bool)) → Kept o → KeptOne HasQueues o
  kept_one none k = k
  kept_one (some (s, b)) k = k

  walk_sockets-KeptAll : (l : List Socket) → All HasQueues l → KeptAll HasQueues (walk_sockets rx l)
  unfolding walk_sockets
  walk_sockets-KeptAll [] h = tt
  walk_sockets-KeptAll (s ∷ l) h =
      and_rest-KeptAll HasQueues (rx s) l (walk_sockets rx l) (kept_one (rx s) (safe s h.0)) h.1
        (walk_sockets-KeptAll l h.1)

  with_sockets-KeptOne :
      (p : Process) (r : Option (List Socket × Bool))
      → KeptAll HasQueues r
      → KeptOne (λ p. SocketsSafe p.sockets) (with_sockets rx p r)
  with_sockets-KeptOne p none k = k
  with_sockets-KeptOne p (some (l, b)) k = k

  rx_process-KeptOne :
      (p : Process) (o : Option (List Socket))
      → p.sockets ≡ o
      → SocketsSafe o
      → KeptOne (λ p. SocketsSafe p.sockets) (rx_process rx p)
  unfolding rx_process
  rx_process-KeptOne p none e h = rw (e, rx_process) (subst SocketsSafe (sym e) tt)
  rx_process-KeptOne p (some l) e h =
      rw (e, rx_process) (with_sockets-KeptOne p (walk_sockets rx l) (walk_sockets-KeptAll l h))

  walk_processes-KeptAll :
      (l : List Process) → IsSafe l → KeptAll (λ p. SocketsSafe p.sockets) (walk_processes rx l)
  unfolding walk_processes
  walk_processes-KeptAll [] h = tt
  walk_processes-KeptAll (p ∷ l) h =
      and_rest-KeptAll (λ p. SocketsSafe p.sockets) (rx_process rx p) l (walk_processes rx l)
        (rx_process-KeptOne p p.sockets refl h.0) h.1 (walk_processes-KeptAll l h.1)

-- No fault: the sockets that are left have their queues, and there is a table for ARP.
abbrev pub SortedSafe : {D : Type 0} → Option (Sorted D) → Type 0
SortedSafe none = ⊥
SortedSafe (some r) = IsSafe r.processes × (is_some r.table ≡ true)

sorted-SortedSafe :
    {D : Type 0} (device : D) (es : List ArpEntry) (fate : Fate) (r : Option (List Process × Bool))
    → KeptAll (λ p. SocketsSafe p.sockets) r
    → SortedSafe (sorted device (some es) fate r)
unfolding sorted
sorted-SortedSafe device es fate none k = k
sorted-SortedSafe device es fate (some (l, b)) k = (k, refl)

arp_sorted-SortedSafe :
    {D : Type 0} (rar_add : D → Bytes → D) (fresh : Bytes) (msg : NetworkMessage) (device : D)
    (es : List ArpEntry) (l : List Process) (r : Option (D × ArpTable))
    → Learns rar_add fresh msg device es r
    → IsSafe l
    → SortedSafe (arp_sorted l r)
arp_sorted-SortedSafe rar_add fresh msg device es l none k h = k
arp_sorted-SortedSafe rar_add fresh msg device es l (some (d, none)) k h = absurd k
arp_sorted-SortedSafe rar_add fresh msg device es l (some (d, some t)) k h = (h, refl)

-- Whatever message arrives, sorting it does not fault where every socket has its queues and there is
-- a table for ARP, and leaves such sockets and such a table.
pub networking_rx_sort-SortedSafe :
    {D : Type 0} (rar_add : D → Bytes → D) (fresh : Bytes) (msg : NetworkMessage)
    (desc : NetworkMessageDesc) (device : D) (es : List ArpEntry) (l : List Process)
    → IsSafe l
    → SortedSafe (networking_rx_sort rar_add fresh msg desc device (some es) l)
unfolding networking_rx_sort
networking_rx_sort-SortedSafe rar_add fresh msg desc device es l h =
    elim (Bool-cases (desc.protocol == protocol_udp)) [
      | inl udp ↦ rw udp (
          sorted-SortedSafe device es leaked _ (
            walk_processes-KeptAll (rx_udp_socket msg desc) (rx_udp_socket-HasQueues msg desc) l h))
      | inr not_udp ↦ elim (Bool-cases (desc.protocol == protocol_arp)) [
        | inl arp ↦
            rw (not_udp, arp)
              (arp_sorted-SortedSafe rar_add fresh msg device es l _
                (arp_sort-Learns rar_add fresh msg device es) h)
        | inr not_arp ↦ elim (Bool-cases (desc.protocol == protocol_tcp)) [
          | inl tcp ↦
              rw (not_udp, not_arp, tcp)
                (sorted-SortedSafe device es freed _ (
                  walk_processes-KeptAll (rx_tcp_socket msg desc) (rx_tcp_socket-HasQueues msg desc)
                    l h))
          | inr other ↦
              rw (not_udp, not_arp, other) (sorted-SortedSafe device es freed (some (l, false)) h)
        ]
      ]
    ]

module _ (intfs : ℕ → NetworkInterface) (pages : ℕ → Bytes) where
  put_socket :
      (s : Socket) (r : Option (List Socket × Wire))
      → HasQueues s
      → KeptAll HasQueues r
      → KeptAll HasQueues (elim r [ none ↦ none | some (l, w') ↦ some (s ∷ l, w') ])
  put_socket s none q k = k
  put_socket s (some (l, w)) q k = (q, k)

  then_sockets-KeptAll :
      (o : Option (Socket × Wire)) (rest : Wire → Option (List Socket × Wire))
      → Kept o
      → ((w : Wire) → KeptAll HasQueues (rest w))
      → KeptAll HasQueues (then_sockets intfs pages o rest)
  then_sockets-KeptAll none rest k h = k
  then_sockets-KeptAll (some (s, w)) rest k h = put_socket s (rest w) k (h w)

  tx_sockets-KeptAll :
      (l : List Socket) (w : Wire)
      → All HasQueues l
      → KeptAll HasQueues (tx_sockets intfs pages l w)
  unfolding tx_sockets
  tx_sockets-KeptAll [] w h = tt
  tx_sockets-KeptAll (s ∷ l) w h =
      then_sockets-KeptAll (tx_socket intfs pages s w) (tx_sockets intfs pages l)
        (tx_socket-HasQueues intfs pages s w h.0) (λ w'. tx_sockets-KeptAll l w' h.1)

  with_list-KeptOne :
      (p : Process) (r : Option (List Socket × Wire))
      → KeptAll HasQueues r
      → KeptOne (λ p. SocketsSafe p.sockets) (with_list intfs pages p r)
  with_list-KeptOne p none k = k
  with_list-KeptOne p (some (l, w)) k = k

  tx_process-KeptOne :
      (p : Process) (w : Wire) (o : Option (List Socket))
      → p.sockets ≡ o
      → SocketsSafe o
      → KeptOne (λ p. SocketsSafe p.sockets) (tx_process intfs pages p w)
  unfolding tx_process
  tx_process-KeptOne p w none e h = rw (e, tx_process) (subst SocketsSafe (sym e) tt)
  tx_process-KeptOne p w (some l) e h =
      rw (e, tx_process)
        (with_list-KeptOne (record p { arp_sck = (tx_arp intfs pages p.arp_sck w).0 })
          (tx_sockets intfs pages l (tx_arp intfs pages p.arp_sck w).1) (tx_sockets-KeptAll l _ h))

  put_process :
      (p : Process) (r : Option (List Process × Wire))
      → SocketsSafe p.sockets
      → KeptAll (λ p. SocketsSafe p.sockets) r
      → KeptAll
          (λ p. SocketsSafe p.sockets)
          (elim r [ none ↦ none | some (l, w') ↦ some (p ∷ l, w') ])
  put_process p none q k = k
  put_process p (some (l, w)) q k = (q, k)

  then_processes-KeptAll :
      (o : Option (Process × Wire)) (rest : Wire → Option (List Process × Wire))
      → KeptOne (λ p. SocketsSafe p.sockets) o
      → ((w : Wire) → KeptAll (λ p. SocketsSafe p.sockets) (rest w))
      → KeptAll (λ p. SocketsSafe p.sockets) (then_processes intfs pages o rest)
  then_processes-KeptAll none rest k h = k
  then_processes-KeptAll (some (p, w)) rest k h = put_process p (rest w) k (h w)

  -- A round of the polling task over all processes does not fault where every socket has its queues,
  -- and leaves such sockets.
  pub networking_tx_poll-KeptAll :
      (l : List Process) (w : Wire)
      → IsSafe l
      → KeptAll (λ p. SocketsSafe p.sockets) (networking_tx_poll intfs pages l w)
  unfolding networking_tx_poll
  networking_tx_poll-KeptAll [] w h = tt
  networking_tx_poll-KeptAll (p ∷ l) w h =
      then_processes-KeptAll (tx_process intfs pages p w) (networking_tx_poll intfs pages l)
        (tx_process-KeptOne p w p.sockets refl h.0) (λ w'. networking_tx_poll-KeptAll l w' h.1)
