-- ===== src/Intel/Received.antt =====
-- A round of `intel_8254xx_rx_poll` of source/kernel/intel_8254xx.c over all descriptors.
use kernel_on_qemu.Prelude.{
  ltb, ◌≤◌, ℕ, zero, suc, ◌+◌, ◌%◌, ◌<◌, ◌≡◌, ◌≢◌, refl, sym, ◌∙◌, ap, inl, inr, Bool, true, false,
  List, Option, none, some, ◌==◌, arith, if◌then◌else◌, Bool-cases, ==_iff, Yields, Yields-map,
  Yields-bind,
}
use mathlib.Core.Path.{subst}
use mathlib.Core.Bool.{false≢true}
use kernel_on_qemu.Words.{netswap16}
use kernel_on_qemu.Bytes.{Bytes, read16}
use kernel_on_qemu.Packet.{
  ErrCode.e_ok, ErrCode.e_fail, NetworkMessage, NetworkMessageDesc, Decoded, protocol_udp,
  protocol_arp, protocol_tcp,
}
use kernel_on_qemu.Arp.{
  ArpTable, ArpEntry, arp_sort, remember, find_entry, reply_entry, opcode, opcode_reply,
}
use kernel_on_qemu.Socket.{Process}
use kernel_on_qemu.Ethernet.{ether_decode}
use kernel_on_qemu.Network.Receive.{
  networking_rx_sort, Sorted, Fate, leaked, freed, sorted, arp_sorted, is_some, walk_processes,
  rx_udp_socket, rx_tcp_socket,
}
use kernel_on_qemu.Network.Safety.{IsSafe, SortedSafe, networking_rx_sort-SortedSafe}
use kernel_on_qemu.Intel.{RxDesc, IntelDevice, rx_desc_count, intel_8254xx_rar_add, mmio_write}
use kernel_on_qemu.Intel.Init.{set_rx}
use kernel_on_qemu.Intel.Poll.{
  Receiver, RxPages, empty_desc, with_sorted, take_message, clear_status, rx_desc_round, rx_round,
  intel_8254xx_rx_poll, page_size,
}

-- Sorting a message changes the device only through `rar_add`.
module _ {D : Type 0} (rar_add : D → Bytes → D) (P : D → Type 0)
    (kept : (d : D) (eth : Bytes) → P d → P (rar_add d eth)) where
  abbrev DeviceKept : Option (Sorted D) → Type 0
  DeviceKept none = Unit
  DeviceKept (some s) = P s.device

  abbrev PairKept : Option (D × ArpTable) → Type 0
  PairKept none = Unit
  PairKept (some (d, t)) = P d

  sorted-DeviceKept :
      (d : D) (t : ArpTable) (f : Fate) (o : Option (List Process × Bool))
      → P d
      → DeviceKept (sorted d t f o)
  unfolding sorted
  sorted-DeviceKept d t f none h = tt
  sorted-DeviceKept d t f (some x) h = h

  arp_sorted-DeviceKept :
      (l : List Process) (o : Option (D × ArpTable)) → PairKept o → DeviceKept (arp_sorted l o)
  arp_sorted-DeviceKept l none h = tt
  arp_sorted-DeviceKept l (some (d, t)) h = h

  remember-PairKept :
      (entry : ArpEntry) (d : D) (es : List ArpEntry) (o : Option ArpEntry)
      → P d
      → PairKept (remember rar_add entry d es o)
  unfolding remember
  remember-PairKept entry d es none h = kept d entry.eth h
  remember-PairKept entry d es (some e) h = h

  if_kept :
      (c : Bool) (x y : Option (D × ArpTable))
      → PairKept x
      → PairKept y
      → PairKept (if c then x else y)
  if_kept true x y hx hy = hx
  if_kept false x y hx hy = hy

  arp_sort-PairKept :
      (fresh : Bytes) (msg : NetworkMessage) (d : D) (t : ArpTable)
      → P d
      → PairKept (arp_sort rar_add fresh msg d t)
  unfolding arp_sort
  arp_sort-PairKept fresh msg d none h = if_kept _ none (some (d, none)) tt h
  arp_sort-PairKept fresh msg d (some es) h =
      let entry = reply_entry fresh msg in
      if_kept (netswap16 (read16 msg.buf opcode) == opcode_reply)
        (remember rar_add entry d es (find_entry entry.ip es)) (some (d, some es))
        (remember-PairKept entry d es (find_entry entry.ip es) h) h

  if_device :
      (c : Bool) (x y : Option (Sorted D))
      → DeviceKept x
      → DeviceKept y
      → DeviceKept (if c then x else y)
  if_device true x y hx hy = hx
  if_device false x y hx hy = hy

  networking_rx_sort-DeviceKept :
      (fresh : Bytes) (msg : NetworkMessage) (desc : NetworkMessageDesc) (d : D) (t : ArpTable)
      (l : List Process)
      → P d
      → DeviceKept (networking_rx_sort rar_add fresh msg desc d t l)
  unfolding networking_rx_sort
  networking_rx_sort-DeviceKept fresh msg desc d t l h =
      let udp = sorted d t leaked (walk_processes (rx_udp_socket msg desc) l) in
      let arp = arp_sorted l (arp_sort rar_add fresh msg d t) in
      let tcp = sorted d t freed (walk_processes (rx_tcp_socket msg desc) l) in
      let other = sorted d t freed (some (l, false)) in
      let later = if desc.protocol == protocol_tcp then tcp else other in
      if_device (desc.protocol == protocol_udp) udp
        (if desc.protocol == protocol_arp then arp else later) (sorted-DeviceKept d t leaked _ h)
        (if_device (desc.protocol == protocol_arp) arp later
          (arp_sorted-DeviceKept l _ (arp_sort-PairKept fresh msg d t h))
          (if_device (desc.protocol == protocol_tcp) tcp other (sorted-DeviceKept d t freed _ h)
            (sorted-DeviceKept d t freed (some (l, false)) h)))

-- The sockets have their queues, and there is a table for ARP.
abbrev pub IsSafeReceiver : Receiver → Type 0
IsSafeReceiver r = IsSafe r.processes × (is_some r.table ≡ true)

-- A message leaves the descriptors.
abbrev Taken : (r s : Receiver) → Type 0
Taken r s = IsSafeReceiver s × (s.device.rxdl ≡ r.device.rxdl)

rar_add-rxdl : (d : IntelDevice) (eth : Bytes) → (intel_8254xx_rar_add d eth).rxdl ≡ d.rxdl
unfolding intel_8254xx_rar_add mmio_write
rar_add-rxdl d eth = refl

with_sorted-Taken :
    (r : Receiver) (o : Option (Sorted IntelDevice))
    → SortedSafe o
    → DeviceKept intel_8254xx_rar_add
        (λ d. d.rxdl ≡ r.device.rxdl)
        (λ d eth e. rar_add-rxdl d eth ∙ e)
        o
    → Yields (Taken r) (with_sorted o)
with_sorted-Taken r none h k = h
with_sorted-Taken r (some s) h k = (h, k)

sort_safe :
    (fresh : Bytes) (msg : NetworkMessage) (desc : NetworkMessageDesc) (d : IntelDevice)
    (t : ArpTable) (l : List Process)
    → IsSafe l
    → is_some t ≡ true
    → SortedSafe (networking_rx_sort intel_8254xx_rar_add fresh msg desc d t l)
sort_safe fresh msg desc d none l h e = absurd (false≢true e)
sort_safe fresh msg desc d (some es) l h e =
    networking_rx_sort-SortedSafe intel_8254xx_rar_add fresh msg desc d es l h

take_message-Taken :
    (pages : RxPages) (d : Decoded) (r : Receiver)
    → d.1.len ≤ page_size
    → IsSafeReceiver r
    → Yields (Taken r) (take_message pages d r)
unfolding take_message
take_message-Taken pages (e_ok, msg, desc) r room (safe, table) =
    let e : ltb page_size msg.len ≡ false = ground (arith, room) in
    rw (take_message, e)
      (with_sorted-Taken r _
        (sort_safe pages.entry msg desc r.device r.table r.processes safe table)
        (networking_rx_sort-DeviceKept intel_8254xx_rar_add (λ d. d.rxdl ≡ r.device.rxdl)
          (λ d eth e. rar_add-rxdl d eth ∙ e) pages.entry msg desc r.device r.table r.processes
          refl))
take_message-Taken pages (e_fail, msg, desc) r room h = (h, refl)

-- A round for the descriptor `i` gives it back to the card, and leaves the others.
abbrev Given : (i : ℕ) → (r s : Receiver) → Type 0
Given i r s =
    IsSafeReceiver s
    × ((s.device.rxdl i).status % 2 ≡ 0)
    × ((j : ℕ) → j ≢ i → s.device.rxdl j ≡ r.device.rxdl j)

set_rx-same : (l : ℕ → RxDesc) (i : ℕ) (x : RxDesc) → set_rx l i x i ≡ x
set_rx-same l i x = ground arith

set_rx-other : (l : ℕ → RxDesc) (i j : ℕ) (x : RxDesc) → j ≢ i → set_rx l i x j ≡ l j
set_rx-other l i j x ne = let e : (j == i) ≡ false = ground (arith, ne) in rw e refl

clear_status-Given : (i : ℕ) (r s : Receiver) → Taken r s → Given i r (clear_status i s)
unfolding clear_status
clear_status-Given i r s (safe, same) = (
  safe,
  ap (λ x. x.status % 2) (set_rx-same s.device.rxdl i _),
  λ j ne. set_rx-other s.device.rxdl i j _ ne ∙ ap (λ l. l j) same,
)

-- The message that the decoders take from the buffer fits in its page.
abbrev pub HasRoom : RxPages → Type 0
HasRoom p = (ether_decode p.message empty_desc p.buffer 0).1.len ≤ page_size

rx_desc_round-Given :
    (pages : ℕ → RxPages) (i : ℕ) (r : Receiver)
    → HasRoom (pages i)
    → IsSafeReceiver r
    → Yields (Given i r) (rx_desc_round pages i r)
unfolding rx_desc_round
rx_desc_round-Given pages i r room safe = elim (Bool-cases ((r.device.rxdl i).status % 2 == 1)) [
  | inl full ↦
      rw (rx_desc_round, full)
        (Yields-bind (Taken r) (Given i r)
          (take_message (pages i) (ether_decode (pages i).message empty_desc (pages i).buffer 0) r)
          _
          (take_message-Taken (pages i)
            (ether_decode (pages i).message empty_desc (pages i).buffer 0) r room safe)
          (λ s h. clear_status-Given i r s h))
  | inr empty ↦ rw (rx_desc_round, empty) (safe, ground (arith, empty), λ j ne. refl)
]

rx_round-Given :
    (pages : ℕ → RxPages) (n i : ℕ) (r : Receiver)
    → ((j : ℕ) → HasRoom (pages j))
    → IsSafeReceiver r
    → ((j : ℕ) → j < i → (r.device.rxdl j).status % 2 ≡ 0)
    → Yields
        (λ s. IsSafeReceiver s × ((j : ℕ) → j < i + n → (s.device.rxdl j).status % 2 ≡ 0))
        (rx_round pages n i r)
unfolding rx_round
rx_round-Given pages zero i r room safe given = (safe, λ j lt. given j (omega (arith, lt)))
rx_round-Given pages (suc n) i r room safe given =
    Yields-bind (Given i r) _ (rx_desc_round pages i r) _
      (rx_desc_round-Given pages i r (room i) safe)
      (λ s (safe1, here, others).
        Yields-map _ _ (rx_round pages n (i + 1) s)
          (λ t (safe2, all). (safe2, λ j lt. all j (omega (arith, lt))))
          (rx_round-Given pages n (i + 1) s room safe1 (λ j lt. elim (Bool-cases (j == i)) [
            | inl e ↦ subst (λ j. (s.device.rxdl j).status % 2 ≡ 0) (sym ((==_iff j i).0 e)) here
            | inr e ↦
                ap (λ x. x.status % 2) (others j (ground (arith, e)))
                ∙ given j (ground (arith, e, lt))
          ])))

-- Where every received message fits in the page of its message, every socket has its queues and there
-- is a table for ARP, a round of the poll over all descriptors uses no missing queue or table. It
-- leaves such sockets and such a table, and every descriptor's status says that it is empty.
pub rx_poll_lem :
    (pages : ℕ → RxPages) (r : Receiver)
    → ((j : ℕ) → HasRoom (pages j))
    → IsSafeReceiver r
    → Yields
        (λ s. IsSafeReceiver s × ((j : ℕ) → j < rx_desc_count → (s.device.rxdl j).status % 2 ≡ 0))
        (intel_8254xx_rx_poll pages r)
unfolding intel_8254xx_rx_poll
rx_poll_lem pages r room safe =
    rx_round-Given pages rx_desc_count 0 r room safe (λ j lt. absurd (omega (arith, lt)))
