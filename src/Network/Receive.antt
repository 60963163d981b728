-- ===== src/Network/Receive.antt =====
-- `networking_rx_sort` of source/kernel/networking.c. `none` is a fault: a message that is pushed to
-- a queue that does not exist.
use Prim.Native.Nat.{bit_and}
use kernel_on_qemu.Prelude.{
  ℕ, ◌+◌, Bool, true, false, not, ◌&&◌, ◌||◌, Option, none, some, List, [], ◌∷◌, ◌++◌, ◌==◌,
  if◌then◌else◌,
}
use kernel_on_qemu.Words.{u32}
use kernel_on_qemu.Bytes.{Bytes}
use kernel_on_qemu.Packet.{
  NetworkMessage, NetworkMessageDesc, protocol_udp, protocol_tcp, protocol_arp,
}
use kernel_on_qemu.Arp.{ArpTable, arp_sort}
use kernel_on_qemu.Socket.{s_ack, s_open, is_open, is_write, Socket, Process, MessageQueue}

abbrev pub tcp_fin : ℕ
tcp_fin = 1

abbrev pub tcp_syn : ℕ
tcp_syn = 2

abbrev pub tcp_psh : ℕ
tcp_psh = 8

abbrev pub tcp_ack : ℕ
tcp_ack = 0x10

abbrev pub has_flag : ℕ → ℕ → Bool
has_flag flags flag = not (bit_and flags flag == 0)

abbrev pub is_some {ℓ} : {A : Type ℓ} → Option A → Bool
is_some none = false
is_some (some a) = true

-- Pushes to a queue that exists.
abbrev pub enqueue : NetworkMessage → MessageQueue → MessageQueue
enqueue msg none = none
enqueue msg (some q) = some (q ++ (msg ∷ []))

-- One socket in the loop for TCP: the socket afterwards, and whether the message was queued.
unfoldable pub rx_tcp_socket : NetworkMessage → NetworkMessageDesc → Socket → Option (Socket × Bool)
rx_tcp_socket msg desc sck =
    if is_open sck.status || is_write sck.status
    then (if has_flag desc.flags tcp_syn && sck.ack == 0 && sck.seq == desc.ack
        then some (record sck { ack = u32 (desc.seq + 1); status = s_ack }, false)
        else if has_flag desc.flags tcp_fin && sck.seq == desc.ack && sck.ack == desc.seq
        then some (record sck { ack = u32 (desc.seq + 1); status = s_ack }, false)
        else if has_flag desc.flags tcp_psh && sck.seq == desc.ack && sck.ack == desc.seq
        then (if is_some sck.message_queue_in
            then some (
              record sck {
                ack = u32 (sck.ack + msg.len);
                status = s_ack;
                message_queue_in = enqueue msg sck.message_queue_in;
              },
              true,
            )
            else none)
        else if has_flag desc.flags tcp_ack && sck.seq == desc.ack && sck.ack == desc.seq
        then some (record sck { connect_status = s_open }, false)
        else some (sck, false))
    else some (sck, false)

-- One socket in the loop for UDP.
unfoldable pub rx_udp_socket : NetworkMessage → NetworkMessageDesc → Socket → Option (Socket × Bool)
rx_udp_socket msg desc sck =
    if is_some sck.message_queue_in
      && sck.port_in == desc.dest_port
      && sck.port_out == desc.src_port
    then some (record sck { message_queue_in = enqueue msg sck.message_queue_in }, true)
    else some (sck, false)

-- What is left of a walk once one element has been looked at: it ends where the message was queued.
abbrev pub and_rest :
    {A : Type 0} → Option (A × Bool) → List A → Option (List A × Bool) → Option (List A × Bool)
and_rest none l rest = none
and_rest (some (a, true)) l rest = some (a ∷ l, true)
and_rest (some (a, false)) l none = none
and_rest (some (a, false)) l (some (l', queued)) = some (a ∷ l', queued)

module _ (rx : Socket → Option (Socket × Bool)) where
  unfoldable pub walk_sockets : List Socket → Option (List Socket × Bool)
  walk_sockets [] = some ([], false)
  walk_sockets (s ∷ l) = and_rest (rx s) l (walk_sockets l)

  abbrev pub with_sockets : Process → Option (List Socket × Bool) → Option (Process × Bool)
  with_sockets p none = none
  with_sockets p (some (l, queued)) = some (record p { sockets = some l }, queued)

  unfoldable pub rx_process : Process → Option (Process × Bool)
  unfolding walk_sockets
  rx_process p = elim p.sockets [
    | none ↦ some (p, false)
    | some l ↦ with_sockets p (walk_sockets l)
  ]

  unfoldable pub walk_processes : List Process → Option (List Process × Bool)
  unfolding rx_process
  walk_processes [] = some ([], false)
  walk_processes (p ∷ l) = and_rest (rx_process p) l (walk_processes l)

-- What becomes of the page of a message: a queue holds it, it is freed, or neither.
pub data Fate : Type 0 where
  queued freed leaked : Fate

pub record Sorted (D : Type 0) : Type 0 where
  pub processes : List Process
  pub device : D
  pub table : ArpTable
  pub fate : Fate

-- The outcome of a walk: `otherwise` is the fate of a message that no socket took.
unfoldable pub sorted :
    {D : Type 0}
    → D
    → ArpTable
    → (otherwise : Fate) → Option (List Process × Bool)
    → Option (Sorted D)
sorted device table otherwise none = none
sorted device table otherwise (some (l, took)) = some (record {
  processes = l;
  device = device;
  table = table;
  fate = if took then queued else otherwise;
})

abbrev pub arp_sorted : {D : Type 0} → List Process → Option (D × ArpTable) → Option (Sorted D)
arp_sorted l none = none
arp_sorted l (some (device, table)) =
    some (record { processes = l; device = device; table = table; fate = freed })

-- `fresh` is what the page of a new ARP entry holds before.
module _ {D : Type 0} (rar_add : D → Bytes → D) where
  unfoldable pub networking_rx_sort :
      (fresh : Bytes)
      → NetworkMessage
      → NetworkMessageDesc
      → D
      → ArpTable
      → List Process
      → Option (Sorted D)
  unfolding walk_processes rx_udp_socket rx_tcp_socket sorted
  networking_rx_sort fresh msg desc device table processes =
      if desc.protocol == protocol_udp
      then sorted device table leaked (walk_processes (rx_udp_socket msg desc) processes)
      else if desc.protocol == protocol_arp
      then arp_sorted processes (arp_sort rar_add fresh msg device table)
      else if desc.protocol == protocol_tcp
      then sorted device table freed (walk_processes (rx_tcp_socket msg desc) processes)
      else sorted device table freed (some (processes, false))
