-- ===== src/Arp.antt =====
-- source/kernel/arp.c: the table of Ethernet addresses, and ARP messages.
pub mod Table
use kernel_on_qemu.Prelude.{ℕ, ◌+◌, Option, none, some, List, [], ◌∷◌, ◌==◌, if◌then◌else◌}
use kernel_on_qemu.Words.{netswap16, netswap32}
use kernel_on_qemu.Bytes.{Bytes, write8, write16, write32, read16, read32, memset, memcpy}
use kernel_on_qemu.Packet.{
  ErrCode, e_ok, e_fail, NetworkInterface, NetworkMessage, NetworkMessageDesc, Decoded,
  protocol_arp,
}

-- ARP_ENTRY. Only the first six bytes of `eth` are written.
pub record ArpEntry : Type 0 where
  pub ip : ℕ
  pub eth : Bytes

-- `g_arp_list`: `none` is the NULL of the table that is not initialised.
abbrev pub ArpTable : Type 0
ArpTable = Option (List ArpEntry)

-- The walk through the entries.
unfoldable pub find_entry : ℕ → List ArpEntry → Option ArpEntry
find_entry ip [] = none
find_entry ip (e ∷ es) = if e.ip == ip then some e else find_entry ip es

-- Where `arp_lookup` puts the address: nowhere for NULL, or at an offset of an object.
abbrev pub Destination : Type 0
Destination = Option (Bytes × ℕ)

copy_eth : ArpEntry → Destination → Destination
copy_eth e none = none
copy_eth e (some (m, a)) = some (memcpy m a e.eth 0 6, a)

-- The end of `arp_lookup`, for what the walk came to.
unfoldable pub answer :
    Destination → List ArpEntry → Option ArpEntry → ErrCode × Destination × ArpTable
unfolding copy_eth
answer dest es none = (e_fail, dest, some es)
answer dest es (some e) = (e_ok, copy_eth e dest, some es)

-- The first call initialises the table and fails.
unfoldable pub arp_lookup : ℕ → Destination → ArpTable → ErrCode × Destination × ArpTable
unfolding find_entry answer
arp_lookup ip dest none = (e_fail, dest, some [])
arp_lookup ip dest (some es) = answer dest es (find_entry ip es)

-- The offsets of the fields of ARP_HEADER, and its size.
abbrev pub opcode : ℕ
opcode = 6

abbrev pub hardware_sender_addr : ℕ
hardware_sender_addr = 8

abbrev pub protocol_sender_addr : ℕ
protocol_sender_addr = 14

abbrev pub hardware_target_addr : ℕ
hardware_target_addr = 18

abbrev pub protocol_target_addr : ℕ
protocol_target_addr = 24

abbrev pub arp_header_size : ℕ
arp_header_size = 28

abbrev pub opcode_reply : ℕ
opcode_reply = 2

-- Fills the request into `buf` and returns its length.
unfoldable pub arp_req : NetworkInterface → Bytes → ℕ → Bytes × ℕ
arp_req intf buf ip =
    let b = write16 buf 0 (netswap16 1) in
    let b = write16 b 2 (netswap16 0x0800) in
    let b = write8 b 4 6 in
    let b = write8 b 5 4 in
    let b = write16 b opcode (netswap16 1) in
    let b = write32 b protocol_sender_addr (netswap32 intf.ip_addr) in
    let b = write32 b protocol_target_addr (netswap32 ip) in
    let b = memcpy b hardware_sender_addr intf.ether_addr 0 6 in
    let b = memset b hardware_target_addr 0 6 in (b, arp_header_size)

unfoldable pub arp_decode : NetworkMessage → NetworkMessageDesc → Bytes → ℕ → Decoded
arp_decode msg msg_desc m buf = (
  e_ok,
  record { buf = memcpy msg.buf 0 m buf arp_header_size; len = arp_header_size },
  record msg_desc { protocol = protocol_arp; src_port = 0; dest_port = 0 },
)

-- The entry that `arp_sort` makes of a reply; `fresh` is what its page from kalloc holds before.
unfoldable pub reply_entry : Bytes → NetworkMessage → ArpEntry
reply_entry fresh msg = record {
  ip = netswap32 (read32 msg.buf protocol_sender_addr);
  eth = memcpy fresh 0 msg.buf hardware_sender_addr 6;
}

-- `rar_add` is the function pointer that the driver passes, with the device that it works on.
-- `none` is the fault of reading the head of a table that is not initialised.
module _ {D : Type 0} (rar_add : D → Bytes → D) where
  -- The end of `arp_sort` for a reply, for what the search for its sender came to.
  unfoldable pub remember : ArpEntry → D → List ArpEntry → Option ArpEntry → Option (D × ArpTable)
  remember entry device es (some e) = some (device, some es)
  remember entry device es none = some (rar_add device entry.eth, some (entry ∷ es))

  unfoldable pub arp_sort : Bytes → NetworkMessage → D → ArpTable → Option (D × ArpTable)
  unfolding find_entry reply_entry remember
  arp_sort fresh msg device none =
      if netswap16 (read16 msg.buf opcode) == opcode_reply then none else some (device, none)
  arp_sort fresh msg device (some es) =
      let entry = reply_entry fresh msg in
      if netswap16 (read16 msg.buf opcode) == opcode_reply
      then remember entry device es (find_entry entry.ip es)
      else some (device, some es)
