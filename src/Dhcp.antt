-- ===== src/Dhcp.antt =====
-- source/kernel/dhcp.c and source/kernel/dhcp_client.c: the requests of the client, and what it reads
-- from the answers.
pub mod Options
pub mod Lease
pub mod Client
pub mod Protocol
pub mod Failure
use kernel_on_qemu.Prelude.{
  ℕ, zero, suc, ◌+◌, ◌*◌, ◌^◌, Bool, true, false, ◌&&◌, List, [], ◌∷◌, Option, none, some, ◌==◌,
  if◌then◌else◌,
}
use mathlib.Core.Option
use kernel_on_qemu.Words.{u8, u32, netswap32}
use kernel_on_qemu.Bytes.{Bytes, write8, write16, write32, read32, memset, memcpy}
use kernel_on_qemu.Packet.{ErrCode, e_ok, e_fail, NetworkInterface}

abbrev pub dhcp_discover : ℕ
dhcp_discover = 1

abbrev pub dhcp_offer : ℕ
dhcp_offer = 2

abbrev pub dhcp_request : ℕ
dhcp_request = 3

abbrev pub dhcp_ack : ℕ
dhcp_ack = 5

abbrev pub bootp_bootreply : ℕ
bootp_bootreply = 2

abbrev pub bootp_magic_number : ℕ
bootp_magic_number = 0x63825363

abbrev pub bootp_option_subnet_mask : ℕ
bootp_option_subnet_mask = 1

abbrev pub bootp_option_domain_name_server : ℕ
bootp_option_domain_name_server = 6

abbrev pub bootp_option_dhcp_message_type : ℕ
bootp_option_dhcp_message_type = 53

abbrev pub bootp_option_dhcp_server_identifier : ℕ
bootp_option_dhcp_server_identifier = 54

abbrev pub bootp_option_end : ℕ
bootp_option_end = 255

-- The size of DHCP_HEADER, and the offset of its field `yiaddr`.
abbrev pub dhcp_header_size : ℕ
dhcp_header_size = 236

abbrev pub yiaddr : ℕ
yiaddr = 16

-- A row of `*dhcp_options++ = ...`.
unfoldable pub write_bytes : Bytes → (p : ℕ) → List ℕ → Bytes
write_bytes m p [] = m
write_bytes m p (b ∷ l) = write_bytes (write8 m p b) (p + 1) l

unfoldable pub discover_options : Bytes → (p : ℕ) → Bytes × ℕ
unfolding write_bytes
discover_options m p =
    let m = write32 m p (netswap32 bootp_magic_number) in
    (
      write_bytes m (p + 4)
          (53 ∷ 1 ∷ dhcp_discover ∷ 50 ∷ 4 ∷ 192 ∷ 168 ∷ 1 ∷ 120 ∷ 55 ∷ 3 ∷ 1 ∷ 3 ∷ 6 ∷ []),
      p + 18,
    )

unfoldable pub request_options : Bytes → (p ip_addr dhcp_addr : ℕ) → Bytes × ℕ
unfolding write_bytes
request_options m p ip_addr dhcp_addr =
    let m = write32 m 20 (netswap32 ip_addr) in
    let m = write32 m p (netswap32 bootp_magic_number) in
    let m = write_bytes m (p + 4) (53 ∷ 1 ∷ dhcp_request ∷ 50 ∷ 4 ∷ []) in
    let m = write32 m (p + 9) (netswap32 ip_addr) in
    let m = write_bytes m (p + 13) (54 ∷ 4 ∷ []) in
    (write32 m (p + 15) (netswap32 dhcp_addr), p + 19)

-- The header, with the transaction number `xid`.
unfoldable pub dhcp_header : NetworkInterface → Bytes → (xid : ℕ) → Bytes
dhcp_header intf m xid =
    let m = memset m 0 0 dhcp_header_size in
    let m = write8 m 0 1 in
    let m = write8 m 1 1 in
    let m = write8 m 2 6 in
    let m = write8 m 3 0 in
    let m = write32 m 4 (netswap32 xid) in
    let m = write16 m 8 0 in let m = write16 m 10 0 in memcpy m 28 intf.ether_addr 0 6

-- The message, its length, and the next `g_dhcp_xid`.
unfoldable pub dhcp_req : NetworkInterface → Bytes → (req ip_addr dhcp_addr xid : ℕ) → Bytes × ℕ × ℕ
unfolding dhcp_header discover_options request_options
dhcp_req intf buf req ip_addr dhcp_addr xid =
    let m = dhcp_header intf buf xid in
    let (m, p) =
      if req == dhcp_discover
      then discover_options m dhcp_header_size
      else if req == dhcp_request
      then request_options m dhcp_header_size ip_addr dhcp_addr
      else (m, dhcp_header_size) in
    (write8 m p bootp_option_end, p + 1, u32 (xid + 1))

-- What the client reads from the options of an offer.
pub record Offer : Type 0 where
  pub is_dhcpoffer : Bool
  pub offer_dhcp : ℕ
  pub offer_dns : ℕ
  pub offer_subnet_mask : ℕ

-- The body of the loop, for the option at offset `p`.
unfoldable pub read_option : Bytes → (p : ℕ) → Offer → Offer
read_option m p o =
    if m p == bootp_option_dhcp_message_type
    then (if m (p + 2) == dhcp_offer then record o { is_dhcpoffer = true } else o)
    else if m p == bootp_option_dhcp_server_identifier
    then record o { offer_dhcp = netswap32 (read32 m (p + 2)) }
    else if m p == bootp_option_domain_name_server
    then record o { offer_dns = netswap32 (read32 m (p + 2)) }
    else if m p == bootp_option_subnet_mask
    then record o { offer_subnet_mask = netswap32 (read32 m (p + 2)) }
    else o

unfoldable pub read_option_ack : Bytes → (p : ℕ) → Bool → Bool
read_option_ack m p is_dhcpack =
    if m p == bootp_option_dhcp_message_type && m (p + 2) == dhcp_ack then true else is_dhcpack

-- The loop over the options, with a body. `none`: there is no end within the fuel.
unfoldable pub walk_options :
    {S : Type 0} → (Bytes → ℕ → S → S) → (fuel : ℕ) → Bytes → (p : ℕ) → S → Option S
walk_options body zero m p s = none
walk_options body (suc fuel) m p s = elim (m p == bootp_option_end) [
  | true ↦ some s
  | false ↦ walk_options body fuel m (p + 2 + m (p + 1)) (body m p s)
]

-- The test for an answer before the loop, and the loop.
unfoldable pub read_answer : {S : Type 0} → (Bytes → ℕ → S → S) → (fuel : ℕ) → Bytes → S → Option S
unfolding walk_options
read_answer body fuel m s =
    if m 0 == bootp_bootreply && read32 m dhcp_header_size == netswap32 bootp_magic_number
    then walk_options body fuel m (dhcp_header_size + 4) s
    else some s

abbrev pub no_offer : Offer
no_offer = record { is_dhcpoffer = false; offer_dhcp = 0; offer_dns = 0; offer_subnet_mask = 0 }

-- What the client takes from the first answer, of `recv_len` bytes: the offer and its address, or
-- nothing, where it returns E_FAIL.
unfoldable pub take_offer : (fuel : ℕ) → Bytes → (recv_len : ℕ) → Option (Option (Offer × ℕ))
unfolding read_answer read_option
take_offer fuel recv_buf recv_len =
    if recv_len == 0
    then some none
    else Option.map
        (λ o. if o.is_dhcpoffer then some (o, netswap32 (read32 recv_buf yiaddr)) else none)
        (read_answer read_option fuel recv_buf no_offer)

-- What the second answer makes of the interface, and the code that the client returns.
unfoldable pub take_ack :
    (fuel : ℕ)
    → NetworkInterface
    → (Offer × ℕ)
    → Bytes
    → (recv_len : ℕ) → Option (ErrCode × NetworkInterface)
unfolding read_answer read_option_ack
take_ack fuel intf (o, offer_ip) recv_buf recv_len =
    if recv_len == 0
    then some (e_fail, intf)
    else Option.map
        (λ is_dhcpack.
          if is_dhcpack
          then (
            e_ok,
            record intf {
              ip_addr = offer_ip;
              ip_addr_dhcp = o.offer_dhcp;
              ip_addr_dns = o.offer_dns;
              subnet_mask = o.offer_subnet_mask;
            },
          )
          else (e_fail, intf))
        (read_answer read_option_ack fuel recv_buf false)
