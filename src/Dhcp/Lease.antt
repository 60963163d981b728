-- ===== src/Dhcp/Lease.antt =====
-- The lease: what the client of source/kernel/dhcp_client.c makes of the answers, and what
-- source/kernel/dhcp.c asks for.
use kernel_on_qemu.Prelude.{
  ℕ, ◌+◌, ◌/◌, ◌%◌, ◌^◌, ◌<◌, ◌≡◌, ◌≢◌, refl, false, List, [], ◌∷◌, Option, none, some, length,
  arith, ◌==◌, if◌then◌else◌,
}
use kernel_on_qemu.Words.{netswap32}
use kernel_on_qemu.Bytes.{Bytes, read32, write8, write32}
use kernel_on_qemu.Bytes.Range.{IsBytes}
use kernel_on_qemu.Packet.{e_ok, e_fail, NetworkInterface}
use kernel_on_qemu.Dhcp.{
  Offer, no_offer, read_answer, read_option, read_option_ack, walk_options, take_offer, take_ack,
  yiaddr, dhcp_header_size, bootp_bootreply, bootp_magic_number, dhcp_req, request_options,
  write_bytes, dhcp_request,
}
use kernel_on_qemu.Dhcp.Options.{
  DhcpOption, Encoded, offer_of, ack_of, read_all, walk_options_lem, read_option_agrees,
  read_option_ack_agrees,
}

-- An answer of a server with the options `l`.
pub record IsAnswer (m : Bytes) (l : List DhcpOption) : Type 0 where
  pub in_range : IsBytes m
  pub reply : m 0 ≡ bootp_bootreply
  pub magic : read32 m dhcp_header_size ≡ netswap32 bootp_magic_number
  pub options : Encoded m (dhcp_header_size + 4) l

read_answer_lem :
    {S : Type 0} (body : Bytes → ℕ → S → S) (fuel : ℕ) (m : Bytes) (l : List DhcpOption) (s : S)
    (r : Option S)
    → IsAnswer m l
    → walk_options body fuel m (dhcp_header_size + 4) s ≡ r
    → read_answer body fuel m s ≡ r
unfolding read_answer
read_answer_lem body fuel m l s r a e = ground (arith, a.reply, a.magic, e)

-- The client takes from the first answer what its options say: the offer, with the address of the
-- header, if one of them is a message type that says so, and nothing otherwise. The answer is not
-- empty, and the fuel is more than the number of options.
pub take_offer_lem :
    (fuel : ℕ) (m : Bytes) (recv_len : ℕ) (l : List DhcpOption)
    → IsAnswer m l
    → recv_len ≢ 0
    → length l < fuel
    → let o = read_all offer_of l no_offer in
      take_offer fuel m recv_len
      ≡ some (if o.is_dhcpoffer then some (o, netswap32 (read32 m yiaddr)) else none)
unfolding take_offer
take_offer_lem fuel m recv_len l a ne h =
    let e : read_answer read_option fuel m no_offer ≡ some (read_all offer_of l no_offer) =
      read_answer_lem read_option fuel m l no_offer _ a (
        walk_options_lem read_option offer_of m (λ p d s. read_option_agrees m p d s a.in_range)
          fuel (dhcp_header_size + 4) l no_offer h a.options) in
    let some_bytes : (recv_len == 0) ≡ false = ground arith in rw (some_bytes, e) refl

-- The second answer gives the interface the address and the servers of the offer if one of its
-- options is a message type that acknowledges, and otherwise leaves the interface, with E_FAIL. The
-- answer is not empty, and the fuel is more than the number of options.
pub take_ack_lem :
    (fuel : ℕ) (intf : NetworkInterface) (o : Offer) (ip : ℕ) (m : Bytes) (recv_len : ℕ)
    (l : List DhcpOption)
    → IsAnswer m l
    → recv_len ≢ 0
    → length l < fuel
    → take_ack fuel intf (o, ip) m recv_len
      ≡ some (
          if read_all ack_of l false
          then (
            e_ok,
            record intf {
              ip_addr = ip;
              ip_addr_dhcp = o.offer_dhcp;
              ip_addr_dns = o.offer_dns;
              subnet_mask = o.offer_subnet_mask;
            },
          )
          else (e_fail, intf))
unfolding take_ack
take_ack_lem fuel intf o ip m recv_len l a ne h =
    let e : read_answer read_option_ack fuel m false ≡ some (read_all ack_of l false) =
      read_answer_lem read_option_ack fuel m l false _ a (
        walk_options_lem read_option_ack ack_of m (read_option_ack_agrees m) fuel
          (dhcp_header_size + 4) l false h a.options) in
    let some_bytes : (recv_len == 0) ≡ false = ground arith in rw (some_bytes, e) refl

-- The bytes of an address, the highest first.
abbrev pub octets : ℕ → List ℕ
octets v = (v / 2 ^ 24) % 256 ∷ (v / 2 ^ 16) % 256 ∷ (v / 2 ^ 8) % 256 ∷ v % 256 ∷ []

abbrev pub request : (ip_addr dhcp_addr : ℕ) → List DhcpOption
request ip_addr dhcp_addr =
    record { code = 53; bytes = dhcp_request ∷ [] }
    ∷ record { code = 50; bytes = octets ip_addr }
    ∷ record { code = 54; bytes = octets dhcp_addr }
    ∷ []

-- A request has the options of a request, the address that is asked for and the server, in any page,
-- and ends with them, 256 bytes after its start.
pub dhcp_req_lem :
    (intf : NetworkInterface) (buf : Bytes) (ip_addr dhcp_addr xid : ℕ)
    → let (m, len, next) = dhcp_req intf buf dhcp_request ip_addr dhcp_addr xid in
      (read32 m dhcp_header_size ≡ netswap32 bootp_magic_number)
      × Encoded m (dhcp_header_size + 4) (request ip_addr dhcp_addr)
      × (len ≡ dhcp_header_size + 4 + 16)
unfolding dhcp_req request_options write_bytes write8 write32 read32 netswap32
dhcp_req_lem intf buf ip_addr dhcp_addr xid = (
  ground arith,
  (
    refl,
    omega arith,
    refl,
    omega arith,
    (refl, tt),
    (
      refl,
      omega arith,
      refl,
      omega arith,
      (omega arith, (omega arith, (omega arith, (omega arith, tt)))),
      (
        refl,
        omega arith,
        refl,
        omega arith,
        (omega arith, (omega arith, (omega arith, (omega arith, tt)))),
        refl,
      ),
    ),
  ),
  refl,
)
