-- ===== src/Dhcp/Options.antt =====
-- Options as a list, and the loop of source/kernel/dhcp_client.c over them.
use kernel_on_qemu.Prelude.{
  ℕ, zero, suc, ◌+◌, ◌*◌, ◌^◌, ◌≤◌, ◌<◌, ◌≡◌, ◌≢◌, refl, Bool, true, false, List, [], ◌∷◌, some,
  length, arith, ◌==◌, if◌then◌else◌,
}
use kernel_on_qemu.Words.{netswap32}
use kernel_on_qemu.Bytes.{Bytes, read32}
use kernel_on_qemu.Bytes.Range.{IsBytes}
use kernel_on_qemu.Dhcp.{
  Offer, read_option, read_option_ack, walk_options, dhcp_offer, dhcp_ack, bootp_option_subnet_mask,
  bootp_option_domain_name_server, bootp_option_dhcp_message_type,
  bootp_option_dhcp_server_identifier, bootp_option_end,
}

-- An option: its code and its data.
pub record DhcpOption : Type 0 where
  pub code : ℕ
  pub bytes : List ℕ

abbrev pub first_byte : List ℕ → ℕ
first_byte [] = 0
first_byte (b ∷ l) = b

-- The first four bytes, the highest first.
abbrev pub address : List ℕ → ℕ
address (a ∷ b ∷ c ∷ d ∷ l) = a * 2 ^ 24 + b * 2 ^ 16 + c * 2 ^ 8 + d
address l = 0

-- The bytes that an option has at least.
abbrev pub min_length : ℕ → ℕ
min_length code =
    if code == bootp_option_dhcp_message_type
    then 1
    else if code == bootp_option_dhcp_server_identifier
    then 4
    else if code == bootp_option_domain_name_server
    then 4
    else if code == bootp_option_subnet_mask
    then 4
    else 0

-- The bytes from `p` on.
abbrev pub Stored : Bytes → ℕ → List ℕ → Type 0
Stored m p [] = Unit
Stored m p (b ∷ l) = (m p ≡ b) × Stored m (p + 1) l

-- The options from `p` on, with the end behind them.
abbrev pub Encoded : Bytes → ℕ → List DhcpOption → Type 0
Encoded m p [] = m p ≡ bootp_option_end
Encoded m p (o ∷ l) =
    (m p ≡ o.code)
    × (o.code ≢ bootp_option_end)
    × (m (p + 1) ≡ length o.bytes)
    × (min_length o.code ≤ length o.bytes)
    × Stored m (p + 2) o.bytes
    × Encoded m (p + 2 + length o.bytes) l

-- What an option says of the offer.
abbrev pub offer_of : DhcpOption → Offer → Offer
offer_of d o =
    if d.code == bootp_option_dhcp_message_type
    then (if first_byte d.bytes == dhcp_offer then record o { is_dhcpoffer = true } else o)
    else if d.code == bootp_option_dhcp_server_identifier
    then record o { offer_dhcp = address d.bytes }
    else if d.code == bootp_option_domain_name_server
    then record o { offer_dns = address d.bytes }
    else if d.code == bootp_option_subnet_mask
    then record o { offer_subnet_mask = address d.bytes }
    else o

abbrev pub ack_of : DhcpOption → Bool → Bool
ack_of d b =
    if d.code == bootp_option_dhcp_message_type
    then (if first_byte d.bytes == dhcp_ack then true else b)
    else b

-- All options in turn, first one first.
abbrev pub read_all : {S : Type 0} → (DhcpOption → S → S) → List DhcpOption → S → S
read_all f [] s = s
read_all f (d ∷ l) s = read_all f l (f d s)

first_byte_lem : (m : Bytes) (p : ℕ) (l : List ℕ) → 1 ≤ length l → Stored m p l → m p ≡ first_byte l
first_byte_lem m p [] h s = absurd (omega arith)
first_byte_lem m p (b ∷ l) h s = s.0

address_lem :
    (m : Bytes) (p : ℕ) (l : List ℕ)
    → IsBytes m
    → 4 ≤ length l
    → Stored m p l
    → netswap32 (read32 m p) ≡ address l
unfolding netswap32 read32
address_lem m p [] b h s = absurd (omega arith)
address_lem m p (x ∷ []) b h s = absurd (omega arith)
address_lem m p (x ∷ y ∷ []) b h s = absurd (omega arith)
address_lem m p (x ∷ y ∷ z ∷ []) b h s = absurd (omega arith)
address_lem m p (x ∷ y ∷ z ∷ w ∷ l) b h s =
    ground (arith, b p, b (p + 1), b (p + 1 + 1), b (p + 1 + 1 + 1), s.0, s.1.0, s.1.1.0, s.1.1.1.0)

-- A body of the loop that agrees with `f` at every stored option reads all options.
pub walk_options_lem :
    {S : Type 0} (body : Bytes → ℕ → S → S) (f : DhcpOption → S → S) (m : Bytes)
    → ((p : ℕ) (d : DhcpOption) (s : S)
        → m p ≡ d.code
        → min_length d.code ≤ length d.bytes
        → Stored m (p + 2) d.bytes
        → body m p s ≡ f d s)
    → (fuel p : ℕ) (l : List DhcpOption) (s : S) → length l < fuel
    → Encoded m p l
    → walk_options body fuel m p s ≡ some (read_all f l s)
unfolding walk_options
walk_options_lem body f m agrees zero p l s h e = absurd (omega arith)
walk_options_lem body f m agrees (suc fuel) p [] s h e = rw (e, walk_options) refl
walk_options_lem body f m agrees (suc fuel) p (d ∷ l) s h e =
    let more : (m p == bootp_option_end) ≡ false = ground (arith, e.0, e.1) in
    rw (more, walk_options, e.2, agrees p d s e.0 e.3 e.4)
      (walk_options_lem body f m agrees fuel (p + 2 + length d.bytes) l (f d s) (omega arith) e.5)

pub read_option_agrees :
    (m : Bytes) (p : ℕ) (d : DhcpOption) (o : Offer)
    → IsBytes m
    → m p ≡ d.code
    → min_length d.code ≤ length d.bytes
    → Stored m (p + 2) d.bytes
    → read_option m p o ≡ offer_of d o
unfolding read_option
read_option_agrees m p d o b c h s =
    ground (arith, c, first_byte_lem m (p + 2) d.bytes, address_lem m (p + 2) d.bytes b)

pub read_option_ack_agrees :
    (m : Bytes) (p : ℕ) (d : DhcpOption) (b : Bool)
    → m p ≡ d.code
    → min_length d.code ≤ length d.bytes
    → Stored m (p + 2) d.bytes
    → read_option_ack m p b ≡ ack_of d b
unfolding read_option_ack
read_option_ack_agrees m p d b c h s = ground (arith, c, first_byte_lem m (p + 2) d.bytes)
