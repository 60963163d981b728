-- ===== src/Ipv4/Segment.antt =====
-- The checksum of the segments that `tcp_req` of source/kernel/tcp.c builds.
use kernel_on_qemu.Prelude.{
  ◌≢◌, ◌/◌, ◌%◌, ◌==◌, ◌*◌, true, ltb, if◌then◌else◌, ap, ℕ, ◌+◌, ◌-◌, ◌^◌, ◌≤◌, ◌<◌, ◌≡◌, sym, ◌∙◌,
  arith,
}
use mathlib.Core.Path.{subst, ap₂}
use native.Mathlib.Decide.{dec_lt}
use kernel_on_qemu.Ipv4.RoundTrip.{frame_header, length_sent, protocol_sent}
use kernel_on_qemu.Bytes.{read16, Bytes, write8, write16, write32}
use kernel_on_qemu.Bytes.Range.{IsBytes}
use kernel_on_qemu.Bytes.Laws.{memset_lem}
use kernel_on_qemu.Words.{netswap16}
use kernel_on_qemu.Checksum.{netchecksum}
use kernel_on_qemu.Checksum.Verify.{netchecksum_verifies, netchecksum_same}
use kernel_on_qemu.Packet.{NetworkPacket, NetworkInterface}
use kernel_on_qemu.Arp.{ArpTable}
use kernel_on_qemu.Ipv4.Decode.{ipv4_protocol_tcp}
use kernel_on_qemu.Ipv4.Request.{
  ipv4_req, ipv4_header, ipv4_fields, tcp_fields, pseudo_header, tcp_header, tcp_req,
}
use kernel_on_qemu.Ipv4.Verify.{ipv4_req_above}

tcp_fields-IsBytes :
    (m : Bytes) (h send_port recv_port flags seq ack : ℕ)
    → IsBytes m
    → IsBytes (tcp_fields m h send_port recv_port flags seq ack)
unfolding tcp_fields write8 write16 write32
tcp_fields-IsBytes m h send_port recv_port flags seq ack b x =
    ground (arith, b x, memset_lem m h 0 20 x)

pseudo_header-IsBytes :
    (m : Bytes) (p : ℕ) (intf : NetworkInterface) (ip length : ℕ)
    → IsBytes m
    → IsBytes (pseudo_header m p intf ip length)
unfolding pseudo_header write8 write16 write32
pseudo_header-IsBytes m p intf ip length b x = ground (arith, b x)

pseudo_header_above :
    (m : Bytes) (p : ℕ) (intf : NetworkInterface) (ip length x : ℕ)
    → p + 12 ≤ x
    → pseudo_header m p intf ip length x ≡ m x
unfolding pseudo_header write8 write16 write32
pseudo_header_above m p intf ip length x h = ground arith

tcp_fields_checksum :
    (m : Bytes) (h send_port recv_port flags seq ack : ℕ)
    → (tcp_fields m h send_port recv_port flags seq ack (h + 16) ≡ 0)
      × (tcp_fields m h send_port recv_port flags seq ack (h + 16 + 1) ≡ 0)
unfolding tcp_fields write8 write16 write32
tcp_fields_checksum m h send_port recv_port flags seq ack =
    ground (arith, memset_lem m h 0 20 (h + 16), memset_lem m h 0 20 (h + 16 + 1))

pseudo_header_inside :
    (m n : Bytes) (p : ℕ) (intf : NetworkInterface) (ip length x : ℕ)
    → p ≤ x
    → x < p + 12
    → pseudo_header m p intf ip length x ≡ pseudo_header n p intf ip length x
unfolding pseudo_header write8 write16 write32
pseudo_header_inside m n p intf ip length x lo hi = ground arith

module _ (m : Bytes) (h end : ℕ) (intf : NetworkInterface)
    (send_port recv_port ip flags seq ack : ℕ) (room : 12 ≤ h) (header : h + 20 ≤ end)
    (small : end < h + 2 ^ 14) (fits : end < 2 ^ 32) where
  -- The segment before its checksum is stored.
  abbrev without : Bytes
  without =
      pseudo_header (tcp_fields m h send_port recv_port flags seq ack) (h - 12) intf ip (end - h)

  tcp_header_verifies :
      IsBytes m
      → netchecksum (tcp_header m h end intf send_port recv_port ip flags seq ack) (h - 12) end ≡ 0
  unfolding tcp_header
  tcp_header_verifies b =
      let (z, z') = tcp_fields_checksum m h send_port recv_port flags seq ack in
      let above =
        pseudo_header_above (tcp_fields m h send_port recv_port flags seq ack) (h - 12) intf ip
          (end - h) in
      let e : end ≡ h - 12 + (end - (h - 12)) = omega arith in
      subst
        (λ (k : ℕ).
          netchecksum (write16 without (h + 16) (netswap16 (netchecksum without (h - 12) k)))
            (h - 12) k
          ≡ 0)
        (sym e)
        (netchecksum_verifies without (h - 12) (end - (h - 12)) 14 (h + 16)
          (pseudo_header-IsBytes _ (h - 12) intf ip (end - h)
            (tcp_fields-IsBytes m h send_port recv_port flags seq ack b))
          (omega arith) (omega arith) (omega arith) (omega arith) (above (h + 16) (omega arith) ∙ z)
          (above (h + 16 + 1) (omega arith) ∙ z'))

  -- Writing the pseudo header again before any page with the same segment gives the same bytes.
  tcp_header_again :
      (f : Bytes) (x : ℕ)
      → ((y : ℕ) → h ≤ y → f y ≡ tcp_header m h end intf send_port recv_port ip flags seq ack y)
      → h - 12 ≤ x
      → pseudo_header f (h - 12) intf ip (end - h) x
        ≡ tcp_header m h end intf send_port recv_port ip flags seq ack x
  unfolding tcp_header write16 write8
  tcp_header_again f x same lo = elim (dec_lt x h) [
    | yes p ↦ ground (
      arith,
      pseudo_header_inside f (tcp_fields m h send_port recv_port flags seq ack) (h - 12) intf ip
          (end - h) x,
    )
    | no p ↦ pseudo_header_above f (h - 12) intf ip (end - h) x (omega arith) ∙ same x (omega arith)
  ]

-- The segment that `tcp_req` sends verifies with the pseudo header of `tcp_req` before it.
tcp_req_sums :
    (pkt : NetworkPacket) (intf : NetworkInterface) (send_port recv_port ip flags seq ack : ℕ)
    (table : ArpTable)
    → IsBytes pkt.page
    → 54 ≤ pkt.start
    → pkt.start ≤ pkt.end
    → pkt.end < pkt.start + 2 ^ 12
    → pkt.end < 2 ^ 32
    → let sent = (tcp_req pkt intf send_port recv_port ip flags seq ack table).0.page in
      let h = pkt.start - 20 in
      netchecksum (pseudo_header sent (h - 12) intf ip (pkt.end - h)) (h - 12) pkt.end ≡ 0
unfolding tcp_req
tcp_req_sums pkt intf send_port recv_port ip flags seq ack table b room payload small fits =
    let h : ℕ = pkt.start - 20 in
    let page : Bytes = tcp_header pkt.page h pkt.end intf send_port recv_port ip flags seq ack in
    netchecksum_same _ page (h - 12) pkt.end (λ x lo.
      tcp_header_again pkt.page h pkt.end intf send_port recv_port ip flags seq ack (omega arith)
        (omega arith) (omega arith) fits _ x
        (λ y above.
          ipv4_req_above (record pkt { page = page; start = h }) intf ipv4_protocol_tcp ip table y
            (omega arith) above)
        lo)
    ∙ tcp_header_verifies pkt.page h pkt.end intf send_port recv_port ip flags seq ack (omega arith)
        (omega arith) (omega arith) fits b

-- The length that the IPv4 header at `g` states for the segment behind it.
abbrev pub segment_length : Bytes → (g : ℕ) → ℕ
segment_length m g = netswap16 (read16 m (g + 2)) - 20

-- What a receiver sums up, by RFC 793: the twelve bytes before the segment are the two addresses of
-- the IPv4 header at `g` that was received, a zero, its protocol, and the length of the segment.
abbrev pub receiver : Bytes → (g : ℕ) → Bytes
receiver m g x =
    if ltb x (g + 16)
    then m (x + 4)
    else if x == g + 16
    then 0
    else if x == g + 17
    then m (g + 9)
    else if x == g + 18
    then segment_length m g / 2 ^ 8
    else if x == g + 19
    then segment_length m g % 2 ^ 8
    else m x

addresses_sent :
    (m f : Bytes) (g : ℕ) (intf : NetworkInterface) (length ip n x : ℕ)
    → intf.ip_addr ≢ 0
    → ip ≢ 0
    → g + 8 ≤ x
    → x < g + 16
    → ipv4_header m g intf length ipv4_protocol_tcp ip (x + 4) ≡ pseudo_header f (g + 8) intf ip n x
unfolding ipv4_header ipv4_fields pseudo_header write8 write16 write32
addresses_sent m f g intf length ip n x ne ne' lo hi = ground arith

pseudo_header_end :
    (f : Bytes) (p : ℕ) (intf : NetworkInterface) (ip n : ℕ)
    → n < 2 ^ 16
    → (pseudo_header f p intf ip n (p + 8) ≡ 0)
      × (pseudo_header f p intf ip n (p + 9) ≡ 6)
      × (pseudo_header f p intf ip n (p + 10) ≡ n / 2 ^ 8)
      × (pseudo_header f p intf ip n (p + 11) ≡ n % 2 ^ 8)
unfolding pseudo_header write8 write16 write32 netswap16
pseudo_header_end f p intf ip n small = (ground arith, ground arith, ground arith, ground arith)

stated_length :
    (m f : Bytes) (g : ℕ) (intf : NetworkInterface) (ip n : ℕ)
    → n < 2 ^ 15
    → ((y : ℕ) → g ≤ y → f y ≡ ipv4_header m g intf (n + 20) ipv4_protocol_tcp ip y)
    → segment_length f g ≡ n
unfolding read16
stated_length m f g intf ip n small same =
    ap (λ x. netswap16 x - 20)
      (ap₂ (λ a b. a + b * 2 ^ 8) (same (g + 2) (omega arith)) (same (g + 2 + 1) (omega arith)))
    ∙ ap (λ x. x - 20) (length_sent m g intf (n + 20) ipv4_protocol_tcp ip (omega arith))
    ∙ omega arith

-- With an address of the interface and of the destination, both pseudo headers are the same.
receiver_lem :
    (m f : Bytes) (g : ℕ) (intf : NetworkInterface) (ip n x : ℕ)
    → intf.ip_addr ≢ 0
    → ip ≢ 0
    → n < 2 ^ 15
    → ((y : ℕ) → g ≤ y → f y ≡ ipv4_header m g intf (n + 20) ipv4_protocol_tcp ip y)
    → g + 8 ≤ x
    → receiver f g x ≡ pseudo_header f (g + 8) intf ip n x
receiver_lem m f g intf ip n x ne ne' small same lo =
    let p = pseudo_header f (g + 8) intf ip n in
    let len = stated_length m f g intf ip n small same in
    let last = pseudo_header_end f (g + 8) intf ip n (omega arith) in
    let protocol : f (g + 9) ≡ 6 =
      same (g + 9) (omega arith) ∙ protocol_sent m g intf (n + 20) ipv4_protocol_tcp ip in
    let tail = λ (k : ℕ) (e : x ≡ g + 8 + k). ap p e in
    elim (dec_lt x (g + 16)) [
      | yes lt ↦
          let e : ltb x (g + 16) ≡ true = ground (arith, lt) in
          rw e (same (x + 4) (omega arith) ∙ addresses_sent m f g intf (n + 20) ip n x ne ne' lo lt)
      | no ge ↦ ground (
        arith,
        ge,
        len,
        protocol,
        last,
        tail 8,
        tail 9,
        tail 10,
        tail 11,
        pseudo_header_above f (g + 8) intf ip n x,
      )
    ]

-- Every segment that `tcp_req` sends verifies at the receiver, who takes the addresses, the protocol
-- and the length from the IPv4 header that arrives, and sums up the pseudo header of them and the
-- segment. The interface and the destination have addresses that are not 0, the page holds bytes,
-- there are 54 of them before the payload for the headers, the payload has less than 2 ^ 12 bytes, and
-- the end is below 2 ^ 32.
pub tcp_req_verifies :
    (pkt : NetworkPacket) (intf : NetworkInterface) (send_port recv_port ip flags seq ack : ℕ)
    (table : ArpTable)
    → intf.ip_addr ≢ 0
    → ip ≢ 0
    → IsBytes pkt.page
    → 54 ≤ pkt.start
    → pkt.start ≤ pkt.end
    → pkt.end < pkt.start + 2 ^ 12
    → pkt.end < 2 ^ 32
    → let sent = (tcp_req pkt intf send_port recv_port ip flags seq ack table).0.page in
      let h = pkt.start - 20 in netchecksum (receiver sent (h - 20)) (h - 12) pkt.end ≡ 0
unfolding tcp_req
tcp_req_verifies pkt intf send_port recv_port ip flags seq ack table ne ne' b room payload small
      fits =
    let h : ℕ = pkt.start - 20 in
    let page : Bytes = tcp_header pkt.page h pkt.end intf send_port recv_port ip flags seq ack in
    let inner : NetworkPacket = record pkt { page = page; start = h } in
    let sent : Bytes = (ipv4_req inner intf ipv4_protocol_tcp ip table).0.page in
    let n : ℕ = pkt.end - h in
    let base : h - 20 + 8 ≡ h - 12 = omega arith in
    let total : pkt.end - (h - 20) ≡ n + 20 = omega arith in
    let same : (y : ℕ)
        → h - 20 ≤ y
        → sent y ≡ ipv4_header page (h - 20) intf (n + 20) ipv4_protocol_tcp ip y =
      λ y lo.
        frame_header inner intf ipv4_protocol_tcp ip table (omega arith) y lo
        ∙ ap (λ l. ipv4_header page (h - 20) intf l ipv4_protocol_tcp ip y) total in
    netchecksum_same (receiver sent (h - 20)) (pseudo_header sent (h - 12) intf ip n) (h - 12)
      pkt.end
      (λ x lo.
        receiver_lem page sent (h - 20) intf ip n x ne ne' (omega arith) same (omega arith)
        ∙ ap (λ p. pseudo_header sent p intf ip n x) base)
    ∙ tcp_req_sums pkt intf send_port recv_port ip flags seq ack table b room payload small fits
