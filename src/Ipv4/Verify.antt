-- ===== src/Ipv4/Verify.antt =====
-- The checksums of the headers that `ipv4_req` of source/kernel/ipv4.c builds.
use kernel_on_qemu.Prelude.{ℕ, ◌+◌, ◌-◌, ◌^◌, ◌≤◌, ◌<◌, ◌≡◌, ap, ◌∙◌, arith}
use kernel_on_qemu.Bytes.{Bytes, write8, write16, write32}
use kernel_on_qemu.Bytes.Range.{IsBytes}
use kernel_on_qemu.Checksum.{netchecksum}
use kernel_on_qemu.Checksum.Verify.{netchecksum_verifies, netchecksum_same}
use kernel_on_qemu.Packet.{NetworkPacket, NetworkInterface}
use kernel_on_qemu.Arp.{ArpTable}
use kernel_on_qemu.Ethernet.{ether_type_ipv4}
use kernel_on_qemu.Ethernet.Frame.{ether_req_above}
use kernel_on_qemu.Ipv4.Request.{ipv4_fields, ipv4_header, ipv4_req, next_hop}

ipv4_fields-IsBytes :
    (m : Bytes) (h : ℕ) (intf : NetworkInterface) (length protocol ip : ℕ)
    → IsBytes m
    → IsBytes (ipv4_fields m h intf length protocol ip)
unfolding ipv4_fields write8 write16 write32
ipv4_fields-IsBytes m h intf length protocol ip b x = ground (arith, b x)

ipv4_fields_checksum :
    (m : Bytes) (h : ℕ) (intf : NetworkInterface) (length protocol ip : ℕ)
    → (ipv4_fields m h intf length protocol ip (h + 10) ≡ 0)
      × (ipv4_fields m h intf length protocol ip (h + 10 + 1) ≡ 0)
unfolding ipv4_fields write8 write16 write32
ipv4_fields_checksum m h intf length protocol ip = ground arith

ipv4_header_verifies :
    (m : Bytes) (h : ℕ) (intf : NetworkInterface) (length protocol ip : ℕ)
    → IsBytes m
    → h + 20 < 2 ^ 32
    → netchecksum (ipv4_header m h intf length protocol ip) h (h + 20) ≡ 0
unfolding ipv4_header
ipv4_header_verifies m h intf length protocol ip b fits =
    let (z, z') = ipv4_fields_checksum m h intf length protocol ip in
    netchecksum_verifies _ h 20 5 (h + 10) (ipv4_fields-IsBytes m h intf length protocol ip b)
      (omega arith) (omega arith) (omega arith) fits z z'

-- Every packet that `ipv4_req` builds has a header whose checksum verifies, whatever the page held
-- before, the interface, the protocol and the addresses, and also behind the frame header.
-- The page holds bytes, 34 of them before the payload, which starts below 2 ^ 32.
pub ipv4_req_verifies :
    (pkt : NetworkPacket) (intf : NetworkInterface) (protocol ip : ℕ) (table : ArpTable)
    → IsBytes pkt.page
    → 34 ≤ pkt.start
    → pkt.start < 2 ^ 32
    → netchecksum (ipv4_req pkt intf protocol ip table).0.page (pkt.start - 20) pkt.start ≡ 0
unfolding ipv4_req
ipv4_req_verifies pkt intf protocol ip table b room fits =
    let h : ℕ = pkt.start - 20 in
    let e : pkt.start ≡ h + 20 = omega arith in
    let page : Bytes = ipv4_header pkt.page h intf (pkt.end - h) protocol ip in
    netchecksum_same _ page h pkt.start (λ x lo.
      ether_req_above (record pkt { page = page; start = h }) intf ether_type_ipv4
        (next_hop intf ip) table x (omega arith) lo)
    ∙ ap (netchecksum page h) e
    ∙ ipv4_header_verifies pkt.page h intf (pkt.end - h) protocol ip b (omega arith)

ipv4_header_above :
    (m : Bytes) (h : ℕ) (intf : NetworkInterface) (length protocol ip x : ℕ)
    → h + 20 ≤ x
    → ipv4_header m h intf length protocol ip x ≡ m x
unfolding ipv4_header ipv4_fields write8 write16 write32
ipv4_header_above m h intf length protocol ip x fits = ground arith

-- The headers lie before the packet: no byte from the packet's start on changes.
pub ipv4_req_above :
    (pkt : NetworkPacket) (intf : NetworkInterface) (protocol ip : ℕ) (table : ArpTable) (x : ℕ)
    → 34 ≤ pkt.start
    → pkt.start ≤ x
    → (ipv4_req pkt intf protocol ip table).0.page x ≡ pkt.page x
unfolding ipv4_req
ipv4_req_above pkt intf protocol ip table x room above =
    let h : ℕ = pkt.start - 20 in
    let page : Bytes = ipv4_header pkt.page h intf (pkt.end - h) protocol ip in
    ether_req_above (record pkt { page = page; start = h }) intf ether_type_ipv4 (next_hop intf ip)
      table x (omega arith) (omega arith)
    ∙ ipv4_header_above pkt.page h intf (pkt.end - h) protocol ip x (omega arith)
