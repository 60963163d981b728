-- ===== src/Intel/Ring.antt =====
-- The ring of the packets to send in source/kernel/intel_8254xx.c.
use kernel_on_qemu.Prelude.{
  ℕ, ◌+◌, ◌-◌, ◌%◌, ◌≤◌, ◌<◌, ◌≡◌, ◌≢◌, refl, sym, ◌∙◌, false, List, [], ◌∷◌, length, arith, ◌==◌,
}
use mathlib.Core.Path.{subst}
use kernel_on_qemu.Words.{u16, u32, sub32}
use kernel_on_qemu.Packet.{NetworkPacket}
use kernel_on_qemu.Intel.{
  TxDesc, IntelDevice, tx_desc_count, set_tx, mmio_write, intel_8254xx_tx_send,
}

-- Packets with the addresses of their pages, sent one after the other.
abbrev pub send_all : List (ℕ × NetworkPacket) → IntelDevice → IntelDevice
send_all [] d = d
send_all (p ∷ ps) d = send_all ps (intel_8254xx_tx_send p.0 p.1 d)

-- A descriptor that names a packet and gives it to the card.
abbrev pub IsSent : (page : ℕ) → NetworkPacket → TxDesc → Type 0
IsSent page pkt t =
    (t.addr_low ≡ u32 (page + pkt.start))
    × (t.length ≡ u16 (sub32 pkt.end pkt.start))
    × (t.command ≡ 0xB)
    × (t.status ≡ 0)

-- How many packets are sent before the one that gets the descriptor `k`.
abbrev pub distance : (tail k : ℕ) → ℕ
distance tail k = (k + tx_desc_count - tail) % tx_desc_count

set_tx-other : (l : ℕ → TxDesc) (i k : ℕ) (t : TxDesc) → k ≢ i → set_tx l i t k ≡ l k
set_tx-other l i k t ne = let e : (k == i) ≡ false = ground (arith, ne) in rw e refl

set_tx-same : (l : ℕ → TxDesc) (i : ℕ) (t : TxDesc) → set_tx l i t i ≡ t
set_tx-same l i t = ground arith

tx_send-tail :
    (page : ℕ) (pkt : NetworkPacket) (d : IntelDevice)
    → (intel_8254xx_tx_send page pkt d).tx_tail ≡ (d.tx_tail + 1) % tx_desc_count
unfolding intel_8254xx_tx_send mmio_write
tx_send-tail page pkt d = refl

tx_send-other :
    (page : ℕ) (pkt : NetworkPacket) (d : IntelDevice) (k : ℕ)
    → k ≢ d.tx_tail
    → (intel_8254xx_tx_send page pkt d).txdl k ≡ d.txdl k
unfolding intel_8254xx_tx_send mmio_write
tx_send-other page pkt d k ne = set_tx-other d.txdl d.tx_tail k _ ne

tx_send-IsSent :
    (page : ℕ) (pkt : NetworkPacket) (d : IntelDevice)
    → IsSent page pkt ((intel_8254xx_tx_send page pkt d).txdl d.tx_tail)
unfolding intel_8254xx_tx_send mmio_write
tx_send-IsSent page pkt d =
    subst (IsSent page pkt) (sym (set_tx-same d.txdl d.tx_tail _)) (refl, refl, refl, refl)

send_all-other :
    (ps : List (ℕ × NetworkPacket)) (d : IntelDevice) (k : ℕ)
    → d.tx_tail < tx_desc_count
    → k < tx_desc_count
    → length ps ≤ distance d.tx_tail k
    → (send_all ps d).txdl k ≡ d.txdl k
send_all-other [] d k lt hk h = refl
send_all-other (p ∷ ps) d k lt hk h =
    let d1 = intel_8254xx_tx_send p.0 p.1 d in
    let next = tx_send-tail p.0 p.1 d in
    send_all-other ps d1 k (omega (arith, next)) hk (omega (arith, next, h, lt, hk))
    ∙ tx_send-other p.0 p.1 d k (λ e. omega (arith, e, h, lt, hk))

send_all-tail :
    (ps : List (ℕ × NetworkPacket)) (d : IntelDevice)
    → d.tx_tail < tx_desc_count
    → (send_all ps d).tx_tail ≡ (d.tx_tail + length ps) % tx_desc_count
send_all-tail [] d lt = omega (arith, lt)
send_all-tail (p ∷ ps) d lt =
    let next = tx_send-tail p.0 p.1 d in
    send_all-tail ps (intel_8254xx_tx_send p.0 p.1 d) (omega (arith, next)) ∙ omega (arith, next)

-- A packet that is sent is in the descriptor at the tail, and stays there while at most 255 more are
-- sent; the tail moves on by one for each packet and stays in the ring.
pub tx_send_lem :
    (page : ℕ) (pkt : NetworkPacket) (ps : List (ℕ × NetworkPacket)) (d : IntelDevice)
    → d.tx_tail < tx_desc_count
    → length ps < tx_desc_count
    → let d1 = send_all ps (intel_8254xx_tx_send page pkt d) in
      IsSent page pkt (d1.txdl d.tx_tail)
      × (d1.tx_tail ≡ (d.tx_tail + 1 + length ps) % tx_desc_count)
tx_send_lem page pkt ps d lt few =
    let d1 = intel_8254xx_tx_send page pkt d in
    let next = tx_send-tail page pkt d in
    (
      subst (IsSent page pkt)
          (sym (
            send_all-other ps d1 d.tx_tail (omega (arith, next)) lt (omega (arith, next, few, lt))))
          (tx_send-IsSent page pkt d),
      send_all-tail ps d1 (omega (arith, next)) ∙ omega (arith, next),
    )
