-- ===== src/Arp/Table.antt =====
-- What the table of source/kernel/arp.c remembers.
use kernel_on_qemu.Prelude.{
  ℕ, ◌≡◌, refl, Bool, true, false, ◌&&◌, Option, none, some, List, arith, ◌==◌, if◌then◌else◌,
  Bool-cases, inl, inr, sym, ap, ◌∙◌,
}
use kernel_on_qemu.Words.{netswap16}
use kernel_on_qemu.Bytes.{Bytes, read16}
use kernel_on_qemu.Packet.{NetworkMessage}
use kernel_on_qemu.Arp.{
  ArpEntry, ArpTable, find_entry, arp_sort, remember, reply_entry, opcode, opcode_reply,
}

abbrev pub is_reply : NetworkMessage → Bool
is_reply msg = netswap16 (read16 msg.buf opcode) == opcode_reply

-- The first of two options that is there.
abbrev pub or_else : {A : Type 0} → Option A → Option A → Option A
or_else none o = o
or_else (some a) o = some a

-- What one message does: the device and the entries afterwards.
abbrev pub Learns :
    {D : Type 0}
    → (D → Bytes → D)
    → Bytes
    → NetworkMessage
    → D
    → List ArpEntry
    → Option (D × ArpTable)
    → Type 0
Learns rar_add fresh msg device es none = ⊥
Learns rar_add fresh msg device es (some (d, none)) = ⊥
Learns rar_add fresh msg device es (some (d, some es')) =
    (ip : ℕ)
    → find_entry ip es'
      ≡ or_else (find_entry ip es) (
          if is_reply msg && (reply_entry fresh msg).ip == ip
          then some (reply_entry fresh msg)
          else none)

or_else-none : {A : Type 0} (o : Option A) → or_else o none ≡ o
or_else-none none = refl
or_else-none (some a) = refl

or_else_known :
    (o : Option ArpEntry) (b : Bool) (e x : ArpEntry)
    → (b ≡ true → o ≡ some x)
    → o ≡ or_else o (if b then some e else none)
or_else_known (some y) b e x known = refl
or_else_known none true e x known = cc (known refl)
or_else_known none false e x known = refl

module _ {D : Type 0} (rar_add : D → Bytes → D) (fresh : Bytes) (msg : NetworkMessage) (device : D)
    (es : List ArpEntry) where
  -- What is known of the reply's sender is kept; what is not is entered first.
  remember-Learns :
      (o : Option ArpEntry)
      → find_entry (reply_entry fresh msg).ip es ≡ o
      → is_reply msg ≡ true
      → Learns rar_add fresh msg device es (remember rar_add (reply_entry fresh msg) device es o)
  unfolding remember find_entry
  remember-Learns none e r = λ ip. ground (
    arith,
    r,
    or_else-none (find_entry ip es),
    λ (h : (reply_entry fresh msg).ip ≡ ip). ap (λ j. find_entry j es) h,
  )
  remember-Learns (some x) e r = λ ip.
      or_else_known (find_entry ip es) (is_reply msg && (reply_entry fresh msg).ip == ip)
        (reply_entry fresh msg) x
        (λ h.
          let same : (reply_entry fresh msg).ip ≡ ip = ground arith in
          sym (ap (λ j. find_entry j es) same) ∙ e)

  -- A message adds to an initialised table only the entry of a reply whose sender was not known
  -- before: an address that is known keeps its entry, and no other message changes anything.
  pub arp_sort-Learns :
      Learns rar_add fresh msg device es (arp_sort rar_add fresh msg device (some es))
  unfolding arp_sort
  arp_sort-Learns = elim (Bool-cases (is_reply msg)) [
    | inl r ↦ rw (r, arp_sort) (remember-Learns (find_entry (reply_entry fresh msg).ip es) refl r)
    | inr r ↦ rw (r, arp_sort) (λ ip. ground (arith, r, or_else-none (find_entry ip es)))
  ]
