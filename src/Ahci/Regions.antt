-- ===== src/Ahci/Regions.antt =====
-- The regions of memory that the command table of source/kernel/ahci.c names.
use kernel_on_qemu.Prelude.{
  ℕ, zero, suc, ◌+◌, ◌-◌, ◌*◌, ◌/◌, ◌^◌, ◌≤◌, ◌<◌, ◌≡◌, refl, sym, ◌∙◌, ap, inl, inr, true, false,
  some, arith, ltb, ◌==◌, if◌then◌else◌, Bool-cases, Yields, Yields-map,
}
use mathlib.Core.Path.{subst}
use kernel_on_qemu.Words.{u32}
use kernel_on_qemu.Bytes.{Bytes, write8, write32, read32, memset}
use kernel_on_qemu.Bytes.Laws.{memset_lem}
use kernel_on_qemu.Bytes.Fields.{read32-write32_self, read32-write32_below}
use kernel_on_qemu.Ahci.Transfer.{
  write_entry, fill_prdt, region_size, prdt_entry_size, table_page_size,
}

-- The length of the first region of a buffer of `len` bytes.
abbrev pub first_length : (len : ℕ) → ℕ
first_length len = if ltb region_size len then region_size else len

-- The number of regions.
abbrev pub region_count : (len : ℕ) → ℕ
region_count len = (len + 0x1FFF) / 0x2000

-- An entry names the region of `length` bytes at `address`, and asks for an interrupt.
abbrev pub IsRegion : (m : Bytes) (prdt address length : ℕ) → Type 0
IsRegion m prdt address length =
    (read32 m prdt ≡ address) × (read32 m (prdt + 12) ≡ length - 1 + 2 ^ 31)

-- The entries from `prdt` on are the regions of the buffer in order.
abbrev pub AreRegions : (m : Bytes) (prdt buf len : ℕ) → Type 0
AreRegions m prdt buf len =
    (i : ℕ)
    → i < region_count len
    → IsRegion m (prdt + prdt_entry_size * i) (buf + region_size * i)
        (first_length (len - region_size * i))

write32-below : (m : Bytes) (a v x : ℕ) → x < a → write32 m a v x ≡ m x
unfolding write32 write8
write32-below m a v x h = ground (arith, h)

write_entry-below :
    (prdt address length x : ℕ) (m : Bytes) → x < prdt → write_entry prdt address length m x ≡ m x
unfolding write_entry
write_entry-below prdt address length x m h =
    write32-below (write32 (memset m prdt 0 prdt_entry_size) prdt address) (prdt + 12) _ x
      (omega (arith, h))
    ∙ write32-below (memset m prdt 0 prdt_entry_size) prdt address x h
    ∙ memset_lem m prdt 0 prdt_entry_size x
    ∙ ground (arith, h)

write_entry-IsRegion :
    (prdt address length : ℕ) (m : Bytes)
    → address < 2 ^ 32
    → 1 ≤ length
    → length < 2 ^ 31
    → IsRegion (write_entry prdt address length m) prdt address length
unfolding write_entry
write_entry-IsRegion prdt address length m ha lo hi =
    let m1 = memset m prdt 0 prdt_entry_size in
    let m2 = write32 m1 prdt address in
    (
      read32-write32_below m2 (prdt + 12) (length - 1 + 2 ^ 31) prdt (omega arith)
          ∙ read32-write32_self m1 prdt address ha,
      read32-write32_self m2 (prdt + 12) (length - 1 + 2 ^ 31) (omega (arith, hi, lo)),
    )

read32-same : (m n : Bytes) (a : ℕ) → ((x : ℕ) → x < a + 4 → n x ≡ m x) → read32 n a ≡ read32 m a
unfolding read32
read32-same m n a h = ground (
  arith,
  h a (omega arith),
  h (a + 1) (omega arith),
  h (a + 2) (omega arith),
  h (a + 3) (omega arith),
)

-- The entries of a buffer, and what lies before them.
abbrev pub Filled : (prdt buf len entry_count : ℕ) → (m : Bytes) → (r : ℕ × Bytes) → Type 0
Filled prdt buf len entry_count m r =
    (r.0 ≡ entry_count + region_count len)
    × AreRegions r.1 prdt buf len
    × ((x : ℕ) → x < prdt → r.1 x ≡ m x)

-- One round of the loop.
fill_step :
    (fuel prdt buf len entry_count : ℕ) (m : Bytes)
    → 1 ≤ len
    → buf + len < 2 ^ 32
    → prdt + prdt_entry_size ≤ table_page_size
    → let l = first_length len in
      fill_prdt (suc fuel) prdt buf (buf + len) entry_count m
      ≡ fill_prdt fuel
          (prdt + prdt_entry_size)
          (buf + l)
          (buf + l + (len - l))
          (entry_count + 1)
          (write_entry prdt buf l m)
unfolding fill_prdt
fill_step fuel prdt buf len entry_count m pos h room =
    let l = first_length len in
    let e0 : ltb buf (buf + len) ≡ true = ground arith in
    let e1 : buf + len - buf ≡ len = omega arith in
    let le : l ≤ len = ground arith in
    let e2 : u32 (buf + l) ≡ buf + l = omega (arith, le, h) in
    let e3 : buf + len ≡ buf + l + (len - l) = omega (arith, le) in
    let e4 : ltb table_page_size (prdt + prdt_entry_size) ≡ false = ground (arith, room) in
    rw (fill_prdt, e0, e4, e1, e2)
      (ap
        (λ x.
          fill_prdt fuel (prdt + prdt_entry_size) (buf + l) x (entry_count + 1)
            (write_entry prdt buf l m))
        e3)

fill_end :
    (fuel prdt buf len entry_count : ℕ) (m : Bytes)
    → len ≡ 0
    → fill_prdt (suc fuel) prdt buf (buf + len) entry_count m ≡ some (entry_count, m)
unfolding fill_prdt
fill_end fuel prdt buf len entry_count m e =
    let e0 : ltb buf (buf + len) ≡ false = ground (arith, e) in rw (fill_prdt, e0) refl

region_count_step :
    (len : ℕ) → 1 ≤ len → region_count len ≡ suc (region_count (len - first_length len))
region_count_step len pos = ground arith

IsRegion-cast :
    (m : Bytes) (p q a b k l : ℕ) → p ≡ q → a ≡ b → k ≡ l → IsRegion m p a k → IsRegion m q b l
IsRegion-cast m p q a b k l e f g (x, y) = (
  ap (read32 m) (sym e) ∙ x ∙ f,
  ap (λ p. read32 m (p + 12)) (sym e) ∙ y ∙ ap (λ k. k - 1 + 2 ^ 31) g,
)

-- The first region, and the others.
Filled_regions :
    (prdt buf len : ℕ) (m n : Bytes)
    → 1 ≤ len
    → buf + len < 2 ^ 32
    → len < 2 ^ 31
    → let l = first_length len in
      ((x : ℕ) → x < prdt + prdt_entry_size → n x ≡ write_entry prdt buf l m x)
      → AreRegions n (prdt + prdt_entry_size) (buf + l) (len - l)
      → AreRegions n prdt buf len
Filled_regions prdt buf len m n pos h s below regions zero lt =
    let l = first_length len in
    let l_pos : 1 ≤ l = ground (arith, pos) in
    let l_small : l < 2 ^ 31 = ground (arith, s) in
    let entry = write_entry-IsRegion prdt buf l m (omega (arith, h)) l_pos l_small in
    let same : (a : ℕ) → a ≤ prdt + 12 → read32 n a ≡ read32 (write_entry prdt buf l m) a = λ a le.
      read32-same (write_entry prdt buf l m) n a (λ x lt. below x (omega (arith, lt, le))) in
    let all : len ≡ len - region_size * 0 = omega arith in
    IsRegion-cast n prdt _ buf _ l _ (omega arith) (omega arith) (ap first_length all)
      (same prdt (omega arith) ∙ entry.0, same (prdt + 12) (omega arith) ∙ entry.1)
Filled_regions prdt buf len m n pos h s below regions (suc j) lt =
    let l = first_length len in
    let whole : l ≡ region_size = ground (arith, lt) in
    let rest : len - l - region_size * j ≡ len - region_size * suc j = omega (arith, whole) in
    IsRegion-cast n _ _ _ _ _ _ (omega arith) (omega (arith, whole)) (ap first_length rest)
      (regions j (omega (arith, lt, region_count_step len pos)))

Filled-first_region :
    (prdt buf len entry_count : ℕ) (m : Bytes) (r : ℕ × Bytes)
    → 1 ≤ len
    → buf + len < 2 ^ 32
    → len < 2 ^ 31
    → let l = first_length len in
      Filled
        (prdt + prdt_entry_size)
        (buf + l)
        (len - l)
        (entry_count + 1)
        (write_entry prdt buf l m)
        r
      → Filled prdt buf len entry_count m r
Filled-first_region prdt buf len entry_count m r pos h s (count, regions, below) =
    let l = first_length len in
    let more = region_count_step len pos in
    (
      count ∙ omega (arith, more),
      Filled_regions prdt buf len m r.1 pos h s below regions,
      λ x lt. below x (omega (arith, lt)) ∙ write_entry-below prdt buf l x m lt,
    )

-- Where the entries fit in the page of the table, the loop ends, and names the whole buffer: region by region, in order and without a gap.
pub fill_prdt_lem :
    (fuel prdt buf len entry_count : ℕ) (m : Bytes)
    → region_count len < fuel
    → buf + len < 2 ^ 32
    → len < 2 ^ 31
    → prdt + prdt_entry_size * region_count len ≤ table_page_size
    → Yields (Filled prdt buf len entry_count m) (fill_prdt fuel prdt buf (buf + len) entry_count m)
unfolding fill_prdt
fill_prdt_lem zero prdt buf len entry_count m f h s room = absurd (omega arith)
fill_prdt_lem (suc fuel) prdt buf len entry_count m f h s room =
    let l = first_length len in
    elim (Bool-cases (len == 0)) [
      | inl empty ↦
          let none_left : len ≡ 0 = ground arith in
          subst (Yields (Filled prdt buf len entry_count m))
            (sym (fill_end fuel prdt buf len entry_count m none_left))
            (
              omega (arith, none_left),
              (λ i lt. absurd (omega (arith, lt, none_left))),
              λ x lt. refl,
            )
      | inr some_left ↦
          let pos : 1 ≤ len = ground arith in
          let le : l ≤ len = ground (arith) in
          let more = region_count_step len pos in
          subst (Yields (Filled prdt buf len entry_count m))
            (sym (fill_step fuel prdt buf len entry_count m pos h (omega (arith, room, more))))
            (Yields-map
              (Filled (prdt + prdt_entry_size) (buf + l) (len - l) (entry_count + 1)
                (write_entry prdt buf l m))
              (Filled prdt buf len entry_count m) _
              (λ r. Filled-first_region prdt buf len entry_count m r pos h s)
              (fill_prdt_lem fuel (prdt + prdt_entry_size) (buf + l) (len - l) (entry_count + 1)
                (write_entry prdt buf l m) (omega (arith, f, more)) (omega (arith, h, le))
                (omega (arith, s)) (omega (arith, room, more))))
    ]
