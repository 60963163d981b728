-- ===== src/Pci/Present.antt =====
-- What the enumeration of source/kernel/pci.c lists, and how much.
use kernel_on_qemu.Prelude.{
  ℕ, zero, suc, ◌+◌, ◌*◌, ◌^◌, ◌≤◌, ◌<◌, ◌≡◌, ◌≢◌, refl, sym, ◌∙◌, true, List, [], ◌∷◌, ◌++◌,
  length, length-append, All, arith, if◌then◌else◌, Bool-cases, inl, inr,
}
use kernel_on_qemu.Words.{u32}
use kernel_on_qemu.Pci.{
  Token, Space, is_present, has_functions, walk_functions, walk_device, walk_devices, walk_buses,
  enum_pci, enum_pci_count,
}
use kernel_on_qemu.Pci.Enumeration.{visit_all, walk_buses_lem, add}

count_lem :
    (l : List Token) (n : ℕ)
    → n < 2 ^ 32
    → visit_all (λ t count. u32 (count + 1)) l n ≡ u32 (n + length l)
unfolding visit_all
count_lem [] n h = omega arith
count_lem (t ∷ l) n h = omega (arith, count_lem l (u32 (n + 1)) (omega arith))

-- A function that the loops may list: it is there, and its device has several functions unless it
-- is the first one.
pub record Listed (space : Space) (t : Token) : Type 0 where
  pub present : is_present space t.bus t.device t.function ≡ true
  pub first : is_present space t.bus t.device 0 ≡ true
  pub several : t.function ≢ 0 → has_functions space t.bus t.device ≡ true
  pub bus : t.bus < 0x100
  pub device : t.device < 0x20
  pub function : t.function < 8

-- Entries that are listed, at most `n` of them.
abbrev Short : Space → ℕ → List Token → Type 0
Short space n l = All (Listed space) l × (length l ≤ n)

All-append :
    (P : Token → Type 0) (l : List Token) (t : Token) → All P l → P t → All P (l ++ (t ∷ []))
All-append P [] t h p = (p, tt)
All-append P (u ∷ l) t h p = (h.0, All-append P l t h.1 p)

module _ (space : Space) where
  add-Short :
      (n : ℕ) (l : List Token) (t : Token)
      → Short space n l
      → Listed space t
      → Short space (n + 1) (add t l)
  add-Short n l t h p =
      (All-append (Listed space) l t h.0 p, omega (arith, h.1, length-append l (t ∷ [])))

  more-Short : (n m : ℕ) (l : List Token) → n ≤ m → Short space n l → Short space m l
  more-Short n m l le h = (h.0, omega (arith, h.1))

  walk_functions-Short :
      (bus device k n m : ℕ) (l : List Token)
      → bus < 0x100
      → device < 0x20
      → k + n ≤ 8
      → is_present space bus device 0 ≡ true
      → has_functions space bus device ≡ true
      → Short space m l
      → Short space (m + n) (walk_functions space add bus device k n l)
  unfolding walk_functions
  walk_functions-Short bus device k zero m l hb hd hk first several h =
      more-Short m (m + 0) l (omega arith) h
  walk_functions-Short bus device k (suc n) m l hb hd hk first several h =
      let next : Short space (m + 1) (
          if is_present space bus device k
          then add (record { bus = bus; device = device; function = k }) l
          else l) =
        elim (Bool-cases (is_present space bus device k)) [
          | inl present ↦ rw present (
              add-Short m l _ h (record {
                present = present;
                first = first;
                several = λ _. several;
                bus = hb;
                device = hd;
                function = omega arith;
              }))
          | inr absent ↦ rw absent (more-Short m (m + 1) l (omega arith) h)
        ] in
      more-Short (m + 1 + n) (m + suc n) _ (omega arith)
        (walk_functions-Short bus device (k + 1) n (m + 1) _ hb hd (omega arith) first several next)

  walk_device-Short :
      (bus device m : ℕ) (l : List Token)
      → bus < 0x100
      → device < 0x20
      → Short space m l
      → Short space (m + 8) (walk_device space add bus device l)
  unfolding walk_device
  walk_device-Short bus device m l hb hd h = elim (Bool-cases (is_present space bus device 0)) [
    | inr absent ↦ rw absent (more-Short m (m + 8) l (omega arith) h)
    | inl present ↦
        let one : Short space (m + 1)
            (add (record { bus = bus; device = device; function = 0 }) l) =
          add-Short m l _ h (record {
            present = present;
            first = present;
            several = λ ne. absurd (ne refl);
            bus = hb;
            device = hd;
            function = omega arith;
          }) in
        elim (Bool-cases (has_functions space bus device)) [
          | inr single ↦ rw (present, single) (more-Short (m + 1) (m + 8) _ (omega arith) one)
          | inl several ↦
              rw (present, several)
                (more-Short (m + 1 + 7) (m + 8) _ (omega arith) (
                  walk_functions-Short bus device 1 7 (m + 1) _ hb hd (omega arith) present several
                    one))
        ]
  ]

  walk_devices-Short :
      (bus j n m : ℕ) (l : List Token)
      → bus < 0x100
      → j + n ≤ 0x20
      → Short space m l
      → Short space (m + 8 * n) (walk_devices space add bus j n l)
  unfolding walk_devices
  walk_devices-Short bus j zero m l hb hj h = more-Short m (m + 8 * 0) l (omega arith) h
  walk_devices-Short bus j (suc n) m l hb hj h =
      more-Short (m + 8 + 8 * n) (m + 8 * suc n) _ (omega arith) (
        walk_devices-Short bus (j + 1) n (m + 8) _ hb (omega arith)
          (walk_device-Short bus j m l hb (omega arith) h))

  walk_buses-Short :
      (i n m : ℕ) (l : List Token)
      → i + n ≤ 0x100
      → Short space m l
      → Short space (m + 0x100 * n) (walk_buses space add i n l)
  unfolding walk_buses
  walk_buses-Short i zero m l hi h = more-Short m (m + 0x100 * 0) l (omega arith) h
  walk_buses-Short i (suc n) m l hi h =
      more-Short (m + 8 * 0x20 + 0x100 * n) (m + 0x100 * suc n) _ (omega arith) (
        walk_buses-Short (i + 1) n (m + 8 * 0x20) _ (omega arith)
          (walk_devices-Short i 0 0x20 m l (omega arith) (omega arith) h))

  -- Every function that the enumeration lists is there, at a valid address, and belongs to a device
  -- that is there and has several functions, unless it is the first; there are at most 2 ^ 16.
  pub enum_pci_lem : All (Listed space) (enum_pci space) × (length (enum_pci space) ≤ 0x10000)
  unfolding enum_pci
  enum_pci_lem = walk_buses-Short 0 0x100 0 [] (omega arith) (tt, omega arith)

  -- The count is the number of tokens that the enumeration writes: a buffer for that many is large
  -- enough and gets full.
  pub enum_pci_count_lem : enum_pci_count space ≡ length (enum_pci space)
  unfolding enum_pci_count enum_pci visit_all
  enum_pci_count_lem =
      sym (walk_buses_lem space (λ t count. u32 (count + 1)) 0 0 0x100 [])
      ∙ count_lem (enum_pci space) 0 (omega arith)
      ∙ omega (arith, enum_pci_lem.1)
