-- ===== src/Memory/Layout.antt =====
-- The layout of the heap after `memory_init` of source/kernel/memory.c.
use kernel_on_qemu.Prelude.{
  ℕ, zero, suc, ◌+◌, ◌-◌, ◌*◌, ◌%◌, ◌^◌, ◌≤◌, ◌<◌, ◌≡◌, ◌≢◌, refl, Bool, List, [], ◌∷◌, All, arith,
  ltb, ◌==◌, if◌then◌else◌, ap, ◌&&◌, ◌⊎◌, inl, inr, Bool-cases,
}
use mathlib.Core.Path.{subst, sym}
use kernel_on_qemu.Memory.{
  AddressRange, BuddyNode, Store, null, nodes_size, g_heap_max_block_size, Region, largest_region,
  buddy_header_size, put, init_node, init_nodes, memory_init,
}

-- The `k`-th node of a list of `count`: free, with its block, between its neighbours.
abbrev pub block_node : (start body count k : ℕ) → BuddyNode
block_node start body count k = record {
  type = 0x20;
  status = 1;
  sidedness = 2;
  padding = 0;
  address = body + k * g_heap_max_block_size;
  list_next = if ltb (k + 1) count then start + (k + 1) * nodes_size else null;
  list_prev = if k == 0 then null else start + (k - 1) * nodes_size;
  leaf_left = null;
  leaf_right = null;
}

-- The node before the `i`-th.
abbrev before : (start i : ℕ) → ℕ
before start i = if i == 0 then null else start + (i - 1) * nodes_size

init_node_lem :
    (start body i k : ℕ) (h : Store)
    → start ≢ null
    → ((k : ℕ) → k < i → h (start + k * nodes_size) ≡ block_node start body i k)
    → k < i + 1
    → init_node start body i (before start i) h (start + k * nodes_size)
      ≡ block_node start body (i + 1) k
unfolding init_node put
init_node_lem start body zero k h ne made lt = ground arith
init_node_lem start body (suc i) k h ne made lt = ground (arith, made k, made i)

init_nodes_lem :
    (start body n i : ℕ) (h : Store)
    → start ≢ null
    → ((k : ℕ) → k < i → h (start + k * nodes_size) ≡ block_node start body i k)
    → (k : ℕ) → k < i + n
    → init_nodes start body n i (before start i) h (start + k * nodes_size)
      ≡ block_node start body (i + n) k
unfolding init_nodes
init_nodes_lem start body zero i h ne made k lt = ground (arith, made k)
init_nodes_lem start body (suc n) i h ne made k lt = ground (
  arith,
  init_nodes_lem start body n (i + 1) (init_node start body i (before start i) h) ne
      (λ j l. init_node_lem start body i j h ne made l) k,
)

-- The nodes of the `count` largest blocks lie in the header, before all blocks, so that no block
-- overlaps a node; the header is in whole blocks.
pub buddy_header_size_lem :
    (count : ℕ)
    → count < 2 ^ 15
    → (nodes_size * count ≤ buddy_header_size count)
      × (buddy_header_size count < nodes_size * count + g_heap_max_block_size)
      × (buddy_header_size count % g_heap_max_block_size ≡ 0)
unfolding buddy_header_size
buddy_header_size_lem count h = (ground arith, ground arith, ground arith)

-- After `memory_init` the list of the largest blocks holds every node in order: free, with its block
-- of 128K behind the header, and linked to its neighbours. The heap does not start at NULL.
pub memory_init_lem :
    (memory_map : List AddressRange) (h : Store) (k : ℕ)
    → let b = memory_init memory_map h in
      b.heap_start ≢ null
      → k < b.count
      → b.store (b.heap_start + k * nodes_size) ≡ block_node b.heap_start b.heap_body b.count k
unfolding memory_init
memory_init_lem memory_map h k ne lt =
    let b = memory_init memory_map h in
    let all : 0 + b.count ≡ b.count = omega arith in
    subst (λ n. b.store (b.heap_start + k * nodes_size) ≡ block_node b.heap_start b.heap_body n k)
      all
      (init_nodes_lem b.heap_start b.heap_body b.count 0 h ne (λ j l. absurd (omega arith)) k
        (omega (arith, lt)))

abbrev pub Any : {A : Type 0} → (A → Type 0) → List A → Type 0
Any P [] = ⊥
Any P (x ∷ xs) = P x ⊎ Any P xs

-- A usable entry of the memory map that is the region.
abbrev pub IsRegion : Region → AddressRange → Type 0
IsRegion r d = (d.type ≡ 1) × (r.heap_start ≡ d.base_l) × (r.max_len ≡ d.length_l)

abbrev pub IsLargest : List AddressRange → (r0 r : Region) → Type 0
IsLargest l r0 r =
    (r0.max_len ≤ r.max_len)
    × All (λ d. d.type ≡ 1 → d.length_l ≤ r.max_len) l
    × ((r ≡ r0) ⊎ Any (IsRegion r) l)

take_entry :
    (d : AddressRange) (l : List AddressRange) (r : Region)
    → d.type ≡ 1
    → IsLargest l (record { heap_start = d.base_l; max_len = d.length_l }) r
    → Any (IsRegion r) (d ∷ l)
take_entry d l r u (le, all, inl e) = inl (u, ap (λ r. r.heap_start) e, ap (λ r. r.max_len) e)
take_entry d l r u (le, all, inr x) = inr x

keep_region :
    (d : AddressRange) (l : List AddressRange) (r0 r : Region)
    → (r ≡ r0) ⊎ Any (IsRegion r) l
    → (r ≡ r0) ⊎ Any (IsRegion r) (d ∷ l)
keep_region d l r0 r (inl e) = inl e
keep_region d l r0 r (inr x) = inr (inr x)

-- The heap takes the longest usable entry of the memory map, or keeps what it was where no usable
-- entry is longer.
pub largest_region_lem :
    (l : List AddressRange) (r0 : Region) → IsLargest l r0 (largest_region l r0)
unfolding largest_region
largest_region_lem [] r0 = (omega arith, tt, inl refl)
largest_region_lem (d ∷ l) r0 =
    let r1 : Region = record { heap_start = d.base_l; max_len = d.length_l } in
    let c : Bool = ltb r0.max_len d.length_l && d.type == 1 in
    elim (Bool-cases c) [
      | inl longer ↦
          let rest = largest_region_lem l r1 in
          let le : r0.max_len ≤ d.length_l = ground arith in
          let usable : d.type ≡ 1 = ground arith in
          subst (λ b. IsLargest (d ∷ l) r0 (largest_region l (if b then r1 else r0))) (sym longer)
            (
              omega (arith, le, rest.0),
              (λ u. rest.0, rest.1),
              inr (take_entry d l (largest_region l r1) usable rest),
            )
      | inr shorter ↦
          let rest = largest_region_lem l r0 in
          let le : d.type ≡ 1 → d.length_l ≤ r0.max_len = λ u. ground arith in
          subst (λ b. IsLargest (d ∷ l) r0 (largest_region l (if b then r1 else r0))) (sym shorter)
            (
              rest.0,
              (λ u. omega (arith, le u, rest.0), rest.1),
              keep_region d l r0 (largest_region l r0) rest.2,
            )
    ]
