-- ===== src/Memory/Chain.antt =====
-- `kalloc` and `kfree` of source/kernel/memory.c and the list of the largest blocks, as `memory_init`
-- makes it: `kalloc` keeps it, so that `kfree` finds the block.
use kernel_on_qemu.Prelude.{
  some, Yields, OnSome, ℕ, zero, suc, ◌+◌, ◌*◌, ◌%◌, ◌≤◌, ◌<◌, ◌≡◌, ◌≢◌, sym, ◌∙◌, ap, inl, inr,
  true, ◌==◌, arith, ltb, Bool-cases, ==_iff, List, if◌then◌else◌,
}
use mathlib.Core.Path.{subst}
use kernel_on_qemu.Memory.{
  AddressRange, Store, null, nodes_size, g_heap_max_block_size, memory_init,
}
use kernel_on_qemu.Memory.Lists.{Buddy}
use kernel_on_qemu.Memory.Alloc.{choose_block, kalloc}
use kernel_on_qemu.Memory.Free.{find_high, kfree}
use kernel_on_qemu.Memory.Layout.{memory_init_lem}
use kernel_on_qemu.Memory.Tree.{Tree, size, view, IsBlock, View, Frame, IsOutside}
use kernel_on_qemu.Memory.Joins.{IsBlock-address}
use kernel_on_qemu.Memory.Pages.{is_used, is_free_at, alloc_at}
use kernel_on_qemu.Memory.Supply.{Takes, kalloc_lem, node_at}
use kernel_on_qemu.Memory.Kept.{NotBelow, Links}
use kernel_on_qemu.Memory.Links.{kalloc_keeps}
use kernel_on_qemu.Memory.Heap.{HasPages, kalloc-kfree}

-- The node of the `k`-th largest block, and where the block starts.
abbrev pub root : (start k : ℕ) → ℕ
root start k = start + k * nodes_size

abbrev pub block : (body k : ℕ) → ℕ
block body k = body + k * g_heap_max_block_size

-- The node after the `k`-th of `count`.
abbrev pub next_node : (start count k : ℕ) → ℕ
next_node start count k = if ltb (k + 1) count then start + (k + 1) * nodes_size else null

-- The nodes of the `count` largest blocks are linked in order, each with the address of its block.
abbrev pub HasChain : (start body count : ℕ) → Store → Type 0
HasChain start body count h =
    (k : ℕ)
    → k < count
    → ((h (start + k * nodes_size)).address ≡ body + k * g_heap_max_block_size)
      × ((h (start + k * nodes_size)).list_next ≡ next_node start count k)

-- `memory_init` leaves such a list, where the heap does not start at NULL.
pub memory_init-HasChain :
    (memory_map : List AddressRange) (h : Store)
    → let b = memory_init memory_map h in
      b.heap_start ≢ null → HasChain b.heap_start b.heap_body b.count b.store
memory_init-HasChain memory_map h ne k lt =
    let e = memory_init_lem memory_map h k ne lt in (ap (λ n. n.address) e, ap (λ n. n.list_next) e)

find_high_found :
    (fuel p a : ℕ) (b : Buddy)
    → p ≢ null
    → (b.store p).address ≡ a
    → find_high (suc fuel) b p a ≡ some p
unfolding find_high
find_high_found fuel p a b ne e = ground arith

find_high_next :
    (fuel p a : ℕ) (b : Buddy)
    → p ≢ null
    → (b.store p).address ≢ a
    → find_high (suc fuel) b p a ≡ find_high fuel b (b.store p).list_next a
unfolding find_high
find_high_next fuel p a b ne e = ground arith

-- From the `k`-th node the walk gets to the `d`-th after it.
find_high_chain :
    (d fuel k start body count : ℕ) (b : Buddy)
    → d < fuel
    → 1 ≤ start
    → k + d < count
    → HasChain start body count b.store
    → find_high fuel b (start + k * nodes_size) (body + (k + d) * g_heap_max_block_size)
      ≡ some (start + (k + d) * nodes_size)
find_high_chain d zero k start body count b lt pos le chain = absurd (omega arith)
find_high_chain zero (suc fuel) k start body count b lt pos le chain =
    let same : k + 0 ≡ k = omega arith in
    subst
      (λ x.
        find_high (suc fuel) b (start + k * nodes_size) (body + x * g_heap_max_block_size)
        ≡ some (start + x * nodes_size))
      (sym same)
      (find_high_found fuel (start + k * nodes_size) (body + k * g_heap_max_block_size) b
        (ground arith) (chain k (omega arith)).0)
find_high_chain (suc d) (suc fuel) k start body count b lt pos le chain =
    let at = chain k (omega arith) in
    let a = body + (k + suc d) * g_heap_max_block_size in
    let next : next_node start count k ≡ start + (k + 1) * nodes_size = ground arith in
    let index : k + 1 + d ≡ k + suc d = omega arith in
    find_high_next fuel (start + k * nodes_size) a b (ground arith)
      (λ e. absurd (omega (arith, at.0, e)))
    ∙ ap (λ p. find_high fuel b p a) (at.1 ∙ next)
    ∙ subst
        (λ x.
          find_high fuel b (start + (k + 1) * nodes_size) (body + x * g_heap_max_block_size)
          ≡ some (start + x * nodes_size))
        index
        (find_high_chain d fuel (k + 1) start body count b (omega arith) pos (omega arith) chain)

-- The walk from the first node finds the block at its start.
pub find_high_first :
    (fuel i start body count : ℕ) (b : Buddy)
    → count ≤ fuel
    → 1 ≤ start
    → i < count
    → HasChain start body count b.store
    → find_high fuel b start (block body i) ≡ some (root start i)
find_high_first fuel i start body count b enough pos lt chain =
    let index : 0 + i ≡ i = omega arith in
    let first : root start 0 ≡ start = omega arith in
    subst (λ x. find_high fuel b start (block body x) ≡ some (root start x)) index
      (subst (λ p. find_high fuel b p (block body (0 + i)) ≡ some (root start (0 + i))) first
        (find_high_chain i fuel 0 start body count b (omega arith) pos (omega arith) chain))

-- The root of another block, or of the block itself, is not below the root of a block.
root-NotBelow : (start i k : ℕ) → NotBelow 5 (root start i) (root start k)
root-NotBelow start i k = ground arith

root-IsOutside : (start i k : ℕ) → k ≢ i → IsOutside 5 (root start i) (root start k)
root-IsOutside start i k ne = ground arith

-- What a root holds of the address is kept, in the block that is taken from and in the others.
root_address :
    (start body i k : ℕ) (t u : Tree) (v w : View)
    → IsBlock v 5 (root start i) (block body i) t
    → IsBlock w 5 (root start i) (block body i) u
    → Frame 5 (root start i) v w
    → (w (root start k)).address ≡ (v (root start k)).address
root_address start body i k t u v w h g frame = elim (Bool-cases (k == i)) [
  | inl same ↦
      subst (λ k. (w (root start k)).address ≡ (v (root start k)).address)
        (sym ((==_iff k i).0 same))
        (IsBlock-address w 5 (root start i) (block body i) u g
          ∙ sym (IsBlock-address v 5 (root start i) (block body i) t h))
  | inr other ↦ ap (λ n. n.address) (frame (root start k) (root-IsOutside start i k (ground arith)))
]

-- `kalloc` of pages in the `i`-th largest block keeps the list of the largest blocks.
kalloc-HasChain :
    (fuel start body count i m j n index : ℕ) (t : Tree) (b : Buddy) (r : ℕ × Buddy)
    → 1 ≤ n
    → n ≤ size j
    → j ≤ 5
    → HasChain start body count b.store
    → IsBlock (view b) 5 (root start i) (block body i) t
    → is_free_at 5 m j t ≡ true
    → choose_block fuel n b ≡ some (index, size j, node_at 5 (root start i) m t)
    → kalloc fuel n b ≡ some r
    → (r.1.lists 5 ≡ b.lists 5) × HasChain start body count r.1.store
kalloc-HasChain fuel start body count i m j n index t b r lo hi le chain h f chosen result =
    let p = root start i in
    let a = block body i in
    let links : Links 5 p b r.1 =
      subst (OnSome (λ r. Links 5 p b r.1)) result
        (kalloc_keeps fuel p m j n index t b lo hi le f chosen) in
    let taken : Takes p a m n t b r =
      subst (Yields (Takes p a m n t b)) result
        (kalloc_lem fuel p a m j n index t b lo hi le h f chosen) in
    (
      links.0,
      λ k lt. (
        root_address start body i k t (alloc_at 5 m n t) (view b) (view r.1) h taken.1 taken.2
            ∙ (chain k lt).0,
        links.1 (root start k) (root-NotBelow start i k) ∙ (chain k lt).1,
      ),
    )

pub block_aligned :
    (body i : ℕ) → body % g_heap_max_block_size ≡ 0 → block body i % g_heap_max_block_size ≡ 0
block_aligned body i e = omega (arith, e)

-- In a heap whose list of the largest blocks is as `memory_init` leaves it, and where the block that
-- `kalloc` chooses is a free one of order `j` in the tree of the `i`-th of them: when `kalloc` takes
-- pages of it, the list stays as it is, and `kfree` that gives the pages back at once ends, with every
-- page of the `i`-th block in or out of use as it was. The blocks start at a multiple of their size.
pub kalloc-kfree_chain :
    (fuel start body count i m j n index : ℕ) (t : Tree) (b : Buddy) (r : ℕ × Buddy)
    → 1 ≤ start
    → body % g_heap_max_block_size ≡ 0
    → i < count
    → count ≤ fuel
    → b.lists 5 ≡ start
    → HasChain start body count b.store
    → 1 ≤ n
    → n ≤ size j
    → j ≤ 5
    → IsBlock (view b) 5 (root start i) (block body i) t
    → is_free_at 5 m j t ≡ true
    → choose_block fuel n b ≡ some (index, size j, node_at 5 (root start i) m t)
    → kalloc fuel n b ≡ some r
    → (r.1.lists 5 ≡ start)
      × HasChain start body count r.1.store
      × Yields (λ c. HasPages c (root start i) (block body i) (is_used 5 t)) (kfree fuel r.0 n r.1)
kalloc-kfree_chain fuel start body count i m j n index t b r pos whole lt enough head chain lo hi le
      h f chosen result =
    let kept =
      kalloc-HasChain fuel start body count i m j n index t b r lo hi le chain h f chosen result in
    let high =
      subst (λ p. find_high fuel r.1 p (block body i) ≡ some (root start i)) (sym (kept.0 ∙ head))
        (find_high_first fuel i start body count r.1 enough pos lt kept.1) in
    (
      kept.0 ∙ head,
      kept.1,
      kalloc-kfree fuel (root start i) (block body i) m j n index t b r (omega (arith, pos))
          (block_aligned body i whole) lo hi le h f chosen result high,
    )
