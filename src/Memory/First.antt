-- ===== src/Memory/First.antt =====
-- `kalloc` and `kfree` of source/kernel/memory.c on the list of the largest blocks: the walks over it.
use kernel_on_qemu.Prelude.{
  List, Yields, Yields-map, ℕ, zero, suc, ◌+◌, ◌*◌, ◌%◌, ◌≤◌, ◌<◌, ◌≡◌, ◌≢◌, refl, sym, ◌∙◌, ap,
  true, false, some, ◌==◌, ◌&&◌, not, arith,
}
use mathlib.Core.Path.{subst}
use mathlib.Core.Bool.{false≢true}
use kernel_on_qemu.Memory.Layout.{memory_init_lem}
use kernel_on_qemu.Memory.{AddressRange, Store, memory_init, null, g_heap_max_block_size}
use kernel_on_qemu.Memory.Lists.{Buddy}
use kernel_on_qemu.Memory.Alloc.{find_free, kalloc}
use kernel_on_qemu.Memory.Free.{find_high, kfree}
use kernel_on_qemu.Memory.Tree.{
  Tree, Tree.free, Tree.used, Tree.node, size, fields, view, IsBlock, Frame,
}
use kernel_on_qemu.Memory.Joins.{is_free, IsBlock-status}
use kernel_on_qemu.Memory.Pages.{is_used, is_within, is_start, fits_at}
use kernel_on_qemu.Memory.Choose.{order_of, choose_block_large}
use kernel_on_qemu.Memory.Heap.{HasPages, kalloc_serves, kfree_releases}
use kernel_on_qemu.Memory.Chain.{root, block, HasChain, next_node, find_high_first, block_aligned}

-- The largest blocks have these trees.
abbrev pub HasTrees : (start body count : ℕ) → (ℕ → Tree) → Buddy → Type 0
HasTrees start body count trees b =
    (k : ℕ) → k < count → IsBlock (view b) 5 (root start k) (block body k) (trees k)

-- `memory_init` leaves all of them free.
pub memory_init-HasTrees :
    (memory_map : List AddressRange) (h : Store)
    → let b = memory_init memory_map h in
      b.heap_start ≢ null
      → HasTrees b.heap_start b.heap_body b.count
          (λ k. free)
          (record { lists = b.lists; store = b.store })
memory_init-HasTrees memory_map h ne k lt = ap fields (memory_init_lem memory_map h k ne lt)

find_free_found :
    (fuel p : ℕ) (b : Buddy)
    → p ≢ null
    → ((b.store p).status == 1) ≡ true
    → find_free (suc fuel) b p ≡ some p
unfolding find_free
find_free_found fuel p b ne e = ground (arith, e)

find_free_next :
    (fuel p : ℕ) (b : Buddy)
    → p ≢ null
    → (b.store p).status ≡ 0
    → find_free (suc fuel) b p ≡ find_free fuel b (b.store p).list_next
unfolding find_free
find_free_next fuel p b ne e = ground (arith, e)

used_status :
    (start body k : ℕ) (t : Tree) (b : Buddy)
    → IsBlock (view b) 5 (root start k) (block body k) t
    → is_free t ≡ false
    → (b.store (root start k)).status ≡ 0
used_status start body k free b h e = absurd (false≢true (sym e))
used_status start body k used b h e = ap (λ f. f.status) h
used_status start body k (node l r) b h e = ap (λ f. f.status) h.0

-- From the `k`-th node the walk gets to the `d`-th after it, if that is the first that is free.
find_free_chain :
    (d fuel k start body count : ℕ) (trees : ℕ → Tree) (b : Buddy)
    → d < fuel
    → 1 ≤ start
    → k + d < count
    → HasChain start body count b.store
    → HasTrees start body count trees b
    → is_free (trees (k + d)) ≡ true
    → ((j : ℕ) → k ≤ j → j < k + d → is_free (trees j) ≡ false)
    → find_free fuel b (root start k) ≡ some (root start (k + d))
find_free_chain d zero k start body count trees b lt pos le chain at found before =
    absurd (omega arith)
find_free_chain zero (suc fuel) k start body count trees b lt pos le chain at found before =
    let same : k + 0 ≡ k = omega arith in
    let free' = subst (λ x. is_free (trees x) ≡ true) same found in
    find_free_found fuel (root start k) b (ground arith)
      (IsBlock-status (view b) 5 _ _ (trees k) (at k (omega arith)) ∙ free')
    ∙ ap (λ x. some (root start x)) (sym same)
find_free_chain (suc d) (suc fuel) k start body count trees b lt pos le chain at found before =
    let next : next_node start count k ≡ root start (k + 1) = ground arith in
    let index : k + 1 + d ≡ k + suc d = omega arith in
    find_free_next fuel (root start k) b (ground arith) (
      used_status start body k (trees k) b (at k (omega arith))
        (before k (omega arith) (omega arith)))
    ∙ ap (find_free fuel b) ((chain k (omega arith)).1 ∙ next)
    ∙ subst (λ x. find_free fuel b (root start (k + 1)) ≡ some (root start x)) index
        (find_free_chain d fuel (k + 1) start body count trees b (omega arith) pos (omega arith)
          chain at (subst (λ x. is_free (trees x) ≡ true) (sym index) found)
          (λ j lo hi. before j (omega arith) (omega arith)))

-- In a heap whose list of the largest blocks is as `memory_init` leaves it, and where the lists of the
-- smaller blocks that would do are empty, `kalloc` of 1 to 32 pages ends and takes the first largest
-- block that is free, though it is told only the head of the list: it returns where the block starts,
-- and just the pages that were asked for are in use in it. The nodes of other blocks are as they were.
pub kalloc_first_free :
    (fuel start body count i n : ℕ) (trees : ℕ → Tree) (b : Buddy)
    → 1 ≤ n
    → n ≤ 32
    → 1 ≤ start
    → i < count
    → count ≤ fuel
    → b.lists 5 ≡ start
    → ((j : ℕ) → order_of n ≤ j → j < 5 → b.lists j ≡ null)
    → HasChain start body count b.store
    → HasTrees start body count trees b
    → trees i ≡ free
    → ((k : ℕ) → k < i → is_free (trees k) ≡ false)
    → Yields
        (λ r.
          (r.0 ≡ block body i)
          × HasPages r.1 (root start i) (block body i) (is_within 0 n)
          × Frame 5 (root start i) (view b) (view r.1))
        (kalloc fuel n b)
kalloc_first_free fuel start body count i n trees b lo hi pos lt enough head empty chain at here
      before =
    let p = root start i in
    let first : root start 0 ≡ b.lists 5 = omega (arith, head) in
    let index : 0 + i ≡ i = omega arith in
    let at_i = subst (λ t. IsBlock (view b) 5 p (block body i) t) here (at i lt) in
    let walk =
      find_free_chain i fuel 0 start body count trees b (omega arith) pos (omega arith) chain at
        (subst (λ x. is_free (trees x) ≡ true) (sym index) (ap is_free here))
        (λ j low high. before j (omega arith)) in
    let found : find_free fuel b (b.lists 5) ≡ some p =
      subst (λ x. find_free fuel b x ≡ some p) first
        (subst (λ x. find_free fuel b (root start 0) ≡ some (root start x)) index walk) in
    Yields-map _ _ (kalloc fuel n b)
      (λ r (address, pages, unused, frame). (address ∙ omega arith, pages, frame))
      (kalloc_serves fuel p (block body i) 0 5 n 5 free b lo hi (omega arith) at_i refl
        (choose_block_large fuel n p b lo hi empty (ground (arith, head)) found))

-- In a heap whose list of the largest blocks is as `memory_init` leaves it, `kfree` of `n` pages from
-- the `m`-th page of the `i`-th of them on ends, where a node starts there and the pages are whole
-- blocks. It takes those pages out of use; the other pages of the block, and the nodes of other blocks,
-- are as they were. The blocks start at a multiple of their size.
pub kfree_releases_chain :
    (fuel start body count i m n : ℕ) (t : Tree) (b : Buddy)
    → 1 ≤ start
    → body % g_heap_max_block_size ≡ 0
    → i < count
    → count ≤ fuel
    → b.lists 5 ≡ start
    → HasChain start body count b.store
    → m < size 5
    → IsBlock (view b) 5 (root start i) (block body i) t
    → is_start 5 m t ≡ true
    → fits_at 5 m n t ≡ true
    → Yields
        (λ c.
          HasPages c (root start i) (block body i) (λ k. is_used 5 t k && not (is_within m n k))
          × Frame 5 (root start i) (view b) (view c))
        (kfree fuel (block body i + 0x1000 * m) n b)
kfree_releases_chain fuel start body count i m n t b pos whole lt enough head chain small h s f =
    kfree_releases fuel (root start i) (block body i) m n t b (omega (arith, pos))
      (block_aligned body i whole) small
      (subst (λ p. find_high fuel b p (block body i) ≡ some (root start i)) (sym head)
        (find_high_first fuel i start body count b enough pos lt chain))
      h s f
