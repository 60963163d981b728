-- ===== src/Memory/Heap.antt =====
-- `kalloc` and `kfree` of source/kernel/memory.c as operations on the pages in use.
use kernel_on_qemu.Prelude.{
  Yields, Yields-map, ℕ, ◌+◌, ◌*◌, ◌%◌, ◌≤◌, ◌<◌, ◌≡◌, sym, ◌∙◌, inl, inr, Bool-cases, Bool, true,
  false, some, ◌&&◌, ◌||◌, not, arith,
}
use mathlib.Core.Path.{subst}
use kernel_on_qemu.Memory.{g_heap_max_block_size}
use kernel_on_qemu.Memory.Lists.{Buddy}
use kernel_on_qemu.Memory.Alloc.{choose_block, kalloc}
use kernel_on_qemu.Memory.Free.{find_high, kfree}
use kernel_on_qemu.Memory.Tree.{Tree, size, view, IsBlock, Frame}
use kernel_on_qemu.Memory.Joins.{Becomes, coalesce}
use kernel_on_qemu.Memory.Pages.{
  is_used, is_within, is_start, is_free_at, fits_at, free_tree, alloc_at, is_used-coalesce,
}
use kernel_on_qemu.Memory.Freed.{is_used-free_tree}
use kernel_on_qemu.Memory.Taking.{is_used-alloc_at, is_free_at_bound, is_free_at_unused}
use kernel_on_qemu.Memory.RoundTrip.{is_start-alloc_at, taken_and_freed}
use kernel_on_qemu.Memory.Release.{kfree_lem}
use kernel_on_qemu.Memory.Supply.{Takes, kalloc_lem, node_at}

-- The nodes at `p` are a tree for the largest block at `a` in which just the pages that `used_page`
-- holds of are in use.
abbrev pub HasPages : (b : Buddy) → (p a : ℕ) → (used_page : ℕ → Bool) → Type 0
HasPages b p a used_page =
    (t : Tree) × IsBlock (view b) 5 p a t × ((i : ℕ) → i < size 5 → is_used 5 t i ≡ used_page i)

not_in_use :
    (m j n i : ℕ) (t : Tree)
    → n ≤ size j
    → is_free_at 5 m j t ≡ true
    → (is_used 5 t i && is_within m n i) ≡ false
not_in_use m j n i t hi f = elim (Bool-cases (is_within m n i)) [
  | inl inside ↦
      let w : is_within m (size j) i ≡ true = ground arith in
      ground (arith, is_free_at_unused 5 m j i t f w)
  | inr outside ↦ ground (arith, outside)
]

-- `kalloc` of `n` pages, where the block that is chosen is a free one of order `j` at the `m`-th page
-- of the largest block at `a`, returns the address of that page. The `n` pages from there on were not
-- in use and now are; the other pages of the block, and the nodes of other blocks, are as they were.
pub kalloc_serves :
    (fuel p a m j n index : ℕ) (t : Tree) (b : Buddy)
    → 1 ≤ n
    → n ≤ size j
    → j ≤ 5
    → IsBlock (view b) 5 p a t
    → is_free_at 5 m j t ≡ true
    → choose_block fuel n b ≡ some (index, size j, node_at 5 p m t)
    → Yields
        (λ r.
          (r.0 ≡ a + 0x1000 * m)
          × HasPages r.1 p a (λ i. is_used 5 t i || is_within m n i)
          × ((i : ℕ) → (is_used 5 t i && is_within m n i) ≡ false)
          × Frame 5 p (view b) (view r.1))
        (kalloc fuel n b)
kalloc_serves fuel p a m j n index t b lo hi le h f chosen =
    Yields-map (Takes p a m n t b) _ (kalloc fuel n b)
      (λ r (address, block, frame). (
        address,
        (alloc_at 5 m n t, block, λ i lt. is_used-alloc_at 5 m j n i t f lo hi lt),
        (λ i. not_in_use m j n i t hi f),
        frame,
      ))
      (kalloc_lem fuel p a m j n index t b lo hi le h f chosen)

-- `kfree` of `n` pages from the `m`-th page of the largest block at `a` on, where a node starts there
-- and the pages are whole blocks, takes those pages out of use; the other pages of the block, and the
-- nodes of other blocks, are as they were.
pub kfree_releases :
    (fuel p a m n : ℕ) (t : Tree) (b : Buddy)
    → 1 ≤ p
    → a % g_heap_max_block_size ≡ 0
    → m < size 5
    → find_high fuel b (b.lists 5) a ≡ some p
    → IsBlock (view b) 5 p a t
    → is_start 5 m t ≡ true
    → fits_at 5 m n t ≡ true
    → Yields
        (λ c.
          HasPages c p a (λ i. is_used 5 t i && not (is_within m n i))
          × Frame 5 p (view b) (view c))
        (kfree fuel (a + 0x1000 * m) n b)
kfree_releases fuel p a m n t b pos whole lt high h s f =
    let freed = free_tree 5 m n t in
    Yields-map (Becomes 5 p a (coalesce freed) b) _ (kfree fuel (a + 0x1000 * m) n b)
      (λ c (block, frame, types). (
        (
          coalesce freed,
          block,
          λ i lt. is_used-coalesce 5 i freed ∙ is_used-free_tree 5 m n i t f lt,
        ),
        frame,
      ))
      (kfree_lem fuel p a m n t b pos whole lt high h s)

-- Pages that `kalloc` took, when `kfree` gives them back at once, leave every page of the block in or
-- out of use as it was, where the walk over the largest blocks finds the block.
pub kalloc-kfree :
    (fuel p a m j n index : ℕ) (t : Tree) (b : Buddy) (r : ℕ × Buddy)
    → 1 ≤ p
    → a % g_heap_max_block_size ≡ 0
    → 1 ≤ n
    → n ≤ size j
    → j ≤ 5
    → IsBlock (view b) 5 p a t
    → is_free_at 5 m j t ≡ true
    → choose_block fuel n b ≡ some (index, size j, node_at 5 p m t)
    → kalloc fuel n b ≡ some r
    → find_high fuel r.1 (r.1.lists 5) a ≡ some p
    → Yields (λ c. HasPages c p a (is_used 5 t)) (kfree fuel r.0 n r.1)
kalloc-kfree fuel p a m j n index t b r pos whole lo hi le h f chosen result high =
    let taken : Takes p a m n t b r =
      subst (Yields (Takes p a m n t b)) result
        (kalloc_lem fuel p a m j n index t b lo hi le h f chosen) in
    let tree = alloc_at 5 m n t in
    let lt : m < size 5 = omega (arith, is_free_at_bound 5 m j t f, lo, hi) in
    subst (λ x. Yields (λ c. HasPages c p a (is_used 5 t)) (kfree fuel x n r.1)) (sym taken.0)
      (Yields-map (Becomes 5 p a (coalesce (free_tree 5 m n tree)) r.1) _
        (kfree fuel (a + 0x1000 * m) n r.1)
        (λ c (block, frame, types).
          (coalesce (free_tree 5 m n tree), block, λ i lt. taken_and_freed 5 m j n i t f lo hi lt))
        (kfree_lem fuel p a m n tree r.1 pos whole lt high taken.1 (is_start-alloc_at 5 m j n t f)))
