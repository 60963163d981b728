-- ===== src/Tests/Heap.antt =====
-- The buddy allocator of source/kernel/memory.c at concrete inputs.
use kernel_on_qemu.Prelude.{
  List, [], ◌∷◌, Yields, ◌>>=◌, ℕ, ◌+◌, ◌*◌, ◌≤◌, ◌<◌, ◌≡◌, refl, ◌&&◌, not, Option, none, some,
  arith, ◌==◌, if◌then◌else◌,
}
use kernel_on_qemu.Memory.{AddressRange, BuddyNode, memory_init}
use kernel_on_qemu.Memory.Lists.{Buddy}
use kernel_on_qemu.Memory.Alloc.{choose_block, kalloc}
use kernel_on_qemu.Memory.Free.{kfree}
use kernel_on_qemu.Memory.Tree.{Tree.free, view, Frame, IsBlock}
use kernel_on_qemu.Memory.Choose.{order_of, choose_block_small}
use kernel_on_qemu.Memory.Pages.{is_used, is_within, alloc_at}
use kernel_on_qemu.Memory.Heap.{HasPages}
use kernel_on_qemu.Memory.First.{
  HasTrees, memory_init-HasTrees, kalloc_first_free, kfree_releases_chain,
}
use kernel_on_qemu.Memory.Chain.{root, block, HasChain, memory_init-HasChain, kalloc-kfree_chain}

-- A heap with one largest block, at 0x120000, whose node is at 0x100000.
abbrev no_node : BuddyNode
no_node = record {
  type = 0;
  status = 0;
  sidedness = 0;
  padding = 0;
  address = 0;
  list_next = 0;
  list_prev = 0;
  leaf_left = 0;
  leaf_right = 0;
}

abbrev top : BuddyNode
top = record no_node { type = 0x20; status = 1; sidedness = 2; address = 0x120000 }

abbrev heap : Buddy
heap = record {
  lists = λ i. if i == 5 then 0x100000 else 0;
  store = λ x. if x == 0x100000 then top else no_node;
}

abbrev or_heap : Option (ℕ × Buddy) → ℕ × Buddy
or_heap none = (0, heap)
or_heap (some r) = r

-- Only the lists of 16K and of the largest blocks hold blocks.
abbrev listed : Buddy
listed = record heap { lists = λ i. if i == 2 then 0x200 else if i == 5 then 0x100000 else 0 }

choose_block_small_example : choose_block 2 3 listed ≡ some (2, 4, 0x200)
choose_block_small_example =
    choose_block_small 2 3 2 listed (omega arith) (omega arith) (omega arith) (omega arith)
      (λ j lo hi. absurd (omega (arith, lo, hi))) (ground arith)

-- A heap with two largest blocks.
abbrev two_blocks : Buddy
two_blocks = record heap {
  store = λ x.
      if x == 0x100000
      then record top { list_next = 0x1005e8 }
      else if x == 0x1005e8
      then record top { address = 0x140000; list_prev = 0x100000 }
      else no_node;
}

-- 1, 17, 1 and 1 pages are taken, and the first is given back.
abbrev take : (n : ℕ) → Buddy → Option Buddy
take n b = kalloc 3 n b >>= λ r. some r.1

unfoldable mixed : Option Buddy
unfolding kalloc kfree
mixed = kalloc 3 1 two_blocks >>= λ r.
    take 17 r.1 >>= λ b. take 1 b >>= λ b. take 1 b >>= λ b. kfree 3 r.0 1 b

abbrev next_address : Option Buddy → Option (ℕ × Buddy)
next_address o = o >>= kalloc 3 2

abbrev heap_of : Option (ℕ × Buddy) → Option Buddy
heap_of o = o >>= λ r. some r.1

abbrev address_of : Option (ℕ × Buddy) → Option ℕ
address_of o = o >>= λ r. some r.0

unfoldable first_two : Option ℕ
unfolding mixed kalloc
first_two = address_of (next_address mixed)

unfoldable third_two : Option ℕ
unfolding mixed kalloc
third_two = address_of (next_address (heap_of (next_address (heap_of (next_address mixed)))))

-- The third request for 2 pages gets the pages of the first, which was not given back.
pages_given_twice : third_two ≡ first_two
unfolding first_two third_two
pages_given_twice = refl

-- The heap after `memory_init`, in a region for two largest blocks.
abbrev memory_map : List AddressRange
memory_map = (record { base_l = 0x100000; length_l = 0x50000; type = 1 }) ∷ []

unfoldable started : Buddy
unfolding memory_init
started =
    let b = memory_init memory_map (λ x. no_node) in record { lists = b.lists; store = b.store }

started-HasChain : HasChain 0x100000 0x120000 2 started.store
unfolding started memory_init
started-HasChain = memory_init-HasChain memory_map (λ x. no_node) (ground arith)

started_head : started.lists 5 ≡ 0x100000
unfolding started memory_init
started_head = refl

started-IsBlock : IsBlock (view started) 5 0x100000 0x120000 free
unfolding started memory_init
started-IsBlock = refl

started_chosen : choose_block 2 3 started ≡ some (5, 0x20, 0x100000)
unfolding started memory_init choose_block
started_chosen = refl

unfoldable pages : ℕ × Buddy
unfolding kalloc
pages = or_heap (kalloc 2 3 started)

pages_result : kalloc 2 3 started ≡ some pages
unfolding pages started memory_init
pages_result = refl

kalloc-kfree_chain_example :
    (pages.1.lists 5 ≡ 0x100000)
    × HasChain 0x100000 0x120000 2 pages.1.store
    × Yields (λ c. HasPages c 0x100000 0x120000 (is_used 5 free)) (kfree 2 pages.0 3 pages.1)
kalloc-kfree_chain_example =
    kalloc-kfree_chain 2 0x100000 0x120000 2 0 0 5 3 5 free started pages (omega arith) refl
      (omega arith) (omega arith) started_head started-HasChain (omega arith) (omega arith)
      (omega arith) started-IsBlock refl started_chosen pages_result

started-HasTrees : HasTrees 0x100000 0x120000 2 (λ k. free) started
unfolding started memory_init
started-HasTrees = memory_init-HasTrees memory_map (λ x. no_node) (ground arith)

started_empty : (j : ℕ) → order_of 3 ≤ j → j < 5 → started.lists j ≡ 0
unfolding started memory_init
started_empty j lo hi = ground (arith, hi)

kalloc_first_free_example :
    Yields
      (λ r.
        (r.0 ≡ block 0x120000 0)
        × HasPages r.1 (root 0x100000 0) (block 0x120000 0) (is_within 0 3)
        × Frame 5 (root 0x100000 0) (view started) (view r.1))
      (kalloc 2 3 started)
kalloc_first_free_example =
    kalloc_first_free 2 0x100000 0x120000 2 0 3 (λ k. free) started (omega arith) (omega arith)
      (omega arith) (omega arith) (omega arith) started_head started_empty started-HasChain
      started-HasTrees refl (λ k lt. absurd (omega arith))

pages_head : pages.1.lists 5 ≡ 0x100000
unfolding pages started memory_init
pages_head = refl

pages-HasChain : HasChain 0x100000 0x120000 2 pages.1.store
pages-HasChain =
    (kalloc-kfree_chain 2 0x100000 0x120000 2 0 0 5 3 5 free started pages (omega arith) refl
      (omega arith) (omega arith) started_head started-HasChain (omega arith) (omega arith)
      (omega arith) started-IsBlock refl started_chosen pages_result).1

pages-IsBlock : IsBlock (view pages.1) 5 0x100000 0x120000 (alloc_at 5 0 3 free)
unfolding pages started memory_init
pages-IsBlock = (refl, (refl, (refl, (refl, refl, (refl, refl, refl)), refl), refl), refl)

kfree_releases_chain_example :
    Yields
      (λ c.
        HasPages c
          (root 0x100000 0)
          (block 0x120000 0)
          (λ k. is_used 5 (alloc_at 5 0 3 free) k && not (is_within 0 3 k))
        × Frame 5 (root 0x100000 0) (view pages.1) (view c))
      (kfree 2 (block 0x120000 0 + 0x1000 * 0) 3 pages.1)
kfree_releases_chain_example =
    kfree_releases_chain 2 0x100000 0x120000 2 0 0 3 (alloc_at 5 0 3 free) pages.1 (omega arith)
      refl (omega arith) (omega arith) pages_head pages-HasChain (omega arith) pages-IsBlock refl
      refl
