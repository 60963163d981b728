-- ===== src/Memory/Release.antt =====
-- `kfree` of source/kernel/memory.c as an operation on the tree of a largest block.
use kernel_on_qemu.Prelude.{
  Yields, Yields-map, Yields-bind, ◌>>=◌, ℕ, ◌+◌, ◌*◌, ◌/◌, ◌%◌, ◌≤◌, ◌<◌, ◌≡◌, refl, sym, ◌∙◌, ap,
  Bool, true, false, Option, some, arith, if◌then◌else◌,
}
use mathlib.Core.Path.{subst}
use kernel_on_qemu.Memory.{g_heap_max_block_size}
use kernel_on_qemu.Memory.Lists.{Buddy, order_index, push_node}
use kernel_on_qemu.Memory.Free.{
  merge_bnode, merge_bnode_nolimit, find_high, find_root, return_root, kfree,
}
use kernel_on_qemu.Memory.Tree.{Tree, size, view, IsBlock, view-push_node, order_index-size}
use kernel_on_qemu.Memory.Joins.{Becomes, coalesce, Becomes-trans, Becomes-same}
use kernel_on_qemu.Memory.Coalesce.{merge_bnode_nolimit_lem}
use kernel_on_qemu.Memory.Pages.{free_tree, is_start}
use kernel_on_qemu.Memory.Root.{IsRoot, find_root_lem}

Yields-if :
    {A : Type 0} (P : A → Type 0) (c : Bool) (o : Option A) (b : A)
    → Yields P o
    → P b
    → Yields P (if c then o else some b)
Yields-if P true o b h k = h
Yields-if P false o b h k = k

-- The end of the function: only the lists change.
view-return_root :
    (root high j : ℕ) (b : Buddy)
    → j < 9
    → (view b root).type ≡ size j
    → Yields (λ c. view c ≡ view b) (return_root root high b)
unfolding return_root
view-return_root root high j b lt e =
    Yields-if (λ c. view c ≡ view b) _ _ b
      (subst (λ o. Yields (λ c. view c ≡ view b) (o >>= λ index. some (push_node index root b)))
        (sym (ap (λ t. order_index 9 t 0) e ∙ order_index-size 9 j 0 lt))
        (view-push_node (0 + j) root b))
      refl

-- `kfree` of `n` pages from the `m`-th page of a largest block on, where a node starts there, ends;
-- the block's tree becomes the one where those pages are freed and free halves are joined, and nodes
-- outside it keep what they hold.
pub kfree_lem :
    (fuel p a m n : ℕ) (t : Tree) (b : Buddy)
    → 1 ≤ p
    → a % g_heap_max_block_size ≡ 0
    → m < size 5
    → find_high fuel b (b.lists 5) a ≡ some p
    → IsBlock (view b) 5 p a t
    → is_start 5 m t ≡ true
    → Yields (Becomes 5 p a (coalesce (free_tree 5 m n t)) b) (kfree fuel (a + 0x1000 * m) n b)
unfolding kfree
kfree_lem fuel p a m n t b pos whole lt high h s =
    let freed = free_tree 5 m n t in
    let Goal = Becomes 5 p a (coalesce freed) b in
    let at : (a + 0x1000 * m) / g_heap_max_block_size * g_heap_max_block_size ≡ a =
      omega (arith, whole) in
    let found : find_high fuel b (b.lists 5)
          ((a + 0x1000 * m) / g_heap_max_block_size * g_heap_max_block_size)
        ≡ some p =
      ap (find_high fuel b (b.lists 5)) at ∙ high in
    subst
      (λ o. Yields Goal (
        o >>= λ high. find_root 7 b high (a + 0x1000 * m) >>= λ root.
        merge_bnode 7 root n b >>= λ b.
        merge_bnode_nolimit 7 high b >>= λ b. return_root root high b))
      (sym found)
      (Yields-bind (IsRoot 5 p a m n t b) Goal _ _
        (find_root_lem 5 7 p a m n t b (omega arith) (omega arith) pos h s)
        (λ root (merged, (j, nine, type)).
          Yields-bind (Becomes 5 p a freed b) Goal _ _ merged (λ c hc.
            Yields-bind (Becomes 5 p a (coalesce freed) c) Goal _ _
              (merge_bnode_nolimit_lem 5 7 p a freed c (omega arith) (omega arith) hc.0)
              (λ d hd.
                Yields-map (λ e. view e ≡ view d) Goal _
                  (λ e he. Becomes-trans 5 p a (coalesce freed) b c e freed hc (
                    Becomes-trans 5 p a (coalesce freed) c d e (coalesce freed) hd
                      (Becomes-same 5 p a (coalesce freed) d e he hd.0)))
                  (view-return_root root p j d nine (hd.2 root ∙ hc.2 root ∙ type))))))
