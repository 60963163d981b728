-- ===== src/Memory/Merge.antt =====
-- `merge_bnode` and `merge_bnode_nolimit` of source/kernel/memory.c as operations on the tree.
use kernel_on_qemu.Prelude.{
  Yields, Yields-map, Yields-bind, ◌>>=◌, ℕ, zero, suc, ◌+◌, ◌-◌, ◌*◌, ◌/◌, ◌<◌, ◌≡◌, refl, sym,
  ◌∙◌, ap, Bool, true, false, Option, some, ◌==◌, ◌&&◌, not, arith, ltb,
}
use mathlib.Core.Path.{subst}
use kernel_on_qemu.Memory.{null}
use kernel_on_qemu.Memory.Lists.{Buddy, order_index}
use kernel_on_qemu.Memory.Free.{set_status, has_leaves, join_leaves, leaf_index, merge_bnode}
use kernel_on_qemu.Memory.Tree.{
  Tree, Tree.free, Tree.used, Tree.node, size, view, leaf, IsBlock, size_positive, update,
  view-set_status, order_index-size,
}
use kernel_on_qemu.Memory.Steps.{branch, halves}
use kernel_on_qemu.Memory.Joins.{
  join, merge_tree, Becomes, left_leaf, right_leaf, IsBlock-type, free_view-Becomes,
  join_leaves_lem, Becomes-trans, Becomes-left, Becomes-right,
}

pub has_leaves-leaf :
    (k p a s : ℕ) (b : Buddy) → view b p ≡ leaf k a s → has_leaves (b.store p) ≡ false
has_leaves-leaf k p a s b e = ap (λ f. not (f.leaf_left == null) && not (f.leaf_right == null)) e

pub has_leaves_node :
    (k p a : ℕ) (b : Buddy) → view b p ≡ branch k p a → has_leaves (b.store p) ≡ true
has_leaves_node k p a b e =
    ap (λ f. not (f.leaf_left == null) && not (f.leaf_right == null)) e
    ∙ ground (arith, size_positive k)

pub leaf_index_lem :
    (k p a : ℕ) (l r : Tree) (b : Buddy)
    → k < 9
    → IsBlock (view b) (suc k) p a (node l r)
    → leaf_index p b ≡ some k
leaf_index_lem k p a l r b lt (n, hl, hr) =
    ap (λ f. order_index 9 (view b f.leaf_left).type 0) n
    ∙ ap (λ t. order_index 9 t 0) (IsBlock-type (view b) k (left_leaf p) a l hl)
    ∙ order_index-size 9 k 0 lt
    ∙ ap some (omega arith)

set_status_lem :
    (k p a s : ℕ) (b : Buddy) → view b p ≡ leaf k a s → Becomes k p a free b (set_status p 1 b)
set_status_lem k p a s b e =
    free_view-Becomes k p a b (set_status p 1 b) (ap (λ f. f.type) e)
      (view-set_status p 1 b ∙ ap (update (view b) p) (λ i. record (e i) { status = 1 }))

merge_leaf :
    (fuel p n : ℕ) (b : Buddy)
    → has_leaves (b.store p) ≡ false
    → merge_bnode (suc fuel) p n b ≡ some (set_status p 1 b)
unfolding merge_bnode
merge_leaf fuel p n b e = rw (merge_bnode, e) refl

merge_node :
    (fuel p n : ℕ) (b : Buddy)
    → has_leaves (b.store p) ≡ true
    → merge_bnode (suc fuel) p n b ≡ (
        merge_bnode fuel (b.store p).leaf_left n b >>= λ b.
        (elim (ltb ((b.store p).type / 2) n) [
          | true ↦ merge_bnode fuel (b.store p).leaf_right (n - (b.store p).type / 2) b
          | false ↦ some b
        ])
        >>= λ b. leaf_index p b >>= λ index. some (join_leaves p index b))
unfolding merge_bnode
merge_node fuel p n b e = rw (merge_bnode, e) refl

-- The end of the function, after both halves.
join_end :
    (k p a : ℕ) (l r : Tree) (b c : Buddy)
    → k < 9
    → Becomes (suc k) p a (node l r) b c
    → Yields
        (Becomes (suc k) p a (join l r) b)
        (leaf_index p c >>= λ index. some (join_leaves p index c))
join_end k p a l r b c lt h =
    subst
      (λ o. Yields (Becomes (suc k) p a (join l r) b) (o >>= λ index. some (join_leaves p index c)))
      (sym (leaf_index_lem k p a l r c lt h.0))
      (Becomes-trans (suc k) p a (join l r) b c (join_leaves p k c) (node l r) h
        (join_leaves_lem k p a k l r c h.0))

-- The call for the right half.
abbrev right_call : (fuel n half right : ℕ) → Buddy → Option Buddy
right_call fuel n half right c = elim (ltb half n) [
  | true ↦ merge_bnode fuel right (n - half) c
  | false ↦ some c
]

right_call_lem :
    (k fuel p a n : ℕ) (l r : Tree) (c : Buddy)
    → IsBlock (view c) (suc k) p a (node l r)
    → right_call fuel n ((c.store p).type / 2) (c.store p).leaf_right c
      ≡ right_call fuel n (size k) (right_leaf k p) c
right_call_lem k fuel p a n l r c h =
    ap (λ f. right_call fuel n (f.type / 2) f.leaf_right c) h.0
    ∙ ap (λ x. right_call fuel n x (right_leaf k p) c) (halves k)

right_call-Becomes :
    (k fuel p a n : ℕ) (l r s : Tree) (b c : Buddy) (x : Bool)
    → Becomes (suc k) p a (node l r) b c
    → Yields
        (Becomes k (right_leaf k p) (a + 0x1000 * size k) s c)
        (merge_bnode fuel (right_leaf k p) (n - size k) c)
    → Yields
        (Becomes (suc k) p a (node l (elim x [ true ↦ s | false ↦ r ])) b)
        (elim x [ true ↦ merge_bnode fuel (right_leaf k p) (n - size k) c | false ↦ some c ])
right_call-Becomes k fuel p a n l r s b c true h y =
    Yields-map _ _ _
      (λ d hd.
        Becomes-trans (suc k) p a (node l s) b c d (node l r) h
          (Becomes-right k p a l r s c d h.0 hd))
      y
right_call-Becomes k fuel p a n l r s b c false h y = h

-- Freeing the first `n` pages of a block ends, and its tree is the one that `merge_tree` says;
-- nodes outside it keep what they hold, and all keep their type.
pub merge_bnode_lem :
    (k fuel p a n : ℕ) (t : Tree) (b : Buddy)
    → k < fuel
    → k < 9
    → IsBlock (view b) k p a t
    → Yields (Becomes k p a (merge_tree k n t) b) (merge_bnode fuel p n b)
merge_bnode_lem k zero p a n t b lt nine h = absurd (omega arith)
merge_bnode_lem k (suc fuel) p a n free b lt nine h =
    subst (Yields (Becomes k p a free b))
      (sym (merge_leaf fuel p n b (has_leaves-leaf k p a 1 b h))) (set_status_lem k p a 1 b h)
merge_bnode_lem k (suc fuel) p a n used b lt nine h =
    subst (Yields (Becomes k p a free b))
      (sym (merge_leaf fuel p n b (has_leaves-leaf k p a 0 b h))) (set_status_lem k p a 0 b h)
merge_bnode_lem zero (suc fuel) p a n (node l r) b lt nine h = absurd h
merge_bnode_lem (suc k) (suc fuel) p a n (node l r) b lt nine h =
    let l1 = merge_tree k n l in
    let r1 : Tree = elim (ltb (size k) n) [ true ↦ merge_tree k (n - size k) r | false ↦ r ] in
    subst (Yields (Becomes (suc k) p a (join l1 r1) b))
      (sym (merge_node fuel p n b (has_leaves_node k p a b h.0)))
      (Yields-bind (Becomes (suc k) p a (node l1 r) b) (Becomes (suc k) p a (join l1 r1) b)
        (merge_bnode fuel (b.store p).leaf_left n b) _
        (subst (λ q. Yields (Becomes (suc k) p a (node l1 r) b) (merge_bnode fuel q n b))
          (sym (ap (λ f. f.leaf_left) h.0))
          (Yields-map _ _ _ (λ c. Becomes-left k p a l r l1 b c h)
            (merge_bnode_lem k fuel (left_leaf p) a n l b (omega arith) (omega arith) h.1)))
        (λ c hc.
          Yields-bind (Becomes (suc k) p a (node l1 r1) b) (Becomes (suc k) p a (join l1 r1) b)
            (right_call fuel n ((c.store p).type / 2) (c.store p).leaf_right c) _
            (subst (Yields (Becomes (suc k) p a (node l1 r1) b))
              (sym (right_call_lem k fuel p a n l1 r c hc.0))
              (right_call-Becomes k fuel p a n l1 r (merge_tree k (n - size k) r) b c
                (ltb (size k) n) hc
                (merge_bnode_lem k fuel (right_leaf k p) (a + 0x1000 * size k) (n - size k) r c
                  (omega arith) (omega arith) hc.0.2)))
            (λ d hd. join_end k p a l1 r1 b d (omega arith) hd)))
