-- ===== src/Memory/Coalesce.antt =====
-- `merge_bnode_nolimit` of source/kernel/memory.c as an operation on the tree.
use kernel_on_qemu.Prelude.{
  Yields, Yields-map, Yields-bind, ◌>>=◌, ℕ, zero, suc, ◌+◌, ◌*◌, ◌<◌, ◌≡◌, refl, sym, ◌∙◌, ap, ◌⊎◌,
  inl, Bool, true, false, Option, some, ◌&&◌, arith, if◌then◌else◌,
}
use mathlib.Core.Path.{subst}
use kernel_on_qemu.Memory.Lists.{Buddy, unlink_node}
use kernel_on_qemu.Memory.Free.{
  set_status, has_leaves, both_unallocated, leaf_index, join_nodes, merge_bnode_nolimit,
}
use kernel_on_qemu.Memory.Tree.{
  Tree, Tree.free, Tree.used, Tree.node, size, view, IsBlock, size_positive, view-unlink_node,
  update-same, update-other, view-set_status,
}
use kernel_on_qemu.Memory.Merge.{has_leaves-leaf, has_leaves_node, leaf_index_lem}
use kernel_on_qemu.Memory.Joins.{
  Becomes, coalesce, join, is_free, left_leaf, right_leaf, both_unallocated_lem, view-set_free,
  Becomes-trans, Becomes-left, Becomes-right, Becomes-same,
}

set_status-other : (p s q : ℕ) (b : Buddy) → q < p ⊎ p < q → view (set_status p s b) q ≡ view b q
set_status-other p s q b h = ap (λ v. v q) (view-set_status p s b) ∙ update-other (view b) p q _ h

set_status-type : (p s q : ℕ) (b : Buddy) → (view (set_status p s b) q).type ≡ (view b q).type
set_status-type p s q b = ap (λ v. (v q).type) (view-set_status p s b) ∙ ground arith

join_nodes_lem :
    (k p a index : ℕ) (l r : Tree) (b : Buddy)
    → IsBlock (view b) (suc k) p a (node l r)
    → Becomes (suc k) p a free b (join_nodes p index b)
unfolding join_nodes
join_nodes_lem k p a index l r b h =
    let left = (b.store p).leaf_left in
    let right = (b.store p).leaf_right in
    let el : left ≡ left_leaf p = ap (λ f. f.leaf_left) h.0 in
    let er : right ≡ right_leaf k p = ap (λ f. f.leaf_right) h.0 in
    let b1 = unlink_node index right (unlink_node index left b) in
    let v1 : view b1 ≡ view b =
      view-unlink_node index right (unlink_node index left b) ∙ view-unlink_node index left b in
    let b2 = set_status left 2 b1 in
    let b3 = set_status right 2 b2 in
    let other : (q : ℕ) → q < left ⊎ left < q → q < right ⊎ right < q → view b3 q ≡ view b q =
      λ q x y.
        set_status-other right 2 q b2 y ∙ set_status-other left 2 q b1 x ∙ ap (λ v. v q) v1 in
    let types : (q : ℕ) → (view b3 q).type ≡ (view b q).type =
      λ q. set_status-type right 2 q b2 ∙ set_status-type left 2 q b1 ∙ ap (λ v. (v q).type) v1 in
    let n3 = other p (inl (omega (arith, el))) (inl (omega (arith, er, size_positive k))) ∙ h.0 in
    let v4 = view-set_free (suc k) p a b3 (ap (λ f. f.type) n3) (ap (λ f. f.address) n3) in
    (
      ap (λ v. v p) v4 ∙ update-same (view b3) p _,
      (λ q o.
          ap (λ v. v q) v4
          ∙ update-other (view b3) p q _ (ground (arith, size_positive k))
          ∙ other q (ground (arith, el, size_positive k)) (ground (arith, er, size_positive k))),
      (λ q. ap (λ v. (v q).type) v4 ∙ ground (arith, types q, ap (λ f. f.type) h.0)),
    )

nolimit_leaf :
    (fuel p : ℕ) (b : Buddy)
    → has_leaves (b.store p) ≡ false
    → merge_bnode_nolimit (suc fuel) p b ≡ some b
unfolding merge_bnode_nolimit
nolimit_leaf fuel p b e = rw (merge_bnode_nolimit, e) refl

-- The end of the function, after both halves.
abbrev nolimit_end : (p : ℕ) → Buddy → Option Buddy
nolimit_end p b = elim (both_unallocated p b) [
  | false ↦ some b
  | true ↦ leaf_index p b >>= λ index. some (join_nodes p index b)
]

nolimit_node :
    (fuel p : ℕ) (b : Buddy)
    → has_leaves (b.store p) ≡ true
    → merge_bnode_nolimit (suc fuel) p b ≡ (
        merge_bnode_nolimit fuel (b.store p).leaf_left b >>= λ b.
        merge_bnode_nolimit fuel (b.store p).leaf_right b >>= λ b. nolimit_end p b)
unfolding merge_bnode_nolimit
nolimit_node fuel p b e = rw (merge_bnode_nolimit, e) refl

nolimit_choice :
    (k p a : ℕ) (l r : Tree) (c : Buddy) (x : Bool)
    → IsBlock (view c) (suc k) p a (node l r)
    → k < 9
    → Yields
        (Becomes (suc k) p a (if x then free else node l r) c)
        (elim x [ false ↦ some c | true ↦ leaf_index p c >>= λ index. some (join_nodes p index c) ])
nolimit_choice k p a l r c true h lt =
    subst (λ o. Yields (Becomes (suc k) p a free c) (o >>= λ index. some (join_nodes p index c)))
      (sym (leaf_index_lem k p a l r c lt h)) (join_nodes_lem k p a k l r c h)
nolimit_choice k p a l r c false h lt = Becomes-same (suc k) p a (node l r) c c refl h

nolimit_end_lem :
    (k p a : ℕ) (l r : Tree) (b c : Buddy)
    → k < 9
    → Becomes (suc k) p a (node l r) b c
    → Yields (Becomes (suc k) p a (join l r) b) (nolimit_end p c)
nolimit_end_lem k p a l r b c lt h =
    Yields-map _ _ _ (λ d. Becomes-trans (suc k) p a (join l r) b c d (node l r) h)
      (subst
        (λ x. Yields (Becomes (suc k) p a (join l r) c) (elim x [
          | false ↦ some c
          | true ↦ leaf_index p c >>= λ index. some (join_nodes p index c)
        ]))
        (sym (both_unallocated_lem k p a l r c h.0))
        (nolimit_choice k p a l r c (is_free l && is_free r) h.0 lt))

-- Joining the free halves of a block ends, and leaves the tree that `coalesce` says; nodes outside
-- it keep what they hold, and all keep their type.
pub merge_bnode_nolimit_lem :
    (k fuel p a : ℕ) (t : Tree) (b : Buddy)
    → k < fuel
    → k < 9
    → IsBlock (view b) k p a t
    → Yields (Becomes k p a (coalesce t) b) (merge_bnode_nolimit fuel p b)
merge_bnode_nolimit_lem k zero p a t b lt nine h = absurd (omega arith)
merge_bnode_nolimit_lem k (suc fuel) p a free b lt nine h =
    subst (Yields (Becomes k p a free b))
      (sym (nolimit_leaf fuel p b (has_leaves-leaf k p a 1 b h)))
      (Becomes-same k p a free b b refl h)
merge_bnode_nolimit_lem k (suc fuel) p a used b lt nine h =
    subst (Yields (Becomes k p a used b))
      (sym (nolimit_leaf fuel p b (has_leaves-leaf k p a 0 b h)))
      (Becomes-same k p a used b b refl h)
merge_bnode_nolimit_lem zero (suc fuel) p a (node l r) b lt nine h = absurd h
merge_bnode_nolimit_lem (suc k) (suc fuel) p a (node l r) b lt nine h =
    let l1 = coalesce l in
    let r1 = coalesce r in
    subst (Yields (Becomes (suc k) p a (join l1 r1) b))
      (sym (nolimit_node fuel p b (has_leaves_node k p a b h.0)))
      (Yields-bind (Becomes (suc k) p a (node l1 r) b) (Becomes (suc k) p a (join l1 r1) b)
        (merge_bnode_nolimit fuel (b.store p).leaf_left b) _
        (subst (λ q. Yields (Becomes (suc k) p a (node l1 r) b) (merge_bnode_nolimit fuel q b))
          (sym (ap (λ f. f.leaf_left) h.0))
          (Yields-map _ _ _ (λ c. Becomes-left k p a l r l1 b c h)
            (merge_bnode_nolimit_lem k fuel (left_leaf p) a l b (omega arith) (omega arith) h.1)))
        (λ c hc.
          Yields-bind (Becomes (suc k) p a (node l1 r1) b) (Becomes (suc k) p a (join l1 r1) b)
            (merge_bnode_nolimit fuel (c.store p).leaf_right c) _
            (subst (λ q. Yields (Becomes (suc k) p a (node l1 r1) b) (merge_bnode_nolimit fuel q c))
              (sym (ap (λ f. f.leaf_right) hc.0.0))
              (Yields-map _ _ _
                (λ d hd.
                  Becomes-trans (suc k) p a (node l1 r1) b c d (node l1 r) hc
                    (Becomes-right k p a l1 r r1 c d hc.0 hd))
                (merge_bnode_nolimit_lem k fuel (right_leaf k p) (a + 0x1000 * size k) r c
                  (omega arith) (omega arith) hc.0.2)))
            (λ d hd. nolimit_end_lem k p a l1 r1 b d (omega arith) hd)))
