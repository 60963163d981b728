-- ===== src/Memory/Root.antt =====
-- The walk of `kfree` of source/kernel/memory.c to the first node of the pages, and what is merged
-- there.
use kernel_on_qemu.Prelude.{
  Yields, Yields-map, ℕ, zero, suc, ◌+◌, ◌-◌, ◌*◌, ◌≤◌, ◌<◌, ◌≡◌, refl, sym, ◌∙◌, ap, inl, inr,
  true, false, some, ◌==◌, arith, if◌then◌else◌, ltb, Bool-cases, ==_iff,
}
use mathlib.Core.Path.{subst}
use kernel_on_qemu.Memory.{null}
use kernel_on_qemu.Memory.Lists.{Buddy}
use kernel_on_qemu.Memory.Free.{merge_bnode, find_root}
use kernel_on_qemu.Memory.Tree.{Tree, Tree.free, Tree.used, Tree.node, size, view, IsBlock}
use kernel_on_qemu.Memory.Merge.{merge_bnode_lem}
use kernel_on_qemu.Memory.Joins.{
  Becomes, merge_tree, left_leaf, right_leaf, IsBlock-type, IsBlock-address, Becomes-left,
  Becomes-right,
}
use kernel_on_qemu.Memory.Pages.{free_tree, is_start}
use kernel_on_qemu.Memory.Freed.{
  free_tree_first, free_tree_left, free_tree_right, is_start_left, is_start_right,
}

module _ (fuel p address : ℕ) (b : Buddy) where
  find_root_here :
      1 ≤ p → ltb (b.store p).address address ≡ false → find_root (suc fuel) b p address ≡ some p
  unfolding find_root
  find_root_here pos e = let e0 : (p == null) ≡ false = ground arith in ground (arith, e0, e)

  find_root_down :
      1 ≤ p
      → ltb (b.store p).address address ≡ true
      → ((b.store p).leaf_right == null) ≡ false
      → find_root (suc fuel) b p address
        ≡ find_root fuel b
            (if ltb address (b.store (b.store p).leaf_right).address
              then (b.store p).leaf_left
              else (b.store p).leaf_right)
            address
  unfolding find_root
  find_root_down pos e e1 =
      let e0 : (p == null) ≡ false = ground arith in rw (find_root, e0, e1, e) refl

-- The step down from a node with leaves.
find_root_node :
    (fuel k p a m : ℕ) (l r : Tree) (b : Buddy)
    → 1 ≤ p
    → (m == 0) ≡ false
    → IsBlock (view b) (suc k) p a (node l r)
    → find_root (suc fuel) b p (a + 0x1000 * m)
      ≡ find_root fuel b (if ltb m (size k) then left_leaf p else right_leaf k p) (a + 0x1000 * m)
find_root_node fuel k p a m l r b pos later h =
    let address = a + 0x1000 * m in
    let ea : (b.store p).address ≡ a = ap (λ f. f.address) h.0 in
    let er : (b.store p).leaf_right ≡ right_leaf k p = ap (λ f. f.leaf_right) h.0 in
    let lt : ltb (b.store p).address address ≡ true = ground (arith, later, ea) in
    let ne : ((b.store p).leaf_right == null) ≡ false = ground (arith, er) in
    let test : ltb address (a + 0x1000 * size k) ≡ ltb m (size k) = ground arith in
    let ex : (view b (right_leaf k p)).address ≡ a + 0x1000 * size k =
      IsBlock-address (view b) k (right_leaf k p) (a + 0x1000 * size k) r h.2 in
    find_root_down fuel p address b pos lt ne
    ∙ ap
        (λ f.
          find_root fuel b
            (if ltb address (view b f.leaf_right).address then f.leaf_left else f.leaf_right)
            address)
        h.0
    ∙ ap (λ x. find_root fuel b (if ltb address x then left_leaf p else right_leaf k p) address) ex
    ∙ ap (λ c. find_root fuel b (if c then left_leaf p else right_leaf k p) address) test

-- Freeing from the node gives the tree, and its order has a list.
abbrev pub IsRoot : (k p a m n : ℕ) → Tree → Buddy → (root : ℕ) → Type 0
IsRoot k p a m n t b root =
    Yields (Becomes k p a (free_tree k m n t) b) (merge_bnode 7 root n b)
    × ((j : ℕ) × (j < 9) × ((view b root).type ≡ size j))

free_tree_start : (k m n : ℕ) (t : Tree) → m ≡ 0 → free_tree k m n t ≡ merge_tree k n t
free_tree_start k m n free e = refl
free_tree_start k m n used e = ground arith
free_tree_start zero m n (node l r) e = refl
free_tree_start (suc k) m n (node l r) e = free_tree_first k m n l r (ground arith)

find_root_start :
    (k fuel p a m n : ℕ) (t : Tree) (b : Buddy)
    → k < 7
    → 1 ≤ p
    → m ≡ 0
    → IsBlock (view b) k p a t
    → Yields (IsRoot k p a m n t b) (find_root (suc fuel) b p (a + 0x1000 * m))
find_root_start k fuel p a m n t b seven pos e h =
    let ea : (b.store p).address ≡ a = IsBlock-address (view b) k p a t h in
    subst (Yields (IsRoot k p a m n t b))
      (sym (find_root_here fuel p (a + 0x1000 * m) b pos (ground (arith, ea, e))))
      (
        subst (λ s. Yields (Becomes k p a s b) (merge_bnode 7 p n b))
            (sym (free_tree_start k m n t e)) (merge_bnode_lem k 7 p a n t b seven (omega arith) h),
        (k, omega arith, IsBlock-type (view b) k p a t h),
      )

IsRoot-left :
    (k p a m n : ℕ) (l r : Tree) (b : Buddy) (root : ℕ)
    → IsBlock (view b) (suc k) p a (node l r)
    → free_tree (suc k) m n (node l r) ≡ node (free_tree k m n l) r
    → IsRoot k (left_leaf p) a m n l b root
    → IsRoot (suc k) p a m n (node l r) b root
IsRoot-left k p a m n l r b root h f (x, y) = (
  subst (λ t. Yields (Becomes (suc k) p a t b) (merge_bnode 7 root n b)) (sym f)
      (Yields-map _ _ _ (λ c. Becomes-left k p a l r (free_tree k m n l) b c h) x),
  y,
)

IsRoot-right :
    (k p a m n : ℕ) (l r : Tree) (b : Buddy) (root : ℕ)
    → IsBlock (view b) (suc k) p a (node l r)
    → free_tree (suc k) m n (node l r) ≡ node l (free_tree k (m - size k) n r)
    → IsRoot k (right_leaf k p) (a + 0x1000 * size k) (m - size k) n r b root
    → IsRoot (suc k) p a m n (node l r) b root
IsRoot-right k p a m n l r b root h f (x, y) = (
  subst (λ t. Yields (Becomes (suc k) p a t b) (merge_bnode 7 root n b)) (sym f)
      (Yields-map _ _ _ (λ c. Becomes-right k p a l r (free_tree k (m - size k) n r) b c h) x),
  y,
)

-- The node that `kfree` frees from is found, and freeing from it gives the tree.
pub find_root_lem :
    (k fuel p a m n : ℕ) (t : Tree) (b : Buddy)
    → k < fuel
    → k < 7
    → 1 ≤ p
    → IsBlock (view b) k p a t
    → is_start k m t ≡ true
    → Yields (IsRoot k p a m n t b) (find_root fuel b p (a + 0x1000 * m))
find_root_lem k zero p a m n t b lt seven pos h s = absurd (omega arith)
find_root_lem k (suc fuel) p a m n free b lt seven pos h s =
    find_root_start k fuel p a m n free b seven pos ((==_iff m 0).0 s) h
find_root_lem k (suc fuel) p a m n used b lt seven pos h s =
    find_root_start k fuel p a m n used b seven pos ((==_iff m 0).0 s) h
find_root_lem zero (suc fuel) p a m n (node l r) b lt seven pos h s = absurd h
find_root_lem (suc k) (suc fuel) p a m n (node l r) b lt seven pos h s =
    let whole = node l r in
    let Found : ℕ → Type 0 =
      λ q. Yields (IsRoot (suc k) p a m n whole b) (find_root fuel b q (a + 0x1000 * m)) in
    elim (Bool-cases (m == 0)) [
      | inl first ↦ find_root_start (suc k) fuel p a m n whole b seven pos ((==_iff m 0).0 first) h
      | inr later ↦
          subst (Yields (IsRoot (suc k) p a m n whole b))
            (sym (find_root_node fuel k p a m l r b pos later h))
            (elim (Bool-cases (ltb m (size k))) [
              | inl in_left ↦
                  let s1 : is_start k m l ≡ true = sym (is_start_left k m l r later in_left) ∙ s in
                  let f1 = free_tree_left k m n l r later in_left in
                  subst (λ c. Found (if c then left_leaf p else right_leaf k p)) (sym in_left)
                    (Yields-map (IsRoot k (left_leaf p) a m n l b) (IsRoot (suc k) p a m n whole b)
                      _ (λ root. IsRoot-left k p a m n l r b root h f1)
                      (find_root_lem k fuel (left_leaf p) a m n l b (omega arith) (omega arith)
                        (omega arith) h.1 s1))
              | inr in_right ↦
                  let s1 : is_start k (m - size k) r ≡ true =
                    sym (is_start_right k m l r later in_right) ∙ s in
                  let f1 = free_tree_right k m n l r later in_right in
                  let ge : size k ≤ m = ground arith in
                  let shift : a + 0x1000 * size k + 0x1000 * (m - size k) ≡ a + 0x1000 * m =
                    omega (arith, ge) in
                  subst (λ c. Found (if c then left_leaf p else right_leaf k p)) (sym in_right)
                    (subst
                      (λ x.
                        Yields (IsRoot (suc k) p a m n whole b)
                          (find_root fuel b (right_leaf k p) x))
                      shift
                      (Yields-map
                        (IsRoot k (right_leaf k p) (a + 0x1000 * size k) (m - size k) n r b)
                        (IsRoot (suc k) p a m n whole b) _
                        (λ root. IsRoot-right k p a m n l r b root h f1)
                        (find_root_lem k fuel (right_leaf k p) (a + 0x1000 * size k) (m - size k) n
                          r b (omega arith) (omega arith) (omega arith) h.2 s1)))
            ])
    ]
