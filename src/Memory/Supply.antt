-- ===== src/Memory/Supply.antt =====
-- `kalloc` of source/kernel/memory.c as an operation on the tree of a largest block.
use kernel_on_qemu.Prelude.{
  Yields, Yields-map, ℕ, zero, suc, ◌+◌, ◌-◌, ◌*◌, ◌≤◌, ◌<◌, ◌≡◌, refl, sym, ◌∙◌, ap, inl, inr,
  true, false, Option, none, some, ◌==◌, arith, ltb, Bool-cases,
}
use mathlib.Core.Path.{subst}
use mathlib.Core.Bool.{false≢true}
use kernel_on_qemu.Memory.Lists.{Buddy, pop_node}
use kernel_on_qemu.Memory.Alloc.{choose_block, take_block, split, kalloc, split_block, with_address}
use kernel_on_qemu.Memory.Free.{set_status}
use kernel_on_qemu.Memory.Tree.{
  Tree, Tree.free, Tree.used, Tree.node, size, View, view, leaf, IsBlock, Frame, size_positive,
  IsBlock-same, view-pop_node, view-else, update, update-same, update-other, view-set_status,
}
use kernel_on_qemu.Memory.Split.{IsSplit, split_lem, alloc_tree}
use kernel_on_qemu.Memory.Steps.{IsTaken}
use kernel_on_qemu.Memory.Joins.{left_leaf, right_leaf, IsBlock-address}
use kernel_on_qemu.Memory.Pages.{alloc_at, is_free_at}
use kernel_on_qemu.Memory.Taking.{
  alloc_at_left, alloc_at_right, is_free_at_first, is_free_at_left, is_free_at_right,
}
use kernel_on_qemu.Memory.Choose.{leaf_space_loop_lem}

-- The node of the block at the `m`-th page.
abbrev pub node_at : (k p m : ℕ) → Tree → ℕ
node_at k p m free = p
node_at k p m used = p
node_at zero p m (node l r) = p
node_at (suc k) p m (node l r) = elim (ltb m (size k)) [
  | true ↦ node_at k (left_leaf p) m l
  | false ↦ node_at k (right_leaf k p) (m - size k) r
]

pub node_at_left :
    (k p m : ℕ) (l r : Tree)
    → ltb m (size k) ≡ true
    → node_at (suc k) p m (node l r) ≡ node_at k (left_leaf p) m l
node_at_left k p m l r e = rw (node_at, e) refl

pub node_at_right :
    (k p m : ℕ) (l r : Tree)
    → ltb m (size k) ≡ false
    → node_at (suc k) p m (node l r) ≡ node_at k (right_leaf k p) (m - size k) r
node_at_right k p m l r e = rw (node_at, e) refl

-- The tree for a free block with another in its place.
abbrev Replaced : (k p a m j n : ℕ) → Tree → (v w : View) → (q x : ℕ) → Type 0
Replaced k p a m j n t v w q x =
    (v q ≡ leaf j x 1)
    × (IsBlock w j q x (alloc_tree j n)
        → Frame j q v w
        → IsBlock w k p a (alloc_at k m n t) × Frame k p v w)

Replaced-left :
    (k p a m j n : ℕ) (l r : Tree) (v w : View) (q x : ℕ)
    → ltb m (size k) ≡ true
    → IsBlock v (suc k) p a (node l r)
    → Replaced k (left_leaf p) a m j n l v w q x
    → Replaced (suc k) p a m j n (node l r) v w q x
Replaced-left k p a m j n l r v w q x in_left (c, hl, hr) (e, f) = (
  e,
  λ h frame.
      let g = f h frame in
      (
        subst (IsBlock w (suc k) p a) (sym (alloc_at_left k m n l r in_left)) (
          g.1 p (inl (omega arith)) ∙ c,
          g.0,
          IsBlock-same v w k (right_leaf k p) (a + 0x1000 * size k) r
              (λ y lo hi. g.1 y (inr (omega (arith, size_positive k)))) hr,
        ),
        λ y o. g.1 y (ground (arith, size_positive k)),
      ),
)

Replaced-right :
    (k p a m j n : ℕ) (l r : Tree) (v w : View) (q x : ℕ)
    → ltb m (size k) ≡ false
    → IsBlock v (suc k) p a (node l r)
    → Replaced k (right_leaf k p) (a + 0x1000 * size k) (m - size k) j n r v w q x
    → Replaced (suc k) p a m j n (node l r) v w q x
Replaced-right k p a m j n l r v w q x in_right (c, hl, hr) (e, f) = (
  e,
  λ h frame.
      let g = f h frame in
      (
        subst (IsBlock w (suc k) p a) (sym (alloc_at_right k m n l r in_right)) (
          g.1 p (inl (omega (arith, size_positive k))) ∙ c,
          IsBlock-same v w k (left_leaf p) a l
              (λ y lo hi. g.1 y (inl (omega (arith, size_positive k)))) hl,
          g.0,
        ),
        λ y o. g.1 y (ground (arith, size_positive k)),
      ),
)

replaced :
    (k p a m j n : ℕ) (t : Tree) (v w : View)
    → IsBlock v k p a t
    → is_free_at k m j t ≡ true
    → Replaced k p a m j n t v w (node_at k p m t) (a + 0x1000 * m)
replaced k p a m j n free v w h f =
    let e = is_free_at_first k m j f in
    let ea : a + 0x1000 * m ≡ a = omega (arith, e.0) in
    subst (λ x. Replaced k p a m j n free v w p x) (sym ea)
      (subst (λ j. Replaced k p a m j n free v w p a) (sym e.1) (h, λ g frame. (g, frame)))
replaced k p a m j n used v w h f = absurd (false≢true f)
replaced zero p a m j n (node l r) v w h f = absurd h
replaced (suc k) p a m j n (node l r) v w h f =
    let Goal : ℕ → ℕ → Type 0 = Replaced (suc k) p a m j n (node l r) v w in
    elim (Bool-cases (ltb m (size k))) [
      | inl in_left ↦
          subst (λ q. Goal q (a + 0x1000 * m)) (sym (node_at_left k p m l r in_left))
            (Replaced-left k p a m j n l r v w _ _ in_left h (
              replaced k (left_leaf p) a m j n l v w h.1
                (sym (is_free_at_left k m j l r in_left) ∙ f)))
      | inr in_right ↦
          let ge : size k ≤ m = ground arith in
          let shift : a + 0x1000 * size k + 0x1000 * (m - size k) ≡ a + 0x1000 * m =
            omega (arith, ge) in
          subst (λ q. Goal q (a + 0x1000 * m)) (sym (node_at_right k p m l r in_right))
            (subst (Goal (node_at k (right_leaf k p) (m - size k) r)) shift (
              Replaced-right k p a m j n l r v w _ _ in_right h (
                replaced k (right_leaf k p) (a + 0x1000 * size k) (m - size k) j n r v w h.2
                  (sym (is_free_at_right k m j l r in_right) ∙ f))))
    ]

-- Taking the block marks its node, and changes nothing else of the tree.
view-take_block :
    (i level q : ℕ) (b : Buddy)
    → view (take_block i level q b) ≡ update (view b) q (record (view b q) { status = 0 })
unfolding take_block set_status
view-take_block i level q b =
    view-else (level == 0x20) (set_status q 0 b) (pop_node i q (set_status q 0 b))
      (set_status q 0 b) refl (view-pop_node i q (set_status q 0 b))
    ∙ view-set_status q 0 b

Yields-with_address :
    (q : ℕ) (P : Buddy → Type 0) (Q : ℕ × Buddy → Type 0) (o : Option Buddy)
    → ((c : Buddy) → P c → Q ((c.store q).address, c))
    → Yields P o
    → Yields Q (with_address q o)
Yields-with_address q P Q none f h = h
Yields-with_address q P Q (some c) f h = f c h

abbrev IsSupplied : (j q x n : ℕ) → (b : Buddy) → (r : ℕ × Buddy) → Type 0
IsSupplied j q x n b r =
    (r.0 ≡ x) × IsBlock (view r.1) j q x (alloc_tree j n) × Frame j q (view b) (view r.1)

-- A free block is taken and split.
split_block_lem :
    (j q x n i : ℕ) (b : Buddy)
    → j < 31
    → 1 ≤ n
    → n ≤ size j
    → view b q ≡ leaf j x 1
    → Yields (IsSupplied j q x n b) (split_block n b (some (i, size j, q)))
split_block_lem j q x n i b lt lo hi e =
    let b1 = take_block i (size j) q b in
    let v1 = view-take_block i (size j) q b in
    let n1 = ap (λ v. v q) v1 ∙ update-same (view b) q _ in
    let taken : IsTaken (view b1) j q x = (
      ap (λ f. f.type) n1 ∙ ap (λ f. f.type) e,
      ap (λ f. f.status) n1,
      ap (λ f. f.address) n1 ∙ ap (λ f. f.address) e,
    ) in
    let space : 0 + (size j - 1) ≡ size j - 1 = omega arith in
    let Goal : ℕ × Buddy → Type 0 = IsSupplied j q x n b in
    subst (λ s. Yields Goal (with_address q (split 33 q n (size j) s i b1)))
      (sym (leaf_space_loop_lem j 33 0 (omega arith) ∙ space))
      (Yields-with_address q (IsSplit j q x n b1) Goal (split 33 q n (size j) (size j - 1) i b1)
        (λ c (block, frame). (
          IsBlock-address (view c) j q x (alloc_tree j n) block,
          block,
          λ y o.
              frame y o
              ∙ ap (λ v. v y) v1
              ∙ update-other (view b) q y _ (ground (arith, size_positive j)),
        ))
        (split_lem j 33 q x n i b1 (omega arith) lo hi taken))

-- What `kalloc` does to the tree: the pages start at the block, they are the first `n` of it, and
-- nodes outside the largest block keep what they hold.
abbrev pub Takes : (p a m n : ℕ) → Tree → (b : Buddy) → (r : ℕ × Buddy) → Type 0
Takes p a m n t b r =
    (r.0 ≡ a + 0x1000 * m)
    × IsBlock (view r.1) 5 p a (alloc_at 5 m n t)
    × Frame 5 p (view b) (view r.1)

-- `kalloc` of `n` pages, where the block that is chosen is a free one of order `j` at the `m`-th page
-- of a largest block, ends; it returns the address of that page, the block's tree becomes the one
-- where the `n` pages from there on are taken, and nodes outside it keep what they hold.
pub kalloc_lem :
    (fuel p a m j n i : ℕ) (t : Tree) (b : Buddy)
    → 1 ≤ n
    → n ≤ size j
    → j ≤ 5
    → IsBlock (view b) 5 p a t
    → is_free_at 5 m j t ≡ true
    → choose_block fuel n b ≡ some (i, size j, node_at 5 p m t)
    → Yields (Takes p a m n t b) (kalloc fuel n b)
unfolding kalloc
kalloc_lem fuel p a m j n i t b lo hi le h f chosen =
    let q = node_at 5 p m t in
    subst (λ o. Yields (Takes p a m n t b) (split_block n b o)) (sym chosen)
      (Yields-map (IsSupplied j q (a + 0x1000 * m) n b) (Takes p a m n t b) _
        (λ r (address, block, frame).
          let g = (replaced 5 p a m j n t (view b) (view r.1) h f).1 block frame in
          (address, g.0, g.1))
        (split_block_lem j q (a + 0x1000 * m) n i b (omega (arith, le)) lo hi
          (replaced 5 p a m j n t (view b) (view b) h f).0))
