-- ===== src/Memory/Steps.antt =====
-- One round of the loop that splits a block in `kalloc` of source/kernel/memory.c.
use kernel_on_qemu.Prelude.{
  ℕ, suc, ◌+◌, ◌-◌, ◌*◌, ◌/◌, ◌≤◌, ◌<◌, ◌≡◌, refl, ◌∙◌, ap, inl, true, false, some, ◌==◌, arith,
  if◌then◌else◌, ltb,
}
use kernel_on_qemu.Memory.{null}
use kernel_on_qemu.Memory.Lists.{Buddy, push_node}
use kernel_on_qemu.Memory.Alloc.{set_leaves, init_bnode, init_leaves, split}
use kernel_on_qemu.Memory.Tree.{
  size, Fields, View, view, leaf, Frame, size_positive, update, view-set_leaves, view-init_bnode,
  update-same, update-other,
}

-- A node with its two leaves.
abbrev pub branch : (k p a : ℕ) → Fields
branch k p a = record {
  type = size (suc k);
  status = 0;
  address = a;
  leaf_left = p + 24;
  leaf_right = p + 24 * size (suc k);
}

abbrev pub split_view : (k p a status : ℕ) → View → View
split_view k p a status v =
    update (update (update v p (branch k p a)) (p + 24) (leaf k a 0)) (p + 24 * size (suc k))
      (leaf k (a + 0x1000 * size k) status)

-- The node that is split: allocated, of order `k`.
abbrev pub IsTaken : View → (k p a : ℕ) → Type 0
IsTaken v k p a = ((v p).type ≡ size k) × ((v p).status ≡ 0) × ((v p).address ≡ a)

abbrev pub with_leaves : (k p status : ℕ) → Buddy → Buddy
with_leaves k p status b =
    init_leaves p (p + 24) (p + 24 * size (suc k)) status
      (set_leaves p (p + 24) (p + 24 * size (suc k)) b)

pub split_done : (fuel p i s x : ℕ) (b : Buddy) → split (suc fuel) p 0 i s x b ≡ some b
unfolding split
split_done fuel p i s x b = refl

-- The four branches of the loop.
module _ (fuel p n i x index : ℕ) (b : Buddy) where
  abbrev leaves : (status : ℕ) → Buddy
  leaves status =
      init_leaves p (p + 24) (p + 24 + x * 24) status (set_leaves p (p + 24) (p + 24 + x * 24) b)

  pub branch_whole :
      (n == 0) ≡ false
      → (n == i) ≡ true
      → split (suc fuel) p n i x index b
        ≡ split fuel p 0
            (i / 2)
            (x / 2)
            (index - 1)
            (set_leaves p null null (set_leaves p (p + 24) (p + 24 + x * 24) b))
  unfolding split
  branch_whole e0 e1 = rw (split, e0, e1) refl

  branch_right :
      (n == 0) ≡ false
      → (n == i) ≡ false
      → ltb (i / 2) n ≡ true
      → split (suc fuel) p n i x index b
        ≡ split fuel (p + 24 + x * 24) (n - i / 2) (i / 2) (x / 2) (index - 1) (leaves 0)
  unfolding split
  branch_right e0 e1 e2 = rw (split, e0, e1, e2) refl

  branch_left :
      (n == 0) ≡ false
      → (n == i) ≡ false
      → ltb (i / 2) n ≡ false
      → split (suc fuel) p n i x index b
        ≡ split fuel
            (p + 24)
            (if n == i / 2 then 0 else n)
            (i / 2)
            (x / 2)
            (index - 1)
            (push_node (index - 1) (p + 24 + x * 24) (leaves 1))
  unfolding split
  branch_left e0 e1 e2 = rw (split, e0, e1, e2) refl

pub halves : (k : ℕ) → size (suc k) / 2 ≡ size k
halves k = omega arith

space_halves : (k : ℕ) → (size (suc k) - 1) / 2 ≡ size k - 1
space_halves k = omega (arith, size_positive k)

pub right_leaf : (k p : ℕ) → p + 24 + (size (suc k) - 1) * 24 ≡ p + 24 * size (suc k)
right_leaf k p = omega (arith, size_positive k)

-- The same for a block of order `k + 1`.
module _ (fuel k p n index : ℕ) (b : Buddy) where
  pub split_right :
      size k < n
      → n < size (suc k)
      → split (suc fuel) p n (size (suc k)) (size (suc k) - 1) index b
        ≡ split fuel
            (p + 24 * size (suc k))
            (n - size k)
            (size k)
            (size k - 1)
            (index - 1)
            (with_leaves k p 0 b)
  split_right lo hi =
      branch_right fuel p n (size (suc k)) (size (suc k) - 1) index b (ground arith) (ground arith)
        (ground (arith, halves k))
      ∙ cc (halves k, space_halves k, right_leaf k p)

  pub split_left :
      1 ≤ n
      → n ≤ size k
      → split (suc fuel) p n (size (suc k)) (size (suc k) - 1) index b
        ≡ split fuel
            (p + 24)
            (if n == size k then 0 else n)
            (size k)
            (size k - 1)
            (index - 1)
            (push_node (index - 1) (p + 24 * size (suc k)) (with_leaves k p 1 b))
  split_left lo hi =
      branch_left fuel p n (size (suc k)) (size (suc k) - 1) index b (ground arith)
        (ground (arith, size_positive k)) (ground (arith, halves k))
      ∙ cc (halves k, space_halves k, right_leaf k p)

pub view-init_leaves :
    (k p a status : ℕ) (b : Buddy)
    → IsTaken (view b) (suc k) p a
    → view (with_leaves k p status b) ≡ split_view k p a status (view b)
unfolding init_leaves
view-init_leaves k p a status b (t, s, e) =
    let l = p + 24 in
    let r = p + 24 * size (suc k) in
    let b1 = set_leaves p l r b in
    let b2 = init_bnode l 0 ((b1.store p).type / 2) 0 (b1.store p).address null null null null b1 in
    let at = branch k p a in
    let e1 : view b1 ≡ update (view b) p at =
      view-set_leaves p l r b ∙ ap (update (view b) p) (rw (t, s, e) refl) in
    let n1 : view b1 p ≡ at = ap (λ v. v p) e1 ∙ update-same (view b) p at in
    let t1 : (b1.store p).type / 2 ≡ size k = ap (λ f. f.type / 2) n1 ∙ halves k in
    let e2 : view b2 ≡ update (update (view b) p at) l (leaf k a 0) =
      view-init_bnode l 0 _ 0 _ null null null null b1 ∙ (λ i. update (e1 i) l (record {
        type = t1 i;
        status = 0;
        address = (n1 i).address;
        leaf_left = null;
        leaf_right = null;
      })) in
    let n2 : view b2 p ≡ at =
      ap (λ v. v p) e2
      ∙ update-other (update (view b) p at) l p (leaf k a 0) (inl (omega arith))
      ∙ update-same (view b) p at in
    let t2 : (b2.store p).type / 2 ≡ size k = ap (λ f. f.type / 2) n2 ∙ halves k in
    let a2 : (b2.store p).address + (b2.store p).type * 0x1000 / 2 ≡ a + 0x1000 * size k =
      ap (λ f. f.address + f.type * 0x1000 / 2) n2 ∙ omega arith in
    view-init_bnode r status _ 1 _ null null null null b2 ∙ (λ i. update (e2 i) r (record {
      type = t2 i;
      status = status;
      address = a2 i;
      leaf_left = null;
      leaf_right = null;
    }))

-- What is found at the nodes after a split.
module _ (k p a status : ℕ) (v : View) where
  pub split_view-node : split_view k p a status v p ≡ branch k p a
  split_view-node = ground (arith, size_positive k)

  pub split_view-left : split_view k p a status v (p + 24) ≡ leaf k a 0
  split_view-left = ground (arith, size_positive k)

  pub split_view-right :
      split_view k p a status v (p + 24 * size (suc k)) ≡ leaf k (a + 0x1000 * size k) status
  split_view-right = ground (arith, size_positive k)

  pub split_view-outside : Frame (suc k) p v (split_view k p a status v)
  split_view-outside q h = ground (arith, size_positive k)
