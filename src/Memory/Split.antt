-- ===== src/Memory/Split.antt =====
-- What `kalloc` of source/kernel/memory.c makes of the block that it takes.
use kernel_on_qemu.Prelude.{
  Yields, Yields-map, ℕ, zero, suc, ◌+◌, ◌-◌, ◌*◌, ◌/◌, ◌≤◌, ◌<◌, ◌≡◌, refl, sym, ◌∙◌, ap, ◌⊎◌, inl,
  inr, true, false, ◌==◌, arith, if◌then◌else◌, ltb, Bool-cases, ==_iff,
}
use mathlib.Core.Path.{subst}
use kernel_on_qemu.Memory.{null}
use kernel_on_qemu.Memory.Lists.{Buddy, push_node}
use kernel_on_qemu.Memory.Alloc.{set_leaves, split}
use kernel_on_qemu.Memory.Tree.{
  Tree, Tree.free, Tree.used, Tree.node, size, View, view, leaf, IsBlock, IsOutside, Frame,
  size_positive, view-push_node, view-set_leaves, update-same, update-other,
}
use kernel_on_qemu.Memory.Steps.{
  split_view, IsTaken, with_leaves, split_done, branch_whole, split_right, split_left,
  view-init_leaves, split_view-node, split_view-left, split_view-right, split_view-outside,
}

-- The tree for `n` pages at the start of a block of order `k`.
abbrev pub alloc_tree : (k n : ℕ) → Tree
alloc_tree zero n = used
alloc_tree (suc k) n = elim (n == size (suc k)) [
  | true ↦ used
  | false ↦ elim (ltb (size k) n) [
    | true ↦ node used (alloc_tree k (n - size k))
    | false ↦ node (alloc_tree k n) free
  ]
]

-- The nodes of `b` after the split of a block of order `k` at `p` for `n` pages.
abbrev pub IsSplit : (k p a n : ℕ) → (b r : Buddy) → Type 0
IsSplit k p a n b r = IsBlock (view r) k p a (alloc_tree k n) × Frame k p (view b) (view r)

pub alloc_tree_whole : (k n : ℕ) → n ≡ size k → alloc_tree k n ≡ used
alloc_tree_whole zero n e = refl
alloc_tree_whole (suc k) n e = ground arith

pub alloc_tree_right :
    (k n : ℕ)
    → size k < n
    → n < size (suc k)
    → alloc_tree (suc k) n ≡ node used (alloc_tree k (n - size k))
alloc_tree_right k n lo hi =
    let e1 : (n == size (suc k)) ≡ false = ground arith in
    let e2 : ltb (size k) n ≡ true = ground arith in rw (alloc_tree, e1, e2) refl

pub alloc_tree_left :
    (k n : ℕ) → 1 ≤ n → n ≤ size k → alloc_tree (suc k) n ≡ node (alloc_tree k n) free
alloc_tree_left k n lo hi =
    let e1 : (n == size (suc k)) ≡ false = ground arith in
    let e2 : ltb (size k) n ≡ false = ground arith in rw (alloc_tree, e1, e2) refl

-- A split in two whose right half was split on.
IsSplit-right :
    (k p a n : ℕ) (b b1 r : Buddy)
    → view b1 ≡ split_view k p a 0 (view b)
    → size k < n
    → n < size (suc k)
    → IsSplit k (p + 24 * size (suc k)) (a + 0x1000 * size k) (n - size k) b1 r
    → IsSplit (suc k) p a n b r
IsSplit-right k p a n b b1 r e lo hi (block, frame) =
    let at : (q : ℕ)
        → IsOutside k (p + 24 * size (suc k)) q
        → view r q ≡ split_view k p a 0 (view b) q =
      λ q o. frame q o ∙ ap (λ v. v q) e in
    (
      subst (IsBlock (view r) (suc k) p a) (sym (alloc_tree_right k n lo hi)) (
        at p (inl (omega (arith, size_positive k))) ∙ split_view-node k p a 0 (view b),
        at (p + 24) (inl (omega (arith, size_positive k))) ∙ split_view-left k p a 0 (view b),
        block,
      ),
      λ q o. at q (ground (arith, size_positive k)) ∙ split_view-outside k p a 0 (view b) q o,
    )

IsSplit-left :
    (k p a n : ℕ) (b b1 r : Buddy)
    → view b1 ≡ split_view k p a 1 (view b)
    → 1 ≤ n
    → n ≤ size k
    → IsSplit k (p + 24) a n b1 r
    → IsSplit (suc k) p a n b r
IsSplit-left k p a n b b1 r e lo hi (block, frame) =
    let at : (q : ℕ) → IsOutside k (p + 24) q → view r q ≡ split_view k p a 1 (view b) q =
      λ q o. frame q o ∙ ap (λ v. v q) e in
    (
      subst (IsBlock (view r) (suc k) p a) (sym (alloc_tree_left k n lo hi)) (
        at p (inl (omega arith)) ∙ split_view-node k p a 1 (view b),
        block,
        at (p + 24 * size (suc k)) (inr (omega (arith, size_positive k)))
            ∙ split_view-right k p a 1 (view b),
      ),
      λ q o. at q (ground (arith, size_positive k)) ∙ split_view-outside k p a 1 (view b) q o,
    )

IsTaken-leaf : (v : View) (k p a : ℕ) → v p ≡ leaf k a 0 → IsTaken v k p a
IsTaken-leaf v k p a e = (ap (λ f. f.type) e, ap (λ f. f.status) e, ap (λ f. f.address) e)

split_whole :
    (fuel k p a n index : ℕ) (b : Buddy)
    → 1 ≤ n
    → n ≡ size k
    → IsTaken (view b) k p a
    → Yields (IsSplit k p a n b) (split (suc (suc fuel)) p n (size k) (size k - 1) index b)
split_whole fuel k p a n index b lo e (t, s, d) =
    let b1 = set_leaves p (p + 24) (p + 24 + (size k - 1) * 24) b in
    let v1 = view-set_leaves p (p + 24) (p + 24 + (size k - 1) * 24) b in
    let v2 = view-set_leaves p null null b1 in
    let n1 = ap (λ v. v p) v1 ∙ update-same (view b) p _ in
    let b2 = set_leaves p null null b1 in
    let n2 : view b2 p ≡ leaf k a 0 = ap (λ v. v p) v2 ∙ update-same (view b1) p _ ∙ (λ i. record {
      type = ((ap (λ f. f.type) n1 ∙ t) i);
      status = ((ap (λ f. f.status) n1 ∙ s) i);
      address = ((ap (λ f. f.address) n1 ∙ d) i);
      leaf_left = null;
      leaf_right = null;
    }) in
    let eq =
      branch_whole (suc fuel) p n (size k) (size k - 1) index b (ground arith) (ground arith)
      ∙ split_done fuel p (size k / 2) ((size k - 1) / 2) (index - 1) (set_leaves p null null b1) in
    subst (Yields (IsSplit k p a n b)) (sym eq) (
      subst (IsBlock (view b2) k p a) (sym (alloc_tree_whole k n e)) n2,
      λ q o.
          ap (λ v. v q) v2
          ∙ update-other (view b1) p q _ (ground (arith, size_positive k))
          ∙ ap (λ v. v q) v1
          ∙ update-other (view b) p q _ (ground (arith, size_positive k)),
    )

split_rest_done :
    (fuel k p a n index : ℕ) (b : Buddy)
    → (n == size k) ≡ true
    → n ≡ size k
    → view b p ≡ leaf k a 0
    → Yields
        (IsSplit k p a n b)
        (split (suc fuel) p (if n == size k then 0 else n) (size k) (size k - 1) index b)
split_rest_done fuel k p a n index b same e l =
    let block = subst (IsBlock (view b) k p a) (sym (alloc_tree_whole k n e)) l in
    subst
      (λ c.
        Yields (IsSplit k p a n b)
          (split (suc fuel) p (if c then 0 else n) (size k) (size k - 1) index b))
      (sym same)
      (subst (Yields (IsSplit k p a n b)) (sym (split_done fuel p (size k) (size k - 1) index b))
        (block, λ q o. refl))

pub compare_cases : (n x y : ℕ) → (n ≤ x) ⊎ ((x < n) × (n < y)) ⊎ (y ≤ n)
compare_cases n x y = ground arith

-- Splitting a free block of order `k` for `n` pages ends, and leaves the tree for `n` pages; nodes
-- outside it keep what they hold.
pub split_lem :
    (k fuel p a n index : ℕ) (b : Buddy)
    → k + 2 ≤ fuel
    → 1 ≤ n
    → n ≤ size k
    → IsTaken (view b) k p a
    → Yields (IsSplit k p a n b) (split fuel p n (size k) (size k - 1) index b)
split_lem k zero p a n index b f lo hi t = absurd (omega arith)
split_lem k (suc zero) p a n index b f lo hi t = absurd (omega arith)
split_lem zero (suc (suc fuel)) p a n index b f lo hi t =
    split_whole fuel zero p a n index b lo (omega arith) t
split_lem (suc k) (suc (suc fuel)) p a n index b f lo hi t =
    elim (compare_cases n (size k) (size (suc k))) [
      | inl le ↦
          let b1 = push_node (index - 1) (p + 24 * size (suc k)) (with_leaves k p 1 b) in
          let v1 : view b1 ≡ split_view k p a 1 (view b) =
            view-push_node (index - 1) (p + 24 * size (suc k)) (with_leaves k p 1 b)
            ∙ view-init_leaves k p a 1 b t in
          let l1 = ap (λ v. v (p + 24)) v1 ∙ split_view-left k p a 1 (view b) in
          subst (Yields (IsSplit (suc k) p a n b)) (sym (split_left (suc fuel) k p n index b lo le))
            (Yields-map _ _ _ (λ r. IsSplit-left k p a n b b1 r v1 lo le)
              (elim (Bool-cases (n == size k)) [
                | inl same ↦
                    split_rest_done fuel k (p + 24) a n (index - 1) b1 same
                      ((==_iff n (size k)).0 same) l1
                | inr other ↦
                    subst
                      (λ c. Yields (IsSplit k (p + 24) a n b1) (
                        split (suc fuel) (p + 24) (if c then 0 else n) (size k) (size k - 1)
                          (index - 1) b1))
                      (sym other)
                      (split_lem k (suc fuel) (p + 24) a n (index - 1) b1 (omega arith) lo le
                        (IsTaken-leaf (view b1) k (p + 24) a l1))
              ]))
      | inr (inl (lt, gt)) ↦
          let b1 = with_leaves k p 0 b in
          let v1 = view-init_leaves k p a 0 b t in
          let r1 = ap (λ v. v (p + 24 * size (suc k))) v1 ∙ split_view-right k p a 0 (view b) in
          subst (Yields (IsSplit (suc k) p a n b))
            (sym (split_right (suc fuel) k p n index b lt gt))
            (Yields-map _ _ _ (λ r. IsSplit-right k p a n b b1 r v1 lt gt)
              (split_lem k (suc fuel) (p + 24 * size (suc k)) (a + 0x1000 * size k) (n - size k)
                (index - 1) b1 (omega arith) (omega arith) (omega arith)
                (IsTaken-leaf (view b1) k (p + 24 * size (suc k)) (a + 0x1000 * size k) r1)))
      | inr (inr ge) ↦ split_whole fuel (suc k) p a n index b lo (omega arith) t
    ]
