-- ===== src/Memory/Taking.antt =====
-- Pages that are taken from a free block and given back, in the tree of a block of
-- source/kernel/memory.c.
use kernel_on_qemu.Prelude.{
  ℕ, zero, suc, ◌+◌, ◌-◌, ◌≤◌, ◌<◌, ◌≡◌, refl, sym, ◌∙◌, inl, inr, true, false, ◌==◌, ◌||◌, arith,
  ltb, Bool-cases, ltb→lt, ==_iff,
}
use mathlib.Core.Path.{subst}
use kernel_on_qemu.Memory.Tree.{Tree, Tree.free, Tree.used, Tree.node, size}
use kernel_on_qemu.Memory.Pages.{
  is_used, alloc_at, is_free_at, is_within, is_used-alloc_tree, and_left, and_right,
}

-- The block of a free place lies in the whole block, and its pages are not in use.
pub is_free_at_first : (k m j : ℕ) → is_free_at k m j free ≡ true → (m ≡ 0) × (j ≡ k)
is_free_at_first k m j f =
    ((==_iff m 0).0 (and_left (m == 0) _ f), (==_iff j k).0 (and_right (m == 0) _ f))

pub is_free_at_left :
    (k m j : ℕ) (l r : Tree)
    → ltb m (size k) ≡ true
    → is_free_at (suc k) m j (node l r) ≡ is_free_at k m j l
is_free_at_left k m j l r e = rw (is_free_at, e) refl

pub is_free_at_right :
    (k m j : ℕ) (l r : Tree)
    → ltb m (size k) ≡ false
    → is_free_at (suc k) m j (node l r) ≡ is_free_at k (m - size k) j r
is_free_at_right k m j l r e = rw (is_free_at, e) refl

pub alloc_at_left :
    (k m n : ℕ) (l r : Tree)
    → ltb m (size k) ≡ true
    → alloc_at (suc k) m n (node l r) ≡ node (alloc_at k m n l) r
alloc_at_left k m n l r e = rw (alloc_at, e) refl

pub alloc_at_right :
    (k m n : ℕ) (l r : Tree)
    → ltb m (size k) ≡ false
    → alloc_at (suc k) m n (node l r) ≡ node l (alloc_at k (m - size k) n r)
alloc_at_right k m n l r e = rw (alloc_at, e) refl

pub is_free_at_bound : (k m j : ℕ) (t : Tree) → is_free_at k m j t ≡ true → m + size j ≤ size k
is_free_at_bound k m j free f =
    let e = is_free_at_first k m j f in
    subst (λ j. m + size j ≤ size k) (sym e.1) (omega (arith, e.0))
is_free_at_bound k m j used f = ground arith
is_free_at_bound zero m j (node l r) f = ground arith
is_free_at_bound (suc k) m j (node l r) f = elim (Bool-cases (ltb m (size k))) [
  | inl in_left ↦
      omega (arith, is_free_at_bound k m j l (sym (is_free_at_left k m j l r in_left) ∙ f))
  | inr in_right ↦
      let ge : size k ≤ m = ground arith in
      omega (
        arith,
        is_free_at_bound k (m - size k) j r (sym (is_free_at_right k m j l r in_right) ∙ f),
        ge,
      )
]

-- Taking `n` pages of a free block puts them in use, and no other page.
pub is_used-alloc_at :
    (k m j n i : ℕ) (t : Tree)
    → is_free_at k m j t ≡ true
    → 1 ≤ n
    → n ≤ size j
    → i < size k
    → is_used k (alloc_at k m n t) i ≡ (is_used k t i || is_within m n i)
is_used-alloc_at k m j n i free f lo hi lt =
    let e = is_free_at_first k m j f in
    is_used-alloc_tree k n i lo (subst (λ j. n ≤ size j) e.1 hi) lt ∙ ground (arith, e.0)
is_used-alloc_at k m j n i used f lo hi lt = refl
is_used-alloc_at zero m j n i (node l r) f lo hi lt = ground arith
is_used-alloc_at (suc k) m j n i (node l r) f lo hi lt =
    let Goal : Tree → Type 0 =
      λ t. is_used (suc k) t i ≡ (is_used (suc k) (node l r) i || is_within m n i) in
    elim (Bool-cases (ltb m (size k))) [
      | inl in_left ↦
          let f1 = sym (is_free_at_left k m j l r in_left) ∙ f in
          let bound = is_free_at_bound k m j l f1 in
          subst Goal (sym (alloc_at_left k m n l r in_left)) (elim (Bool-cases (ltb i (size k))) [
            | inl left ↦
                ground (arith, is_used-alloc_at k m j n i l f1 lo hi (ltb→lt i (size k) left))
            | inr right ↦ ground (arith, bound)
          ])
      | inr in_right ↦
          let f1 = sym (is_free_at_right k m j l r in_right) ∙ f in
          let ge_m : size k ≤ m = ground arith in
          subst Goal (sym (alloc_at_right k m n l r in_right)) (elim (Bool-cases (ltb i (size k))) [
            | inl left ↦ ground (arith, ge_m)
            | inr right ↦
                let ge : size k ≤ i = ground arith in
                ground (
                  arith,
                  is_used-alloc_at k (m - size k) j n (i - size k) r f1 lo hi (omega (arith, ge)),
                  ge_m,
                )
          ])
    ]

-- The pages of a free place are not in use.
pub is_free_at_unused :
    (k m j i : ℕ) (t : Tree)
    → is_free_at k m j t ≡ true
    → is_within m (size j) i ≡ true
    → is_used k t i ≡ false
is_free_at_unused k m j i free f w = refl
is_free_at_unused k m j i used f w = ground arith
is_free_at_unused zero m j i (node l r) f w = refl
is_free_at_unused (suc k) m j i (node l r) f w = elim (Bool-cases (ltb m (size k))) [
  | inl in_left ↦
      let f1 = sym (is_free_at_left k m j l r in_left) ∙ f in
      ground (arith, is_free_at_bound k m j l f1, is_free_at_unused k m j i l f1 w)
  | inr in_right ↦
      let ge_m : size k ≤ m = ground arith in
      let w1 : is_within (m - size k) (size j) (i - size k) ≡ true = ground (arith, ge_m) in
      ground (
        arith,
        is_free_at_unused k (m - size k) j (i - size k) r
            (sym (is_free_at_right k m j l r in_right) ∙ f) w1,
        ge_m,
      )
]
