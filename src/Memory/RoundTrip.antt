-- ===== src/Memory/RoundTrip.antt =====
-- Pages that are taken and given back, in the tree of a block of source/kernel/memory.c.
use kernel_on_qemu.Prelude.{
  ℕ, zero, suc, ◌-◌, ◌≤◌, ◌<◌, ◌≡◌, refl, sym, ◌∙◌, ap, inl, inr, true, ◌==◌, ◌&&◌, not, arith, ltb,
  Bool-cases, ==_iff,
}
use mathlib.Core.Path.{subst}
use kernel_on_qemu.Memory.Tree.{Tree, Tree.free, Tree.used, Tree.node, size, size_positive}
use kernel_on_qemu.Memory.Split.{
  alloc_tree_left, alloc_tree_right, alloc_tree_whole, compare_cases, alloc_tree,
}
use kernel_on_qemu.Memory.Joins.{coalesce}
use kernel_on_qemu.Memory.Pages.{
  is_used, alloc_at, is_free_at, is_within, fits, fits_at, free_tree, is_start, is_used-coalesce,
}
use kernel_on_qemu.Memory.Freed.{fits_at_first, fits_at_left, fits_at_right, is_used-free_tree}
use kernel_on_qemu.Memory.Taking.{
  alloc_at_left, alloc_at_right, is_free_at_first, is_free_at_left, is_free_at_right,
  is_free_at_bound, is_used-alloc_at, is_free_at_unused,
}

fits-alloc_tree : (k n : ℕ) → 1 ≤ n → n ≤ size k → fits k n (alloc_tree k n) ≡ true
fits-alloc_tree zero n lo hi = ground arith
fits-alloc_tree (suc k) n lo hi =
    let Goal : Tree → Type 0 = λ t. fits (suc k) n t ≡ true in
    elim (compare_cases n (size k) (size (suc k))) [
      | inl le ↦
          subst Goal (sym (alloc_tree_left k n lo le)) (ground (arith, fits-alloc_tree k n lo le))
      | inr (inl (gt, less)) ↦
          subst Goal (sym (alloc_tree_right k n gt less))
            (ground (arith, fits-alloc_tree k (n - size k) (omega arith) (omega arith)))
      | inr (inr ge) ↦ subst Goal (sym (alloc_tree_whole (suc k) n (omega arith))) (ground arith)
    ]

-- Pages that were taken from the start of a tree are whole blocks.
fits-alloc_at :
    (k m j n : ℕ) (t : Tree)
    → m ≡ 0
    → is_free_at k m j t ≡ true
    → 1 ≤ n
    → n ≤ size j
    → fits k n (alloc_at k m n t) ≡ true
fits-alloc_at k m j n free e f lo hi =
    fits-alloc_tree k n lo (subst (λ j. n ≤ size j) (is_free_at_first k m j f).1 hi)
fits-alloc_at k m j n used e f lo hi = ground arith
fits-alloc_at zero m j n (node l r) e f lo hi = ground arith
fits-alloc_at (suc k) m j n (node l r) e f lo hi =
    let in_left : ltb m (size k) ≡ true = ground (arith, e, size_positive k) in
    let f1 = sym (is_free_at_left k m j l r in_left) ∙ f in
    let bound = is_free_at_bound k m j l f1 in
    subst (λ t. fits (suc k) n t ≡ true) (sym (alloc_at_left k m n l r in_left))
      (ground (arith, fits-alloc_at k m j n l e f1 lo hi, bound))

fits_at-start : (k m n : ℕ) (t : Tree) → m ≡ 0 → fits k n t ≡ true → fits_at k m n t ≡ true
fits_at-start k m n free e f = refl
fits_at-start k m n used e f = ground arith
fits_at-start zero m n (node l r) e f = f
fits_at-start (suc k) m n (node l r) e f = fits_at_first k m n l r (ground arith) ∙ f

pub fits_at-alloc_at :
    (k m j n : ℕ) (t : Tree)
    → is_free_at k m j t ≡ true
    → 1 ≤ n
    → n ≤ size j
    → fits_at k m n (alloc_at k m n t) ≡ true
fits_at-alloc_at k m j n free f lo hi =
    let e = (is_free_at_first k m j f).0 in
    fits_at-start k m n (alloc_tree k n) e (fits-alloc_at k m j n free e f lo hi)
fits_at-alloc_at k m j n used f lo hi = ground arith
fits_at-alloc_at zero m j n (node l r) f lo hi = ground arith
fits_at-alloc_at (suc k) m j n (node l r) f lo hi =
    let whole = alloc_at (suc k) m n (node l r) in
    let Goal : Tree → Type 0 = λ t. fits_at (suc k) m n t ≡ true in
    elim (Bool-cases (m == 0)) [
      | inl first ↦
          let e = (==_iff m 0).0 first in
          fits_at-start (suc k) m n whole e (fits-alloc_at (suc k) m j n (node l r) e f lo hi)
      | inr later ↦ elim (Bool-cases (ltb m (size k))) [
        | inl in_left ↦
            let f1 = sym (is_free_at_left k m j l r in_left) ∙ f in
            let bound = is_free_at_bound k m j l f1 in
            subst Goal (sym (alloc_at_left k m n l r in_left)) (
              fits_at_left k m n (alloc_at k m n l) r later in_left
              ∙ ground (arith, fits_at-alloc_at k m j n l f1 lo hi, bound))
        | inr in_right ↦
            let f1 = sym (is_free_at_right k m j l r in_right) ∙ f in
            subst Goal (sym (alloc_at_right k m n l r in_right)) (
              fits_at_right k m n l (alloc_at k (m - size k) n r) later in_right
              ∙ fits_at-alloc_at k (m - size k) j n r f1 lo hi)
      ]
    ]

start_zero : (k m : ℕ) (t : Tree) → m ≡ 0 → is_start k m t ≡ true
start_zero k m free e = ground arith
start_zero k m used e = ground arith
start_zero zero m (node l r) e = ground arith
start_zero (suc k) m (node l r) e =
    let e0 : (m == 0) ≡ true = ground arith in rw (is_start, e0) refl

-- A node starts where pages were taken.
pub is_start-alloc_at :
    (k m j n : ℕ) (t : Tree) → is_free_at k m j t ≡ true → is_start k m (alloc_at k m n t) ≡ true
is_start-alloc_at k m j n free f = start_zero k m (alloc_tree k n) (is_free_at_first k m j f).0
is_start-alloc_at k m j n used f = ground arith
is_start-alloc_at zero m j n (node l r) f = ground arith
is_start-alloc_at (suc k) m j n (node l r) f =
    let Goal : Tree → Type 0 = λ t. is_start (suc k) m t ≡ true in
    elim (Bool-cases (m == 0)) [
      | inl first ↦ start_zero (suc k) m _ ((==_iff m 0).0 first)
      | inr later ↦ elim (Bool-cases (ltb m (size k))) [
        | inl in_left ↦ subst Goal (sym (alloc_at_left k m n l r in_left)) (
            rw (is_start, later, in_left)
              (is_start-alloc_at k m j n l (sym (is_free_at_left k m j l r in_left) ∙ f)))
        | inr in_right ↦ subst Goal (sym (alloc_at_right k m n l r in_right)) (
            rw (is_start, later, in_right)
              (is_start-alloc_at k (m - size k) j n r
                (sym (is_free_at_right k m j l r in_right) ∙ f)))
      ]
    ]

-- Pages that are taken from a free block and given back leave every page in or out of use as it
-- was.
pub taken_and_freed :
    (k m j n i : ℕ) (t : Tree)
    → is_free_at k m j t ≡ true
    → 1 ≤ n
    → n ≤ size j
    → i < size k
    → is_used k (coalesce (free_tree k m n (alloc_at k m n t))) i ≡ is_used k t i
taken_and_freed k m j n i t f lo hi lt =
    is_used-coalesce k i (free_tree k m n (alloc_at k m n t))
    ∙ is_used-free_tree k m n i (alloc_at k m n t) (fits_at-alloc_at k m j n t f lo hi) lt
    ∙ ap (λ b. b && not (is_within m n i)) (is_used-alloc_at k m j n i t f lo hi lt)
    ∙ elim (Bool-cases (is_within m n i)) [
      | inl inside ↦
          let w : is_within m (size j) i ≡ true = ground arith in
          ground (arith, is_free_at_unused k m j i t f w)
      | inr outside ↦ ground (arith, outside)
    ]
