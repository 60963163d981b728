-- ===== src/Memory/Freed.antt =====
-- The pages in use after a part of the tree of a block of source/kernel/memory.c is freed.
use kernel_on_qemu.Prelude.{
  ℕ, zero, suc, ◌+◌, ◌-◌, ◌≤◌, ◌<◌, ◌≡◌, refl, sym, ◌∙◌, ap, inl, inr, true, false, ◌==◌, ◌&&◌, not,
  arith, ltb, leb, Bool-cases, ltb→lt, ==_iff,
}
use mathlib.Core.Path.{subst}
use kernel_on_qemu.Memory.Tree.{Tree, Tree.free, Tree.used, Tree.node, size}
use kernel_on_qemu.Memory.Joins.{merge_tree}
use kernel_on_qemu.Memory.Pages.{
  join_used, is_used, fits, free_tree, is_start, fits_at, is_within, and_left, and_right,
}

-- Freeing the first `n` pages takes them out of use, and no other page.
is_used-merge_tree :
    (k n i : ℕ) (t : Tree)
    → fits k n t ≡ true
    → i < size k
    → is_used k (merge_tree k n t) i ≡ (is_used k t i && not (ltb i n))
is_used-merge_tree k n i free f lt = refl
is_used-merge_tree k n i used f lt = ground arith
is_used-merge_tree zero n i (node l r) f lt = refl
is_used-merge_tree (suc k) n i (node l r) f lt =
    join_used k i _ _ ∙ elim (Bool-cases (ltb i (size k))) [
      | inl in_left ↦ ground (
        arith,
        is_used-merge_tree k n i l (and_left (fits k n l) _ f) (ltb→lt i (size k) in_left),
      )
      | inr in_right ↦
          let ge : size k ≤ i = ground arith in
          elim (Bool-cases (ltb (size k) n)) [
            | inl both ↦ ground (
              arith,
              is_used-merge_tree k (n - size k) (i - size k) r
                  (ground (arith, and_right (fits k n l) _ f)) (omega (arith, ge)),
            )
            | inr one ↦ ground arith
          ]
    ]

module _ (k m n : ℕ) (l r : Tree) where
  pub free_tree_first :
      (m == 0) ≡ true → free_tree (suc k) m n (node l r) ≡ merge_tree (suc k) n (node l r)
  free_tree_first e = rw (free_tree, e) refl

  pub free_tree_left :
      (m == 0) ≡ false
      → ltb m (size k) ≡ true
      → free_tree (suc k) m n (node l r) ≡ node (free_tree k m n l) r
  free_tree_left e e2 = rw (free_tree, e, e2) refl

  pub free_tree_right :
      (m == 0) ≡ false
      → ltb m (size k) ≡ false
      → free_tree (suc k) m n (node l r) ≡ node l (free_tree k (m - size k) n r)
  free_tree_right e e2 = rw (free_tree, e, e2) refl

  pub fits_at_first : (m == 0) ≡ true → fits_at (suc k) m n (node l r) ≡ fits (suc k) n (node l r)
  fits_at_first e = rw (fits_at, e) refl

  pub fits_at_left :
      (m == 0) ≡ false
      → ltb m (size k) ≡ true
      → fits_at (suc k) m n (node l r) ≡ (leb (m + n) (size k) && fits_at k m n l)
  fits_at_left e e2 = rw (fits_at, e, e2) refl

  pub fits_at_right :
      (m == 0) ≡ false
      → ltb m (size k) ≡ false
      → fits_at (suc k) m n (node l r) ≡ fits_at k (m - size k) n r
  fits_at_right e e2 = rw (fits_at, e, e2) refl

module _ (k m : ℕ) (l r : Tree) where
  pub is_start_left :
      (m == 0) ≡ false → ltb m (size k) ≡ true → is_start (suc k) m (node l r) ≡ is_start k m l
  is_start_left e e2 = rw (is_start, e, e2) refl

  pub is_start_right :
      (m == 0) ≡ false
      → ltb m (size k) ≡ false
      → is_start (suc k) m (node l r) ≡ is_start k (m - size k) r
  is_start_right e e2 = rw (is_start, e, e2) refl

-- The same from the `m`-th page on.
pub is_used-free_tree :
    (k m n i : ℕ) (t : Tree)
    → fits_at k m n t ≡ true
    → i < size k
    → is_used k (free_tree k m n t) i ≡ (is_used k t i && not (is_within m n i))
is_used-free_tree k m n i free f lt = refl
is_used-free_tree k m n i used f lt = ground arith
is_used-free_tree zero m n i (node l r) f lt = refl
is_used-free_tree (suc k) m n i (node l r) f lt =
    let Goal : Tree → Type 0 =
      λ t. is_used (suc k) t i ≡ (is_used (suc k) (node l r) i && not (is_within m n i)) in
    elim (Bool-cases (m == 0)) [
      | inl first ↦
          let e : m ≡ 0 = (==_iff m 0).0 first in
          subst Goal (sym (free_tree_first k m n l r first)) (
            is_used-merge_tree (suc k) n i (node l r) (sym (fits_at_first k m n l r first) ∙ f) lt
            ∙ ap (λ b. is_used (suc k) (node l r) i && not b) (ground (arith, e)))
      | inr later ↦ elim (Bool-cases (ltb m (size k))) [
        | inl in_left ↦
            let f1 = sym (fits_at_left k m n l r later in_left) ∙ f in
            let small : leb (m + n) (size k) ≡ true = and_left _ (fits_at k m n l) f1 in
            subst Goal (sym (free_tree_left k m n l r later in_left))
              (elim (Bool-cases (ltb i (size k))) [
                | inl left ↦ ground (
                  arith,
                  is_used-free_tree k m n i l (and_right _ (fits_at k m n l) f1)
                      (ltb→lt i (size k) left),
                )
                | inr right ↦ ground (arith, small)
              ])
        | inr in_right ↦
            let ge_m : size k ≤ m = ground arith in
            subst Goal (sym (free_tree_right k m n l r later in_right))
              (elim (Bool-cases (ltb i (size k))) [
                | inl left ↦ ground (arith, ge_m)
                | inr right ↦
                    let ge : size k ≤ i = ground arith in
                    ground (
                      arith,
                      is_used-free_tree k (m - size k) n (i - size k) r
                          (sym (fits_at_right k m n l r later in_right) ∙ f) (omega (arith, ge)),
                      ge_m,
                    )
              ])
      ]
    ]
