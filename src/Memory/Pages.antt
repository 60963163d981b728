-- ===== src/Memory/Pages.antt =====
-- Which pages the tree of a block of source/kernel/memory.c has in use.
use kernel_on_qemu.Prelude.{
  ℕ, zero, suc, ◌+◌, ◌-◌, ◌≤◌, ◌<◌, ◌≡◌, refl, sym, ◌∙◌, inl, inr, Bool, true, false, ◌==◌, ◌&&◌,
  arith, ltb, leb, Bool-cases, ltb→lt,
}
use mathlib.Core.Path.{subst}
use kernel_on_qemu.Memory.Tree.{Tree, Tree.free, Tree.used, Tree.node, size}
use kernel_on_qemu.Memory.Split.{
  alloc_tree_whole, alloc_tree_left, alloc_tree_right, compare_cases, alloc_tree,
}
use kernel_on_qemu.Memory.Joins.{join, merge_tree, coalesce}

-- Is the `i`-th page of a block of order `k` in use?
abbrev pub is_used : (k : ℕ) → Tree → (i : ℕ) → Bool
is_used k free i = false
is_used k used i = true
is_used zero (node l r) i = false
is_used (suc k) (node l r) i = elim (ltb i (size k)) [
  | true ↦ is_used k l i
  | false ↦ is_used k r (i - size k)
]

-- No block in use begins before the `n`-th page and ends after it.
abbrev pub fits : (k n : ℕ) → Tree → Bool
fits k n free = true
fits k n used = leb (size k) n
fits zero n (node l r) = false
fits (suc k) n (node l r) =
    fits k n l && (elim (ltb (size k) n) [ true ↦ fits k (n - size k) r | false ↦ true ])

-- Frees `n` pages from the `m`-th on, from the first node that starts there.
abbrev pub free_tree : (k m n : ℕ) → Tree → Tree
free_tree k m n free = free
free_tree k m n used = elim (m == 0) [ true ↦ free | false ↦ used ]
free_tree zero m n (node l r) = node l r
free_tree (suc k) m n (node l r) = elim (m == 0) [
  | true ↦ merge_tree (suc k) n (node l r)
  | false ↦ elim (ltb m (size k)) [
    | true ↦ node (free_tree k m n l) r
    | false ↦ node l (free_tree k (m - size k) n r)
  ]
]

-- A node starts at the `m`-th page.
abbrev pub is_start : (k m : ℕ) → Tree → Bool
is_start k m free = m == 0
is_start k m used = m == 0
is_start zero m (node l r) = m == 0
is_start (suc k) m (node l r) = elim (m == 0) [
  | true ↦ true
  | false ↦ elim (ltb m (size k)) [ true ↦ is_start k m l | false ↦ is_start k (m - size k) r ]
]

-- The `n` pages from the `m`-th on are whole blocks below the first node that starts there.
abbrev pub fits_at : (k m n : ℕ) → Tree → Bool
fits_at k m n free = true
fits_at k m n used = leb (size k) n && (m == 0)
fits_at zero m n (node l r) = false
fits_at (suc k) m n (node l r) = elim (m == 0) [
  | true ↦ fits (suc k) n (node l r)
  | false ↦ elim (ltb m (size k)) [
    | true ↦ leb (m + n) (size k) && fits_at k m n l
    | false ↦ fits_at k (m - size k) n r
  ]
]

-- `n` pages are taken from the free block at the `m`-th page.
abbrev pub alloc_at : (k m n : ℕ) → Tree → Tree
alloc_at k m n free = alloc_tree k n
alloc_at k m n used = used
alloc_at zero m n (node l r) = node l r
alloc_at (suc k) m n (node l r) = elim (ltb m (size k)) [
  | true ↦ node (alloc_at k m n l) r
  | false ↦ node l (alloc_at k (m - size k) n r)
]

-- A free block of order `j` is at the `m`-th page.
abbrev pub is_free_at : (k m j : ℕ) → Tree → Bool
is_free_at k m j free = m == 0 && j == k
is_free_at k m j used = false
is_free_at zero m j (node l r) = false
is_free_at (suc k) m j (node l r) = elim (ltb m (size k)) [
  | true ↦ is_free_at k m j l
  | false ↦ is_free_at k (m - size k) j r
]

abbrev pub is_within : (m n i : ℕ) → Bool
is_within m n i = leb m i && ltb i (m + n)

-- The tree for `n` pages has the first `n` pages in use and no other.
pub is_used-alloc_tree :
    (k n i : ℕ) → 1 ≤ n → n ≤ size k → i < size k → is_used k (alloc_tree k n) i ≡ ltb i n
is_used-alloc_tree zero n i lo hi lt = ground arith
is_used-alloc_tree (suc k) n i lo hi lt = elim (compare_cases n (size k) (size (suc k))) [
  | inl le ↦
      subst (λ t. is_used (suc k) t i ≡ ltb i n) (sym (alloc_tree_left k n lo le))
        (elim (Bool-cases (ltb i (size k))) [
          | inl in_left ↦ ground (arith, is_used-alloc_tree k n i lo le (ltb→lt i (size k) in_left))
          | inr in_right ↦ ground arith
        ])
  | inr (inl (gt, less)) ↦
      subst (λ t. is_used (suc k) t i ≡ ltb i n) (sym (alloc_tree_right k n gt less))
        (elim (Bool-cases (ltb i (size k))) [
          | inl in_left ↦ ground arith
          | inr in_right ↦
              let ge : size k ≤ i = ground arith in
              ground (
                arith,
                is_used-alloc_tree k (n - size k) (i - size k) (omega arith) (omega arith)
                    (omega (arith, ge)),
              )
        ])
  | inr (inr ge) ↦
      subst (λ t. is_used (suc k) t i ≡ ltb i n) (sym (alloc_tree_whole (suc k) n (omega arith)))
        (ground arith)
]

-- Joining free halves changes no page.
pub join_used : (k i : ℕ) (l r : Tree) → is_used (suc k) (join l r) i ≡ is_used (suc k) (node l r) i
join_used k i free free = ground arith
join_used k i free used = refl
join_used k i free (node r s) = refl
join_used k i used r = refl
join_used k i (node l m) r = refl

join_none : (i : ℕ) (l r : Tree) → is_used zero (join l r) i ≡ false
join_none i free free = refl
join_none i free used = refl
join_none i free (node r s) = refl
join_none i used r = refl
join_none i (node l m) r = refl

pub is_used-coalesce : (k i : ℕ) (t : Tree) → is_used k (coalesce t) i ≡ is_used k t i
is_used-coalesce k i free = refl
is_used-coalesce k i used = refl
is_used-coalesce zero i (node l r) = join_none i (coalesce l) (coalesce r)
is_used-coalesce (suc k) i (node l r) =
    join_used k i (coalesce l) (coalesce r)
    ∙ ground (arith, is_used-coalesce k i l, is_used-coalesce k (i - size k) r)

pub and_left : (x y : Bool) → (x && y) ≡ true → x ≡ true
and_left true y h = refl
and_left false y h = h

pub and_right : (x y : Bool) → (x && y) ≡ true → y ≡ true
and_right true y h = h
and_right false true h = refl
and_right false false h = h
