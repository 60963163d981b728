-- ===== src/Memory/Links.antt =====
-- `kalloc` of source/kernel/memory.c and the list of the largest blocks: what it does to the links.
use kernel_on_qemu.Prelude.{
  Option, none, some, OnSome, ℕ, zero, suc, ◌+◌, ◌-◌, ◌*◌, ◌≤◌, ◌<◌, ◌≡◌, ◌≢◌, refl, sym, ◌∙◌, ap,
  ◌⊎◌, inl, inr, true, false, ◌==◌, arith, ltb, Bool-cases, ==_iff,
}
use mathlib.Core.Path.{subst}
use mathlib.Core.Bool.{false≢true}
use kernel_on_qemu.Memory.{put}
use kernel_on_qemu.Memory.Lists.{Buddy, pop_node}
use kernel_on_qemu.Memory.Alloc.{choose_block, take_block, split, kalloc, split_block, with_address}
use kernel_on_qemu.Memory.Free.{set_status}
use kernel_on_qemu.Memory.Tree.{Tree, Tree.free, Tree.used, Tree.node, size, size_positive}
use kernel_on_qemu.Memory.Joins.{left_leaf, right_leaf}
use kernel_on_qemu.Memory.Pages.{is_free_at}
use kernel_on_qemu.Memory.Taking.{is_free_at_first, is_free_at_left, is_free_at_right}
use kernel_on_qemu.Memory.Choose.{leaf_space_loop_lem, size_bound}
use kernel_on_qemu.Memory.Levels.{TakesLevel, choose_block_level}
use kernel_on_qemu.Memory.Supply.{node_at, node_at_left, node_at_right}
use kernel_on_qemu.Memory.Kept.{next_of, NotBelow, Links, Links-then, split_keeps}

-- Where a node is: in the tree of the largest block, below its root unless it is the root.
abbrev IsPlace : (k p j q : ℕ) → Type 0
IsPlace k p j q =
    (p ≤ q) × (q + 24 * (2 * size j - 1) ≤ p + 24 * (2 * size k - 1)) × ((j ≡ k) ⊎ (p < q))

IsPlace-left : (k p j q : ℕ) → IsPlace k (left_leaf p) j q → IsPlace (suc k) p j q
IsPlace-left k p j q (lo, hi, root) =
    (omega (arith, lo), omega (arith, hi, size_positive k), inr (omega (arith, lo)))

IsPlace-right : (k p j q : ℕ) → IsPlace k (right_leaf k p) j q → IsPlace (suc k) p j q
IsPlace-right k p j q (lo, hi, root) = (
  omega (arith, lo),
  omega (arith, hi, size_positive k),
  inr (omega (arith, lo, size_positive k)),
)

node_at-IsPlace :
    (k p m j : ℕ) (t : Tree) → is_free_at k m j t ≡ true → IsPlace k p j (node_at k p m t)
node_at-IsPlace k p m j free f =
    let e = (is_free_at_first k m j f).1 in
    subst (λ j. IsPlace k p j p) (sym e) (omega arith, omega arith, inl refl)
node_at-IsPlace k p m j used f = absurd (false≢true f)
node_at-IsPlace zero p m j (node l r) f = absurd (false≢true f)
node_at-IsPlace (suc k) p m j (node l r) f = elim (Bool-cases (ltb m (size k))) [
  | inl in_left ↦ subst (IsPlace (suc k) p j) (sym (node_at_left k p m l r in_left)) (
      IsPlace-left k p j (node_at k (left_leaf p) m l)
        (node_at-IsPlace k (left_leaf p) m j l (sym (is_free_at_left k m j l r in_left) ∙ f)))
  | inr in_right ↦ subst (IsPlace (suc k) p j) (sym (node_at_right k p m l r in_right)) (
      IsPlace-right k p j (node_at k (right_leaf k p) (m - size k) r) (
        node_at-IsPlace k (right_leaf k p) (m - size k) j r
          (sym (is_free_at_right k m j l r in_right) ∙ f)))
]

next-pop_node : (i q y : ℕ) (b : Buddy) → y ≢ q → next_of (pop_node i q b) y ≡ next_of b y
unfolding pop_node put
next-pop_node i q y b ne = ground arith

lists-pop_node : (i q : ℕ) (b : Buddy) → i < 5 → (pop_node i q b).lists 5 ≡ b.lists 5
unfolding pop_node
lists-pop_node i q b lt = ground arith

next-set_status : (q s y : ℕ) (b : Buddy) → next_of (set_status q s b) y ≡ next_of b y
unfolding set_status put
next-set_status q s y b = ground arith

lists-set_status : (q s : ℕ) (b : Buddy) → (set_status q s b).lists 5 ≡ b.lists 5
unfolding set_status
lists-set_status q s b = refl

take_whole :
    (i level q : ℕ) (b : Buddy) → (level == 0x20) ≡ true → take_block i level q b ≡ set_status q 0 b
unfolding take_block set_status
take_whole i level q b e = rw (take_block, e) refl

take_part :
    (i level q : ℕ) (b : Buddy)
    → (level == 0x20) ≡ false
    → take_block i level q b ≡ pop_node i q (set_status q 0 b)
unfolding take_block set_status
take_part i level q b e = rw (take_block, e) refl

size_smaller : (i : ℕ) → i ≤ 5 → size i ≢ 0x20 → i < 5
size_smaller i le ne = elim (Bool-cases (i == 5)) [
  | inl last ↦ absurd (ne (ap size ((==_iff i 5).0 last)))
  | inr other ↦ ground arith
]

-- Taking a block keeps the links of the nodes that are not below the root.
take_block_keeps :
    (p i j q : ℕ) (b : Buddy)
    → i ≤ 5
    → size j ≡ size i
    → IsPlace 5 p j q
    → Links 5 p b (take_block i (size j) q b)
take_block_keeps p i j q b le e (lo, hi, root) = elim (Bool-cases (size j == 0x20)) [
  | inl whole ↦
      subst (Links 5 p b) (sym (take_whole i (size j) q b whole))
        (lists-set_status q 0 b, λ y o. next-set_status q 0 y b)
  | inr part ↦
      let ne : size j ≢ 0x20 = ground arith in
      let lt : i < 5 = size_smaller i le (λ s. ne (e ∙ s)) in
      let below : p < q = elim root [ inl top ↦ absurd (ne (ap size top)) | inr r ↦ r ] in
      subst (Links 5 p b) (sym (take_part i (size j) q b part)) (
        lists-pop_node i q (set_status q 0 b) lt ∙ lists-set_status q 0 b,
        λ y o.
            next-pop_node i q y (set_status q 0 b) (ground (arith, below, hi, size_positive j))
            ∙ next-set_status q 0 y b,
      )
]

OnSome-with_address :
    (q : ℕ) (P : Buddy → Type 0) (o : Option Buddy)
    → OnSome P o
    → OnSome (λ r. P r.1) (with_address q o)
OnSome-with_address q P none h = tt
OnSome-with_address q P (some c) h = h

NotBelow-place : (k p j q : ℕ) → IsPlace k p j q → (y : ℕ) → NotBelow k p y → NotBelow j q y
NotBelow-place k p j q (lo, hi, root) y (inl le) = inl (omega (arith, lo, le))
NotBelow-place k p j q (lo, hi, root) y (inr ge) = inr (omega (arith, hi, ge))

-- `kalloc` keeps the head of the largest blocks, and the links of the nodes that are not below the
-- root of the block that it takes.
pub kalloc_keeps :
    (fuel p m j n i : ℕ) (t : Tree) (b : Buddy)
    → 1 ≤ n
    → n ≤ size j
    → j ≤ 5
    → is_free_at 5 m j t ≡ true
    → choose_block fuel n b ≡ some (i, size j, node_at 5 p m t)
    → OnSome (λ r. Links 5 p b r.1) (kalloc fuel n b)
unfolding kalloc
kalloc_keeps fuel p m j n i t b lo hi le f chosen =
    let q = node_at 5 p m t in
    let place = node_at-IsPlace 5 p m j t f in
    let level : TakesLevel (i, size j, q) =
      subst (OnSome TakesLevel) chosen
        (choose_block_level fuel n b lo (omega (arith, hi, size_bound j le))) in
    let b1 = take_block i (size j) q b in
    let space : 0 + (size j - 1) ≡ size j - 1 = omega arith in
    let Goal : Option (ℕ × Buddy) → Type 0 = OnSome (λ r. Links 5 p b r.1) in
    subst (λ o. Goal (split_block n b o)) (sym chosen)
      (subst (λ s. Goal (with_address q (split 33 q n (size j) s i b1)))
        (sym (leaf_space_loop_lem j 33 0 (omega (arith, le)) ∙ space))
        (OnSome-with_address q (Links 5 p b) (split 33 q n (size j) (size j - 1) i b1) (
          Links-then 5 p j q b b1 (split 33 q n (size j) (size j - 1) i b1)
            (take_block_keeps p i j q b level.0 level.1 place) (NotBelow-place 5 p j q place)
            (split_keeps j 33 q n i b1 level.0 hi))))
