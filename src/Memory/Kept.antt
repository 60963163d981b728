-- ===== src/Memory/Kept.antt =====
-- `kalloc` of source/kernel/memory.c and the list of the largest blocks: the loop that splits a block
-- changes links inside the block only, and no head but those of the smaller blocks.
use kernel_on_qemu.Prelude.{
  OnSome, OnSome-map, ℕ, zero, suc, ◌+◌, ◌-◌, ◌*◌, ◌/◌, ◌≤◌, ◌<◌, ◌≡◌, ◌≢◌, refl, sym, ◌∙◌, ◌⊎◌,
  inl, inr, Bool-cases, Option, ◌==◌, arith, if◌then◌else◌,
}
use mathlib.Core.Path.{subst}
use kernel_on_qemu.Memory.{null, put}
use kernel_on_qemu.Memory.Lists.{Buddy, push_node}
use kernel_on_qemu.Memory.Alloc.{set_leaves, init_leaves, split}
use kernel_on_qemu.Memory.Tree.{size, size_positive}
use kernel_on_qemu.Memory.Steps.{with_leaves, split_done, branch_whole, split_left, split_right}
use kernel_on_qemu.Memory.Split.{compare_cases}

-- The next node of a node.
abbrev pub next_of : Buddy → ℕ → ℕ
next_of b y = (b.store y).list_next

-- The address is of no node below the one at `p`, of a block of order `k`.
abbrev pub NotBelow : (k p y : ℕ) → Type 0
NotBelow k p y = (y ≤ p) ⊎ (p + 24 * (2 * size k - 1) ≤ y)

abbrev pub Links : (k p : ℕ) → (b c : Buddy) → Type 0
Links k p b c = (c.lists 5 ≡ b.lists 5) × ((y : ℕ) → NotBelow k p y → next_of c y ≡ next_of b y)

next-set_leaves : (p l r y : ℕ) (b : Buddy) → next_of (set_leaves p l r b) y ≡ next_of b y
unfolding set_leaves
next-set_leaves p l r y b = ground arith

next-init_leaves :
    (p l r status y : ℕ) (b : Buddy)
    → y ≢ l
    → y ≢ r
    → next_of (init_leaves p l r status b) y ≡ next_of b y
unfolding init_leaves put
next-init_leaves p l r status y b nl nr = ground arith

next-push_node : (i q y : ℕ) (b : Buddy) → y ≢ q → next_of (push_node i q b) y ≡ next_of b y
unfolding push_node put
next-push_node i q y b ne = ground arith

lists-push_node : (i q : ℕ) (b : Buddy) → i < 5 → (push_node i q b).lists 5 ≡ b.lists 5
unfolding push_node
lists-push_node i q b lt = ground arith

next-with_leaves :
    (k p status y : ℕ) (b : Buddy)
    → NotBelow (suc k) p y
    → next_of (with_leaves k p status b) y ≡ next_of b y
next-with_leaves k p status y b o =
    next-init_leaves p (p + 24) (p + 24 * size (suc k)) status y
      (set_leaves p (p + 24) (p + 24 * size (suc k)) b) (ground (arith, size_positive k))
      (ground (arith, size_positive k))
    ∙ next-set_leaves p (p + 24) (p + 24 * size (suc k)) y b

lists-with_leaves : (k p status : ℕ) (b : Buddy) → (with_leaves k p status b).lists 5 ≡ b.lists 5
unfolding init_leaves set_leaves
lists-with_leaves k p status b = refl

split_out_of_fuel :
    (p n i s x : ℕ) (b : Buddy) (P : Buddy → Type 0) → OnSome P (split zero p n i s x b)
unfolding split
split_out_of_fuel p n i s x b P = tt

split_nothing :
    (fuel p i s x : ℕ) (b : Buddy) (P : Buddy → Type 0) → P b → OnSome P (split fuel p 0 i s x b)
split_nothing zero p i s x b P h = split_out_of_fuel p 0 i s x b P
split_nothing (suc fuel) p i s x b P h = subst (OnSome P) (sym (split_done fuel p i s x b)) h

-- The links after a round, and then after the rest of the loop.
pub Links-then :
    (k p k1 p1 : ℕ) (b b1 : Buddy) (o : Option Buddy)
    → Links k p b b1
    → ((y : ℕ) → NotBelow k p y → NotBelow k1 p1 y)
    → OnSome (Links k1 p1 b1) o
    → OnSome (Links k p b) o
Links-then k p k1 p1 b b1 o (e, at) within =
    OnSome-map (Links k1 p1 b1) (Links k p b) o
      (λ c (e1, at1). (e1 ∙ e, λ y out. at1 y (within y out) ∙ at y out))

lists-set_leaves : (p l r : ℕ) (b : Buddy) → (set_leaves p l r b).lists 5 ≡ b.lists 5
unfolding set_leaves
lists-set_leaves p l r b = refl

split_keeps_whole :
    (fuel k p n index : ℕ) (b : Buddy)
    → 1 ≤ n
    → n ≡ size k
    → OnSome (Links k p b) (split (suc fuel) p n (size k) (size k - 1) index b)
split_keeps_whole fuel k p n index b lo e =
    let b1 = set_leaves p (p + 24) (p + 24 + (size k - 1) * 24) b in
    subst (OnSome (Links k p b))
      (sym (branch_whole fuel p n (size k) (size k - 1) index b (ground arith) (ground arith)))
      (split_nothing fuel p (size k / 2) ((size k - 1) / 2) (index - 1) (set_leaves p null null b1)
        (Links k p b)
        (
          lists-set_leaves p null null b1
              ∙ lists-set_leaves p (p + 24) (p + 24 + (size k - 1) * 24) b,
          λ y o.
              next-set_leaves p null null y b1
              ∙ next-set_leaves p (p + 24) (p + 24 + (size k - 1) * 24) y b,
        ))

-- The loop changes links below the node only, and no head but those of smaller blocks.
pub split_keeps :
    (k fuel p n index : ℕ) (b : Buddy)
    → index ≤ 5
    → n ≤ size k
    → OnSome (Links k p b) (split fuel p n (size k) (size k - 1) index b)
split_keeps k zero p n index b small le =
    split_out_of_fuel p n (size k) (size k - 1) index b (Links k p b)
split_keeps k (suc fuel) p zero index b small le =
    split_nothing (suc fuel) p (size k) (size k - 1) index b (Links k p b) (refl, λ y o. refl)
split_keeps zero (suc fuel) p (suc n) index b small le =
    split_keeps_whole fuel zero p (suc n) index b (omega arith) (omega arith)
split_keeps (suc k) (suc fuel) p (suc n) index b small le =
    elim (compare_cases (suc n) (size k) (size (suc k))) [
      | inl low ↦
          let q = p + 24 * size (suc k) in
          let b0 = with_leaves k p 1 b in
          let b1 = push_node (index - 1) q b0 in
          subst (OnSome (Links (suc k) p b))
            (sym (split_left fuel k p (suc n) index b (omega arith) low))
            (Links-then (suc k) p k (p + 24) b b1 _
              (
                lists-push_node (index - 1) q b0 (omega (arith, small)) ∙ lists-with_leaves k p 1 b,
                λ y o.
                    next-push_node (index - 1) q y b0 (ground (arith, size_positive k))
                    ∙ next-with_leaves k p 1 y b o,
              )
              (λ y o. ground (arith, size_positive k))
              (elim (Bool-cases (suc n == size k)) [
                | inl same ↦
                    subst
                      (λ c. OnSome (Links k (p + 24) b1) (
                        split fuel (p + 24) (if c then 0 else suc n) (size k) (size k - 1)
                          (index - 1) b1))
                      (sym same)
                      (split_nothing fuel (p + 24) (size k) (size k - 1) (index - 1) b1
                        (Links k (p + 24) b1) (refl, λ y o. refl))
                | inr other ↦
                    subst
                      (λ c. OnSome (Links k (p + 24) b1) (
                        split fuel (p + 24) (if c then 0 else suc n) (size k) (size k - 1)
                          (index - 1) b1))
                      (sym other)
                      (split_keeps k fuel (p + 24) (suc n) (index - 1) b1 (omega (arith, small))
                        low)
              ]))
      | inr (inl (lt, gt)) ↦
          let q = p + 24 * size (suc k) in
          let b1 = with_leaves k p 0 b in
          subst (OnSome (Links (suc k) p b)) (sym (split_right fuel k p (suc n) index b lt gt)) (
            Links-then (suc k) p k q b b1 _
              (lists-with_leaves k p 0 b, λ y o. next-with_leaves k p 0 y b o)
              (λ y o. ground (arith, size_positive k))
              (split_keeps k fuel q (suc n - size k) (index - 1) b1 (omega (arith, small))
                (omega arith)))
      | inr (inr ge) ↦ split_keeps_whole fuel (suc k) p (suc n) index b (omega arith) (omega arith)
    ]
