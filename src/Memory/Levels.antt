-- ===== src/Memory/Levels.antt =====
-- The list that `kalloc` of source/kernel/memory.c takes a block from is of blocks of its size.
use kernel_on_qemu.Prelude.{
  Option, none, OnSome, ℕ, zero, suc, ◌+◌, ◌*◌, ◌≤◌, ◌≡◌, refl, sym, ◌∙◌, ap, inl, inr, false, some,
  ◌==◌, arith, ltb, Bool-cases,
}
use mathlib.Core.Path.{subst}
use kernel_on_qemu.Words.{u32}
use kernel_on_qemu.Memory.{null}
use kernel_on_qemu.Memory.Lists.{Buddy, list_count, order_index}
use kernel_on_qemu.Memory.Alloc.{find_list, choose_block, list_from, free_node}
use kernel_on_qemu.Memory.Tree.{size, order_index-size}
use kernel_on_qemu.Memory.Choose.{size_bound, order_of, round_up_lem, list_here, list_next}

list_over : (fuel k level : ℕ) (b : Buddy) → ltb k 6 ≡ false → find_list (suc fuel) b k level ≡ none
unfolding find_list
list_over fuel k level b e = rw (find_list, e) refl

abbrev HasLevel : ℕ × ℕ → Type 0
HasLevel (i, level) = (i ≤ 5) × (level ≡ size i)

abbrev pub TakesLevel : ℕ × ℕ × ℕ → Type 0
TakesLevel (i, level, q) = (i ≤ 5) × (level ≡ size i)

-- The list that is found is of blocks of its size.
find_list_level : (fuel k : ℕ) (b : Buddy) → OnSome HasLevel (find_list fuel b k (size k))
unfolding find_list
find_list_level zero k b = tt
find_list_level (suc fuel) k b = elim (Bool-cases (ltb k 6)) [
  | inr over ↦ subst (OnSome HasLevel) (sym (list_over fuel k (size k) b over)) tt
  | inl inside ↦
      let le : k ≤ 5 = ground arith in
      let Goal : Option (ℕ × ℕ) → Type 0 = OnSome HasLevel in
      elim (Bool-cases (b.lists k == null)) [
        | inr here ↦ subst Goal (sym (list_here fuel k (size k) b le here)) (le, refl)
        | inl empty ↦
            let level : u32 (size k * 2) ≡ size (suc k) = omega (arith, size_bound k le) in
            let next : k + 1 ≡ suc k = omega arith in
            subst Goal
              (sym
                (list_next fuel k (size k) b le empty ∙ (λ x. find_list fuel b (next x) (level x))))
              (find_list_level fuel (suc k) b)
      ]
]

free_node_level :
    (fuel : ℕ) (b : Buddy) (o : Option (ℕ × ℕ))
    → OnSome HasLevel o
    → OnSome TakesLevel (free_node fuel b o)
free_node_level fuel b none h = tt
free_node_level fuel b (some (i, level)) h = ground (arith, h)

-- So is the block that is taken, for 1 to 32 pages.
pub choose_block_level :
    (fuel n : ℕ) (b : Buddy) → 1 ≤ n → n ≤ 32 → OnSome TakesLevel (choose_block fuel n b)
unfolding choose_block
choose_block_level fuel n b lo hi =
    let k = order_of n in
    let rounded = round_up_lem n lo hi in
    let from_zero : 0 + k ≡ k = omega arith in
    let eq =
      ap (λ x. list_from fuel b x (order_index 33 x 0)) rounded.0
      ∙ ap (list_from fuel b (size k)) (order_index-size 33 k 0 (omega (arith, rounded.1)))
      ∙ ap (λ x. free_node fuel b (find_list (list_count + 1) b x (size k))) from_zero in
    subst (OnSome TakesLevel) (sym eq) (
      free_node_level fuel b (find_list (list_count + 1) b k (size k))
        (find_list_level (list_count + 1) k b))
