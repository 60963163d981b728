-- ===== src/Memory/Choose.antt =====
-- Which block `kalloc` of source/kernel/memory.c takes.
use kernel_on_qemu.Prelude.{
  ℕ, zero, suc, ◌+◌, ◌-◌, ◌*◌, ◌/◌, ◌≤◌, ◌<◌, ◌≡◌, ◌≢◌, refl, sym, ◌∙◌, ap, inl, inr, Bool, true,
  false, some, ◌==◌, ◌&&◌, arith, if◌then◌else◌, ltb, leb, Bool-cases, leb→le, ==_iff,
}
use mathlib.Core.Path.{subst}
use kernel_on_qemu.Words.{u32}
use kernel_on_qemu.Memory.{null}
use kernel_on_qemu.Memory.Lists.{Buddy, list_count, order_index}
use kernel_on_qemu.Memory.Alloc.{
  round_up, find_list, find_free, choose_block, leaf_space_loop, list_from, free_node, with_node,
}
use kernel_on_qemu.Memory.Tree.{size, size_positive, order_index-size}
use kernel_on_qemu.Memory.Steps.{halves}
use kernel_on_qemu.Memory.Pages.{and_left, and_right}

-- The order of the smallest block for `n` pages, by a search.
abbrev pub order_from : (fuel k n : ℕ) → ℕ
order_from zero k n = k
order_from (suc fuel) k n = if leb n (size k) then k else order_from fuel (suc k) n

abbrev pub order_of : (n : ℕ) → ℕ
order_of n = order_from 5 0 n

abbrev rounds : (n : ℕ) → Bool
rounds n = round_up n == size (order_of n) && (leb (order_of n) 5 && leb n (size (order_of n)))

abbrev below : (count : ℕ) → (ℕ → Bool) → Bool
below zero f = true
below (suc n) f = f n && below n f

below_lem : (count i : ℕ) (f : ℕ → Bool) → below count f ≡ true → i < count → f i ≡ true
below_lem zero i f h lt = absurd (omega arith)
below_lem (suc n) i f h lt = elim (Bool-cases (i == n)) [
  | inl last ↦ subst (λ i. f i ≡ true) (sym ((==_iff i n).0 last)) (and_left (f n) (below n f) h)
  | inr other ↦ below_lem n i f (and_right (f n) (below n f) h) (ground arith)
]

rounds_all : below 32 (λ i. rounds (i + 1)) ≡ true
unfolding round_up
rounds_all = refl

-- For 1 to 32 pages the rounded number is the size of the smallest block that holds them.
pub round_up_lem :
    (n : ℕ)
    → 1 ≤ n
    → n ≤ 32
    → (round_up n ≡ size (order_of n)) × (order_of n ≤ 5) × (n ≤ size (order_of n))
round_up_lem n lo hi =
    let h : rounds n ≡ true =
      subst (λ i. rounds i ≡ true) (omega (arith, lo))
        (below_lem 32 (n - 1) (λ i. rounds (i + 1)) rounds_all (omega (arith, lo))) in
    let k = order_of n in
    (
      (==_iff (round_up n) (size k)).0 (and_left _ (leb k 5 && leb n (size k)) h),
      leb→le k 5 (and_left _ (leb n (size k)) (and_right (round_up n == size k) _ h)),
      leb→le n (size k) (and_right (leb k 5) _ (and_right (round_up n == size k) _ h)),
    )

-- The sum of the halvings is one less than the size.
pub leaf_space_loop_lem :
    (j fuel x : ℕ) → j < fuel → leaf_space_loop fuel (size j / 2) x ≡ x + (size j - 1)
unfolding leaf_space_loop
leaf_space_loop_lem j zero x lt = absurd (omega arith)
leaf_space_loop_lem zero (suc fuel) x lt = omega arith
leaf_space_loop_lem (suc k) (suc fuel) x lt =
    let e : (size (suc k) / 2 == 0) ≡ false = ground (arith, halves k, size_positive k) in
    rw (leaf_space_loop, e, halves k)
      (leaf_space_loop_lem k fuel (x + size k) (omega arith) ∙ omega (arith, size_positive k))

pub size_bound : (k : ℕ) → k ≤ 5 → size k ≤ 32
size_bound zero h = omega arith
size_bound (suc zero) h = omega arith
size_bound (suc (suc zero)) h = omega arith
size_bound (suc (suc (suc zero))) h = omega arith
size_bound (suc (suc (suc (suc zero)))) h = omega arith
size_bound (suc (suc (suc (suc (suc zero))))) h = omega arith
size_bound (suc (suc (suc (suc (suc (suc k)))))) h = absurd (omega arith)

pub list_here :
    (fuel k level : ℕ) (b : Buddy)
    → k ≤ 5
    → (b.lists k == null) ≡ false
    → find_list (suc fuel) b k level ≡ some (k, level)
unfolding find_list
list_here fuel k level b le e = let e0 : ltb k 6 ≡ true = ground arith in rw (find_list, e0, e) refl

pub list_next :
    (fuel k level : ℕ) (b : Buddy)
    → k ≤ 5
    → (b.lists k == null) ≡ true
    → find_list (suc fuel) b k level ≡ find_list fuel b (k + 1) (u32 (level * 2))
unfolding find_list
list_next fuel k level b le e = let e0 : ltb k 6 ≡ true = ground arith in rw (find_list, e0, e) refl

-- The walk finds the first list from `k` on that is not empty.
find_list_lem :
    (d fuel k i : ℕ) (b : Buddy)
    → d < fuel
    → k + d ≡ i
    → i ≤ 5
    → ((j : ℕ) → k ≤ j → j < i → b.lists j ≡ null)
    → b.lists i ≢ null
    → find_list fuel b k (size k) ≡ some (i, size i)
find_list_lem d zero k i b lt e le empty here = absurd (omega arith)
find_list_lem zero (suc fuel) k i b lt e le empty here =
    let same : k ≡ i = omega (arith, e) in
    subst (λ k. find_list (suc fuel) b k (size k) ≡ some (i, size i)) (sym same)
      (list_here fuel i (size i) b le (ground (arith, here)))
find_list_lem (suc d) (suc fuel) k i b lt e le empty here =
    let level : u32 (size k * 2) ≡ size (suc k) =
      omega (arith, size_bound k (omega (arith, e, le))) in
    let next : k + 1 ≡ suc k = omega arith in
    list_next fuel k (size k) b (omega (arith, e, le))
      (ground (arith, empty k (omega arith) (omega (arith, e))))
    ∙ (λ x. find_list fuel b (next x) (level x))
    ∙ find_list_lem d fuel (suc k) i b (omega arith) (omega (arith, e)) le
        (λ j lo hi. empty j (omega arith) hi) here

choose_in_list :
    (fuel i : ℕ) (b : Buddy)
    → i < 5
    → free_node fuel b (some (i, size i)) ≡ some (i, size i, b.lists i)
choose_in_list fuel i b lt =
    let small : (size i == 0x20) ≡ false = ground (arith, size_bound (suc i) (omega (arith, lt))) in
    rw small refl

choose_block_list :
    (fuel n i : ℕ) (b : Buddy)
    → 1 ≤ n
    → n ≤ 32
    → order_of n ≤ i
    → i ≤ 5
    → ((j : ℕ) → order_of n ≤ j → j < i → b.lists j ≡ null)
    → b.lists i ≢ null
    → choose_block fuel n b ≡ free_node fuel b (some (i, size i))
unfolding choose_block
choose_block_list fuel n i b lo hi from le empty here =
    let k = order_of n in
    let rounded = round_up_lem n lo hi in
    let from_zero : 0 + k ≡ k = omega arith in
    ap (λ x. list_from fuel b x (order_index 33 x 0)) rounded.0
    ∙ ap (list_from fuel b (size k)) (order_index-size 33 k 0 (omega (arith, rounded.1)))
    ∙ ap (λ x. free_node fuel b (find_list (list_count + 1) b x (size k))) from_zero
    ∙ ap (free_node fuel b) (
        find_list_lem (i - k) (list_count + 1) k i b (omega (arith, le)) (omega (arith, from)) le
          empty here)

-- For 1 to 32 pages, and where a list of blocks that are large enough but below 128K is not empty, the
-- head of the first such list is taken.
pub choose_block_small :
    (fuel n i : ℕ) (b : Buddy)
    → 1 ≤ n
    → n ≤ 32
    → order_of n ≤ i
    → i < 5
    → ((j : ℕ) → order_of n ≤ j → j < i → b.lists j ≡ null)
    → b.lists i ≢ null
    → choose_block fuel n b ≡ some (i, size i, b.lists i)
choose_block_small fuel n i b lo hi from lt empty here =
    choose_block_list fuel n i b lo hi from (omega arith) empty here ∙ choose_in_list fuel i b lt

-- Where only the list of the largest blocks is left, its first block that is not in use is taken.
pub choose_block_large :
    (fuel n q : ℕ) (b : Buddy)
    → 1 ≤ n
    → n ≤ 32
    → ((j : ℕ) → order_of n ≤ j → j < 5 → b.lists j ≡ null)
    → b.lists 5 ≢ null
    → find_free fuel b (b.lists 5) ≡ some q
    → choose_block fuel n b ≡ some (5, size 5, q)
choose_block_large fuel n q b lo hi empty here found =
    choose_block_list fuel n 5 b lo hi (round_up_lem n lo hi).1 (omega arith) empty here
    ∙ ap (with_node 5 (size 5)) found
