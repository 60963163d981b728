-- ===== src/Memory/Alloc.antt =====
-- `kalloc` of source/kernel/memory.c. `none` stands for a loop that does not end and for a walk off
-- the lists. Addresses of the heap are below 2 ^ 32, so that their sums do not wrap.
use Prim.Native.Nat.{bit_or}
use kernel_on_qemu.Prelude.{
  ℕ, zero, suc, ◌+◌, ◌-◌, ◌*◌, ◌/◌, ◌^◌, true, false, Option, none, some, ltb, ◌==◌, if◌then◌else◌,
}
use kernel_on_qemu.Words.{u32, sub32}
use kernel_on_qemu.Memory.{null, put}
use kernel_on_qemu.Memory.Lists.{
  Buddy, list_count, status_allocated, status_unallocated, order_index, push_node, pop_node,
}

abbrev pub g_heap_page_size : ℕ
g_heap_page_size = 0x1000

-- sizeof(BUDDY_NODE)
abbrev pub node_size : ℕ
node_size = 24

abbrev or_shift : (x k : ℕ) → ℕ
or_shift x k = bit_or x (x / 2 ^ k)

-- The next power of two.
unfoldable pub round_up : (page_count : ℕ) → ℕ
round_up page_count =
    u32 (or_shift (or_shift (or_shift (or_shift (or_shift (sub32 page_count 1) 1) 2) 4) 8) 16 + 1)

unfoldable pub init_bnode :
    (p status type sidedness address list_next list_prev leaf_left leaf_right : ℕ) → Buddy → Buddy
unfolding put
init_bnode p status type sidedness address list_next list_prev leaf_left leaf_right b = record b {
  store = put b.store p (record (b.store p) {
    status = status;
    type = type;
    sidedness = sidedness;
    address = address;
    list_next = list_next;
    list_prev = list_prev;
    leaf_left = leaf_left;
    leaf_right = leaf_right;
  });
}

-- The walk to a list that is not empty: its index, and the pages of its blocks.
unfoldable pub find_list : (fuel : ℕ) → Buddy → (index block_level : ℕ) → Option (ℕ × ℕ)
find_list zero b index block_level = none
find_list (suc fuel) b index block_level = elim (ltb index list_count) [
  | false ↦ none
  | true ↦ elim (b.lists index == null) [
    | true ↦ find_list fuel b (index + 1) (u32 (block_level * 2))
    | false ↦ some (index, block_level)
  ]
]

-- The walk over the largest blocks to one that is free.
unfoldable pub find_free : (fuel : ℕ) → Buddy → (bn_free : ℕ) → Option ℕ
find_free zero b bn_free = none
find_free (suc fuel) b bn_free = elim (bn_free == null) [
  | true ↦ none
  | false ↦ elim ((b.store bn_free).status == status_allocated) [
    | true ↦ find_free fuel b (b.store bn_free).list_next
    | false ↦ some bn_free
  ]
]

abbrev pub with_node : ℕ → ℕ → Option ℕ → Option (ℕ × ℕ × ℕ)
with_node index block_level none = none
with_node index block_level (some bn_free) = some (index, block_level, bn_free)

abbrev pub free_node : (fuel : ℕ) → Buddy → Option (ℕ × ℕ) → Option (ℕ × ℕ × ℕ)
free_node fuel b none = none
free_node fuel b (some (index, block_level)) =
    if block_level == 0x20
    then with_node index block_level (find_free fuel b (b.lists index))
    else some (index, block_level, b.lists index)

abbrev pub list_from : (fuel : ℕ) → Buddy → (po2 : ℕ) → Option ℕ → Option (ℕ × ℕ × ℕ)
list_from fuel b po2 none = none
list_from fuel b po2 (some index) = free_node fuel b (find_list (list_count + 1) b index po2)

-- The block that is taken: the index of its list, its pages, and its node. `fuel` is for the walk
-- over the largest blocks.
unfoldable pub choose_block : (fuel page_count : ℕ) → Buddy → Option (ℕ × ℕ × ℕ)
unfolding round_up find_list find_free order_index
choose_block fuel page_count b =
    let po2 = round_up page_count in list_from fuel b po2 (order_index 33 po2 0)

-- Marks the node as used, and takes it off its list.
unfoldable pub take_block : (index block_level bn_free : ℕ) → Buddy → Buddy
unfolding put pop_node
take_block index block_level bn_free b =
    let b = record b {
      store = put b.store bn_free (record (b.store bn_free) { status = status_allocated });
    } in
    if block_level == 0x20 then b else pop_node index bn_free b

-- The sum of the halvings, which is the number of nodes below a child.
unfoldable pub leaf_space_loop : (fuel leaf_space_help leaf_space : ℕ) → ℕ
leaf_space_loop zero leaf_space_help leaf_space = leaf_space
leaf_space_loop (suc fuel) leaf_space_help leaf_space = elim (leaf_space_help == 0) [
  | true ↦ leaf_space
  | false ↦ leaf_space_loop fuel (leaf_space_help / 2) (leaf_space + leaf_space_help)
]

unfoldable pub set_leaves : (p leaf_left leaf_right : ℕ) → Buddy → Buddy
unfolding put
set_leaves p leaf_left leaf_right b = record b {
  store = put b.store p (record (b.store p) { leaf_left = leaf_left; leaf_right = leaf_right });
}

-- The two leaves of a node that is split, the left one allocated.
unfoldable pub init_leaves : (p leaf_left leaf_right status_right : ℕ) → Buddy → Buddy
unfolding init_bnode
init_leaves p leaf_left leaf_right status_right b =
    let n = b.store p in
    let b = init_bnode leaf_left status_allocated (n.type / 2) 0 n.address null null null null b in
    let n = b.store p in
    init_bnode leaf_right status_right (n.type / 2) 1 (n.address + n.type * g_heap_page_size / 2)
      null null null null b

-- The loop that splits a node until the pages that are left fit.
unfoldable pub split :
    (fuel split_node split_size initial_size leaf_space index : ℕ) → Buddy → Option Buddy
unfolding set_leaves init_leaves push_node
split zero split_node split_size initial_size leaf_space index b = none
split (suc fuel) split_node split_size initial_size leaf_space index b = elim (split_size == 0) [
  | true ↦ some b
  | false ↦
      let left = split_node + node_size in
      let right = left + leaf_space * node_size in
      let b = set_leaves split_node left right b in
      elim (split_size == initial_size) [
        | true ↦
            split fuel split_node 0 (initial_size / 2) (leaf_space / 2) (index - 1)
              (set_leaves split_node null null b)
        | false ↦ elim (ltb (initial_size / 2) split_size) [
          | true ↦
              split fuel right (split_size - initial_size / 2) (initial_size / 2) (leaf_space / 2)
                (index - 1) (init_leaves split_node left right status_allocated b)
          | false ↦
              split fuel left (if split_size == initial_size / 2 then 0 else split_size)
                (initial_size / 2) (leaf_space / 2) (index - 1)
                (push_node (index - 1) right
                  (init_leaves split_node left right status_unallocated b))
        ]
      ]
]

abbrev pub with_address : (bn_free : ℕ) → Option Buddy → Option (ℕ × Buddy)
with_address bn_free none = none
with_address bn_free (some b) = some ((b.store bn_free).address, b)

abbrev pub split_block : (page_count : ℕ) → Buddy → Option (ℕ × ℕ × ℕ) → Option (ℕ × Buddy)
split_block page_count b none = none
split_block page_count b (some (index, block_level, bn_free)) = with_address bn_free (
    split 33 bn_free page_count block_level (leaf_space_loop 33 (block_level / 2) 0) index
      (take_block index block_level bn_free b))

-- The address of the pages, and the state. `fuel` is more than the number of largest blocks.
unfoldable pub kalloc : (fuel page_count : ℕ) → Buddy → Option (ℕ × Buddy)
unfolding choose_block take_block split leaf_space_loop
kalloc fuel page_count b = split_block page_count b (choose_block fuel page_count b)
