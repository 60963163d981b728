-- ===== src/Memory/Free.antt =====
-- `kfree` of source/kernel/memory.c, with `merge_bnode` and `merge_bnode_nolimit`. `none` stands for
-- a loop that does not end and for a walk through NULL.
use kernel_on_qemu.Prelude.{
  ◌>>=◌, ℕ, zero, suc, ◌-◌, ◌*◌, ◌/◌, Bool, true, false, Option, none, some, ◌&&◌, ◌||◌, not, ltb,
  ◌==◌, if◌then◌else◌,
}
use kernel_on_qemu.Memory.{BuddyNode, null, put, g_heap_max_block_size}
use kernel_on_qemu.Memory.Lists.{
  Buddy, status_unallocated, status_nonode, order_index, push_node, unlink_node, is_linked,
}
use kernel_on_qemu.Memory.Alloc.{set_leaves}

unfoldable pub set_status : (p status : ℕ) → Buddy → Buddy
unfolding put
set_status p status b = record b { store = put b.store p (record (b.store p) { status = status }) }

-- Are both leaves of a node there?
abbrev pub has_leaves : BuddyNode → Bool
has_leaves n = not (n.leaf_left == null) && not (n.leaf_right == null)

abbrev pub both_unallocated : (p : ℕ) → Buddy → Bool
both_unallocated p b =
    let n = b.store p in
    (b.store n.leaf_left).status == status_unallocated
    && (b.store n.leaf_right).status == status_unallocated

-- A leaf that was freed is put on its list if it has links.
unfoldable pub relist : (index p : ℕ) → Buddy → Buddy
unfolding push_node
relist index p b =
    if (b.store p).status == status_unallocated && is_linked (b.store p)
    then push_node index p b
    else b

-- The end of `merge_bnode` for a node with leaves.
unfoldable pub join_leaves : (p index : ℕ) → Buddy → Buddy
unfolding unlink_node relist set_status set_leaves
join_leaves p index b =
    let left = (b.store p).leaf_left in
    let right = (b.store p).leaf_right in
    if both_unallocated p b
    then set_status p status_unallocated
        (set_leaves p null null (unlink_node index right (unlink_node index left b)))
    else relist index right (relist index left b)

-- The index of the list for the leaves of a node.
abbrev pub leaf_index : (p : ℕ) → Buddy → Option ℕ
leaf_index p b = order_index 9 (b.store (b.store p).leaf_left).type 0

unfoldable pub merge_bnode : (fuel p limit : ℕ) → Buddy → Option Buddy
unfolding join_leaves order_index set_status
merge_bnode zero p limit b = none
merge_bnode (suc fuel) p limit b = elim (has_leaves (b.store p)) [
  | false ↦ some (set_status p status_unallocated b)
  | true ↦ merge_bnode fuel (b.store p).leaf_left limit b >>= λ b.
      (elim (ltb ((b.store p).type / 2) limit) [
        | true ↦ merge_bnode fuel (b.store p).leaf_right (limit - (b.store p).type / 2) b
        | false ↦ some b
      ])
      >>= λ b. leaf_index p b >>= λ index. some (join_leaves p index b)
]

-- The end of `merge_bnode_nolimit`.
unfoldable pub join_nodes : (p index : ℕ) → Buddy → Buddy
unfolding unlink_node set_status set_leaves
join_nodes p index b =
    let left = (b.store p).leaf_left in
    let right = (b.store p).leaf_right in
    set_status p status_unallocated (
      set_leaves p null null (
        set_status right status_nonode
          (set_status left status_nonode (unlink_node index right (unlink_node index left b)))))

unfoldable pub merge_bnode_nolimit : (fuel p : ℕ) → Buddy → Option Buddy
unfolding join_nodes order_index
merge_bnode_nolimit zero p b = none
merge_bnode_nolimit (suc fuel) p b = elim (has_leaves (b.store p)) [
  | false ↦ some b
  | true ↦ merge_bnode_nolimit fuel (b.store p).leaf_left b >>= λ b.
      merge_bnode_nolimit fuel (b.store p).leaf_right b >>= λ b. elim (both_unallocated p b) [
        | false ↦ some b
        | true ↦ leaf_index p b >>= λ index. some (join_nodes p index b)
      ]
]

-- The node of the largest block that holds an address.
unfoldable pub find_high : (fuel : ℕ) → Buddy → (p highest_order_address : ℕ) → Option ℕ
find_high zero b p highest_order_address = none
find_high (suc fuel) b p highest_order_address = elim (p == null) [
  | true ↦ none
  | false ↦ elim ((b.store p).address == highest_order_address) [
    | true ↦ some p
    | false ↦ find_high fuel b (b.store p).list_next highest_order_address
  ]
]

-- The first node from the top that starts at an address.
unfoldable pub find_root : (fuel : ℕ) → Buddy → (p address : ℕ) → Option ℕ
find_root zero b p address = none
find_root (suc fuel) b p address =
    elim (p == null || (b.store p).leaf_right == null && ltb (b.store p).address address) [
      | true ↦ none
      | false ↦ elim (ltb (b.store p).address address) [
        | false ↦ some p
        | true ↦
            find_root fuel b
              (if ltb address (b.store (b.store p).leaf_right).address
                then (b.store p).leaf_left
                else (b.store p).leaf_right)
              address
      ]
    ]

-- A root that was not merged goes on its list, unless it is a largest block.
unfoldable pub return_root : (root high : ℕ) → Buddy → Option Buddy
unfolding push_node order_index
return_root root high b =
    if not (root == high) && (b.store root).status == status_unallocated
    then (order_index 9 (b.store root).type 0 >>= λ index. some (push_node index root b))
    else some b

-- `fuel` is more than the number of largest blocks.
unfoldable pub kfree : (fuel address page_count : ℕ) → Buddy → Option Buddy
unfolding find_high find_root merge_bnode merge_bnode_nolimit return_root
kfree fuel address page_count b =
    find_high fuel b (b.lists 5) (address / g_heap_max_block_size * g_heap_max_block_size)
    >>= λ high. find_root 7 b high address >>= λ root. merge_bnode 7 root page_count b >>= λ b.
        merge_bnode_nolimit 7 high b >>= λ b. return_root root high b
