-- ===== src/Memory/Lists.antt =====
-- The free lists of source/kernel/memory.c: their heads in BUDDY_LISTS, and the links of the nodes.
-- A write through a NULL pointer goes to the node at address 0, which is on no list.
use kernel_on_qemu.Prelude.{
  ℕ, zero, suc, ◌+◌, ◌/◌, Bool, true, false, Option, none, some, ◌||◌, not, ◌==◌, if◌then◌else◌,
}
use kernel_on_qemu.Memory.{BuddyNode, Store, null, put}

-- The heads of the lists, from `node4k_first` on, and the nodes.
pub record Buddy : Type 0 where
  pub lists : ℕ → ℕ
  pub store : Store

abbrev pub list_count : ℕ
list_count = 6

abbrev pub status_allocated : ℕ
status_allocated = 0

abbrev pub status_unallocated : ℕ
status_unallocated = 1

abbrev pub status_nonode : ℕ
status_nonode = 2

-- The loop that counts the halvings of a power of two. It does not end for 0.
unfoldable pub order_index : (fuel order index : ℕ) → Option ℕ
order_index zero order index = none
order_index (suc fuel) order index = elim (order == 1) [
  | true ↦ some index
  | false ↦ order_index fuel (order / 2) (index + 1)
]

unfoldable pub set_head : (index p : ℕ) → Buddy → Buddy
set_head index p b = record b { lists = λ i. if i == index then p else b.lists i }

unfoldable pub set_next : (p next : ℕ) → Buddy → Buddy
unfolding put
set_next p next b = record b { store = put b.store p (record (b.store p) { list_next = next }) }

unfoldable pub set_prev : (p prev : ℕ) → Buddy → Buddy
unfolding put
set_prev p prev b = record b { store = put b.store p (record (b.store p) { list_prev = prev }) }

-- Puts a node at the head of a list.
unfoldable pub push_node : (index p : ℕ) → Buddy → Buddy
unfolding set_next set_prev set_head
push_node index p b =
    let head = b.lists index in set_head index p (set_prev head p (set_next p head b))

-- Takes the head off its list.
unfoldable pub pop_node : (index p : ℕ) → Buddy → Buddy
unfolding set_next set_prev set_head
pop_node index p b =
    let head = (b.store p).list_next in
    set_prev p null (set_next p null (set_prev head null (set_head index head b)))

-- Is the node linked to others?
abbrev pub is_linked : BuddyNode → Bool
is_linked n = not (n.list_next == null) || not (n.list_prev == null)

-- Takes a node off its list, if it is on one.
unfoldable pub unlink_node : (index p : ℕ) → Buddy → Buddy
unfolding set_next set_prev set_head
unlink_node index p b =
    if is_linked (b.store p) || b.lists index == p
    then (let b = if b.lists index == p then set_head index (b.store p).list_next b else b in
        let prev = (b.store p).list_prev in
        let b = if prev == null then b else set_next prev (b.store p).list_next b in
        let next = (b.store p).list_next in
        let b = if next == null then b else set_prev next (b.store p).list_prev b in
        set_prev p null (set_next p null b))
    else b
