-- ===== src/Memory.antt =====
-- `memory_init` of source/kernel/memory.c: the region of the heap, the header of the buddy allocator,
-- and the nodes of its largest blocks. The nodes are in a store by their address; 0 is NULL.
pub mod Layout
pub mod Lists
pub mod Alloc
pub mod Free
pub mod Tree
pub mod Steps
pub mod Split
pub mod Joins
pub mod Merge
pub mod Coalesce
pub mod Pages
pub mod Freed
pub mod Taking
pub mod RoundTrip
pub mod Root
pub mod Release
pub mod Choose
pub mod Supply
pub mod Heap
pub mod Levels
pub mod Kept
pub mod Links
pub mod Chain
pub mod First
use kernel_on_qemu.Prelude.{
  ℕ, zero, suc, ◌+◌, ◌*◌, ◌/◌, ◌%◌, ◌^◌, ◌&&◌, List, [], ◌∷◌, ltb, ◌==◌, if◌then◌else◌,
}
use kernel_on_qemu.Words.{u32}

-- ADDRESS_RANGE_DESCRIPTOR; the high halves and the ACPI field are not read.
pub record AddressRange : Type 0 where
  pub base_l : ℕ
  pub length_l : ℕ
  pub type : ℕ

-- BUDDY_NODE
pub record BuddyNode : Type 0 where
  pub type : ℕ
  pub status : ℕ
  pub sidedness : ℕ
  pub padding : ℕ
  pub address : ℕ
  pub list_next : ℕ
  pub list_prev : ℕ
  pub leaf_left : ℕ
  pub leaf_right : ℕ

abbrev pub Store : Type 0
Store = ℕ → BuddyNode

abbrev pub null : ℕ
null = 0

abbrev pub g_heap_max_block_size : ℕ
g_heap_max_block_size = 0x20000

-- The nodes of one largest block: 0x3F of 24 bytes.
abbrev pub nodes_size : ℕ
nodes_size = 24 * 0x3F

-- `g_heapStart_buddy` and `maxLen`.
pub record Region : Type 0 where
  pub heap_start : ℕ
  pub max_len : ℕ

-- The loop over the memory map.
unfoldable pub largest_region : List AddressRange → Region → Region
largest_region [] r = r
largest_region (d ∷ l) r = largest_region l (
    if ltb r.max_len d.length_l && d.type == 1
    then record { heap_start = d.base_l; max_len = d.length_l }
    else r)

unfoldable pub max_block_count : (max_len : ℕ) → ℕ
max_block_count max_len = max_len / (nodes_size + g_heap_max_block_size)

-- The space for the nodes, in whole blocks.
unfoldable pub buddy_header_size : (count : ℕ) → ℕ
buddy_header_size count =
    let size = u32 (nodes_size * count) in
    if size % g_heap_max_block_size == 0
    then u32 (size / g_heap_max_block_size * g_heap_max_block_size)
    else u32 ((size / g_heap_max_block_size + 1) * g_heap_max_block_size)

unfoldable pub put : Store → ℕ → BuddyNode → Store
put h p n a = if a == p then n else h a

-- The body of the loop that makes the nodes: the `i`-th node, behind the node `prev_node`.
unfoldable pub init_node : (start body i prev_node : ℕ) → Store → Store
unfolding put
init_node start body i prev_node h =
    let node = start + i * nodes_size in
    let h = put h node (record (h node) {
      type = 0x20;
      status = 1;
      sidedness = 2;
      padding = 0;
      address = body + i * g_heap_max_block_size;
    }) in
    let h =
      if prev_node == null
      then h
      else put h prev_node (record (h prev_node) { list_next = node }) in
    put h node (record (h node) {
      list_next = null;
      leaf_left = null;
      leaf_right = null;
      list_prev = prev_node;
    })

-- `n` rounds of the loop, from the `i`-th on.
unfoldable pub init_nodes : (start body n i prev_node : ℕ) → Store → Store
unfolding init_node
init_nodes start body zero i prev_node h = h
init_nodes start body (suc n) i prev_node h =
    init_nodes start body n (i + 1) (start + i * nodes_size) (init_node start body i prev_node h)

-- What `memory_init` leaves: the heap's region, the start of its blocks, their number, the nodes, and
-- the heads of the lists in BUDDY_LISTS, from `node4k_first` on.
pub record BuddyHeap : Type 0 where
  pub heap_start : ℕ
  pub heap_body : ℕ
  pub count : ℕ
  pub store : Store
  pub lists : ℕ → ℕ

-- A write to the head of a list.
abbrev pub set_first : (index p : ℕ) → (ℕ → ℕ) → ℕ → ℕ
set_first index p lists i = if i == index then p else lists i

unfoldable pub memory_init : List AddressRange → Store → BuddyHeap
unfolding largest_region max_block_count buddy_header_size init_nodes
memory_init memory_map h =
    let r = largest_region memory_map (record { heap_start = null; max_len = 0 }) in
    let count = max_block_count r.max_len in
    let body = r.heap_start + buddy_header_size count in
    record {
      heap_start = r.heap_start;
      heap_body = body;
      count = count;
      store = init_nodes r.heap_start body count 0 null h;
      lists = set_first 5 r.heap_start (λ i. null);
    }
