-- ===== src/Tests/Boot.antt =====
-- `memory_init` of source/kernel/memory.c for a concrete memory map.
use kernel_on_qemu.Prelude.{◌+◌, ◌*◌, ◌≡◌, refl, List, [], ◌∷◌, arith}
use kernel_on_qemu.Memory.{
  AddressRange, Store, Region, nodes_size, largest_region, max_block_count, memory_init,
}
use kernel_on_qemu.Memory.Layout.{block_node, memory_init_lem}

-- The memory of a machine with 128 MB.
abbrev memory_map : List AddressRange
memory_map =
    record { base_l = 0; length_l = 0x9FC00; type = 1 }
    ∷ record { base_l = 0x9FC00; length_l = 0x400; type = 2 }
    ∷ record { base_l = 0x100000; length_l = 0x7EE0000; type = 1 }
    ∷ record { base_l = 0xFFFC0000; length_l = 0x40000; type = 2 }
    ∷ []

abbrev no_nodes : Store
no_nodes a = record {
  type = 0;
  status = 0;
  sidedness = 0;
  padding = 0;
  address = 0;
  list_next = 0;
  list_prev = 0;
  leaf_left = 0;
  leaf_right = 0;
}

abbrev no_region : Region
no_region = record { heap_start = 0; max_len = 0 }

starts : (memory_init memory_map no_nodes).heap_start ≡ 0x100000
unfolding memory_init largest_region
starts = refl

counts : (memory_init memory_map no_nodes).count ≡ 1003
unfolding memory_init largest_region max_block_count
counts = refl

memory_init_lem_example :
    let b = memory_init memory_map no_nodes in
    b.store (b.heap_start + 7 * nodes_size) ≡ block_node b.heap_start b.heap_body b.count 7
memory_init_lem_example =
    memory_init_lem memory_map no_nodes 7 (omega (arith, starts)) (omega (arith, counts))
