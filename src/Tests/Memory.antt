-- ===== src/Tests/Memory.antt =====
-- The byte operations of source/kernel/memory.c, string.c, checksum.c and netswap.h and the queue
-- of source/kernel/queue.c at concrete inputs.
use kernel_on_qemu.Prelude.{◌≡◌, refl, none, some, [], ◌∷◌, arith, ◌==◌, if◌then◌else◌}
use kernel_on_qemu.Words.{netswap16}
use kernel_on_qemu.Bytes.{Bytes, write16}
use kernel_on_qemu.Checksum.{netchecksum}
use kernel_on_qemu.Checksum.Verify.{netchecksum_verifies}
use kernel_on_qemu.Queue.{Queue, Heap, entry, null, queue_push, queue_pop}
use kernel_on_qemu.Queue.Fifo.{Pushed, Popped, queue_push-Pushed, queue_pop-Popped}

-- Six bytes with a field of zeros at 2.
abbrev region : Bytes
region x = if x == 0 then 0x45 else if x == 5 then 0xff else 0

netchecksum_verifies_example :
    netchecksum (write16 region 2 (netswap16 (netchecksum region 0 6))) 0 6 ≡ 0
netchecksum_verifies_example =
    netchecksum_verifies region 0 6 1 2 (λ x. ground arith) refl (omega arith) (omega arith)
      (omega arith) refl refl

-- One entry at 16, which holds the pointer 99.
abbrev heap : Heap
heap a = if a == 16 then some (entry 99 null) else none

abbrev queue : Queue
queue = record { head = 16; tail = 16 }

queue_push-Pushed_example : Pushed 32 77 ((16, 99) ∷ []) heap (queue_push 32 queue 77 heap)
queue_push-Pushed_example =
    queue_push-Pushed 32 77 queue heap ((16, 99) ∷ []) (refl, refl, omega arith, refl) refl
      (omega arith)

queue_pop-Popped_example : Popped 16 99 [] heap (queue_pop queue heap)
queue_pop-Popped_example = queue_pop-Popped queue heap 16 99 [] (refl, refl, omega arith, refl)
