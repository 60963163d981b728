-- ===== src/Queue.antt =====
-- source/kernel/queue.c: a queue of pointers as a chain of entries with a head and a tail.
-- The entries live on a heap; kalloc's page for a new entry is the parameter `fresh`, and kfree
-- empties the cell of an entry. `none` is a fault: an access through a pointer to no entry.
pub mod Chain
pub mod Fifo
use kernel_on_qemu.Prelude.{ℕ, Option, none, some, List, [], ◌∷◌, ◌&&◌, not, ◌==◌, if◌then◌else◌}

-- QUEUE_ENTRY
pub record Entry : Type 0 where
  pub ptr : ℕ
  pub next : ℕ

-- QUEUE
pub record Queue : Type 0 where
  pub head : ℕ
  pub tail : ℕ

abbrev pub Heap : Type 0
Heap = ℕ → Option Entry

abbrev pub null : ℕ
null = 0

unfoldable pub write : Heap → ℕ → Option Entry → Heap
write h a c b = if b == a then c else h b

abbrev pub entry : ℕ → ℕ → Entry
entry ptr next = record { ptr = ptr; next = next }

-- `p->next = next`
abbrev pub set_next : Option Entry → (p next : ℕ) → Heap → Option Heap
set_next none p next h = none
set_next (some e) p next h = some (write h p (some (record e { next = next })))

abbrev pub with_queue : Queue → Option Heap → Option (Queue × Heap)
with_queue q none = none
with_queue q (some h) = some (q, h)

unfoldable pub queue_push : (fresh : ℕ) → Queue → (ptr : ℕ) → Heap → Option (Queue × Heap)
unfolding write
queue_push fresh q ptr h =
    let h' = write h fresh (some (entry ptr null)) in
    if not (q.head == null) && not (q.tail == null)
    then with_queue (record q { tail = fresh }) (set_next (h' q.tail) q.tail fresh h')
    else some (record { head = fresh; tail = fresh }, h')

-- The entry is read, unlinked and freed.
abbrev pub pop_entry : Option Entry → Queue → Heap → Option (ℕ × Queue × Heap)
pop_entry none q h = none
pop_entry (some e) q h = some (
  e.ptr,
  if not (q.head == q.tail)
      then record q { head = e.next }
      else record { head = null; tail = null },
  write h q.head none,
)

unfoldable pub queue_pop : Queue → Heap → Option (ℕ × Queue × Heap)
unfolding write
queue_pop q h = pop_entry (h q.head) q h
