-- ===== src/Queue/Fifo.antt =====
-- The queue of source/kernel/queue.c and the list of its pointers.
use kernel_on_qemu.Prelude.{ℕ, ◌≡◌, ◌≢◌, refl, false, Option, none, some, [], ◌∷◌, ◌++◌, arith}
use mathlib.Core.Path.{subst, sym, ◌∙◌, ap}
use mathlib.Core.Bool.{false≢true}
use kernel_on_qemu.Queue.{Queue, Heap, null, entry, write, queue_push, queue_pop}
use kernel_on_qemu.Queue.Chain.{Cells, has, Chain, frame, tail_in, tail_entry, ends_ne_null, append}

-- The queue on the heap holds the entries `xs`; an empty queue has two NULL ends.
abbrev pub IsQueue : Heap → Queue → Cells → Type 0
IsQueue h q [] = (q.head ≡ null) × (q.tail ≡ null)
IsQueue h q (x ∷ xs) = Chain h q.head q.tail (x ∷ xs)

-- What an operation on the heap may have changed: nothing but its own entries.
abbrev pub Pushed : ℕ → ℕ → Cells → Heap → Option (Queue × Heap) → Type 0
Pushed fresh ptr xs h none = ⊥
Pushed fresh ptr xs h (some (q, g)) =
    IsQueue g q (xs ++ ((fresh, ptr) ∷ [])) × ((a : ℕ) → has a xs ≡ false → a ≢ fresh → g a ≡ h a)

abbrev pub Popped : ℕ → ℕ → Cells → Heap → Option (ℕ × Queue × Heap) → Type 0
Popped a ptr xs h none = ⊥
Popped a ptr xs h (some (v, q, g)) =
    (v ≡ ptr) × IsQueue g q xs × (g a ≡ none) × ((b : ℕ) → b ≢ a → g b ≡ h b)

-- queue_push at an unused address puts the pointer behind all others, and writes nowhere else.
pub queue_push-Pushed :
    (fresh ptr : ℕ) (q : Queue) (h : Heap) (xs : Cells)
    → IsQueue h q xs
    → has fresh xs ≡ false
    → fresh ≢ null
    → Pushed fresh ptr xs h (queue_push fresh q ptr h)
unfolding queue_push write
queue_push-Pushed fresh ptr q h [] is out ne = ground arith
queue_push-Pushed fresh ptr q h (x ∷ xs) is out ne =
    let (nh, nt) = ends_ne_null h q.head q.tail (x ∷ xs) is in
    let (u, last) = tail_entry h q.head q.tail (x ∷ xs) is in
    let inside = tail_in h q.head q.tail (x ∷ xs) is in
    let apart : q.tail ≢ fresh =
      λ e. false≢true (sym out ∙ ap (λ a. has a (x ∷ xs)) (sym e) ∙ inside) in
    let g : Heap = write (write h fresh (some (entry ptr null))) q.tail (some (entry u fresh)) in
    let e : queue_push fresh q ptr h ≡ some (record q { tail = fresh }, g) = ground arith in
    subst (Pushed fresh ptr (x ∷ xs) h) (sym e) (
      append h g q.head q.tail fresh ptr (x ∷ xs) is out ne (ground arith) (λ v f. ground arith)
          (λ a i n. ground (arith, i, ap (λ b. has b (x ∷ xs)))),
      λ a o n. ground (arith, inside),
    )

-- queue_pop takes the pointer of the first entry, frees that entry, and leaves the others.
pub queue_pop-Popped :
    (q : Queue) (h : Heap) (a ptr : ℕ) (xs : Cells)
    → IsQueue h q ((a, ptr) ∷ xs)
    → Popped a ptr xs h (queue_pop q h)
unfolding queue_pop write
queue_pop-Popped q h a ptr [] is = ground arith
queue_pop-Popped q h a ptr ((b, w) ∷ xs) is =
    let inside = tail_in h b q.tail ((b, w) ∷ xs) is.4 in
    let apart : q.head ≢ q.tail =
      λ e. false≢true (sym is.3 ∙ ap (λ y. has y ((b, w) ∷ xs)) (sym is.0 ∙ e) ∙ inside) in
    let g : Heap = write h q.head none in
    let e : queue_pop q h ≡ some (ptr, record q { head = b }, g) = ground arith in
    subst (Popped a ptr ((b, w) ∷ xs) h) (sym e) (
      refl,
      frame h g b q.tail ((b, w) ∷ xs) is.4
          (λ y i. ground (arith, ap (λ z. has z ((b, w) ∷ xs)), i)),
      ground arith,
      λ y n. ground arith,
    )
