-- ===== src/Interrupt/Nesting.antt =====
-- Pairs of disable_interrupts and enable_interrupts of source/kernel/interrupt.c.
use kernel_on_qemu.Prelude.{ℕ, suc, ◌+◌, ◌<◌, ◌^◌, ◌≡◌, ◌∙◌, ap, sym, refl, arith, ◌==◌}
use Prim.Native.Nat.{max}
use kernel_on_qemu.Interrupt.{Cpu, disable_interrupts, enable_interrupts}

-- Code that disables and enables interrupts: nothing, or a pair around code, and code behind it.
pub data Code : Type 0 where
  stop : Code
  pair : Code → Code → Code

pub run : Code → Cpu → Cpu
run stop c = c
run (pair inner rest) c = run rest (enable_interrupts (run inner (disable_interrupts c)))

abbrev pub depth : Code → ℕ
depth stop = 0
depth (pair inner rest) = max (suc (depth inner)) (depth rest)

-- The flag agrees with the counter: interrupts are on exactly if nothing has disabled them.
abbrev pub Agrees : Cpu → Type 0
Agrees c = c.interrupt_flag ≡ (c.disable_counter == 0)

run_lem :
    (code : Code) (c : Cpu)
    → Agrees c
    → c.disable_counter + depth code < 2 ^ 32
    → ((run code c).disable_counter ≡ c.disable_counter) × Agrees (run code c)
unfolding run disable_interrupts enable_interrupts
run_lem stop c a h = (refl, a)
run_lem (pair inner rest) c a h =
    let c1 = disable_interrupts c in
    let one : c1.disable_counter ≡ c.disable_counter + 1 = omega arith in
    let a1 : Agrees c1 = ground arith in
    let (n2, a2) = run_lem inner c1 a1 (omega arith) in
    let c3 = enable_interrupts (run inner c1) in
    let n3 : c3.disable_counter ≡ c.disable_counter = ground arith in
    let a3 : Agrees c3 = ground arith in
    let (n4, a4) = run_lem rest c3 a3 (omega arith) in (n4 ∙ n3, a4)

-- Code whose pairs nest leaves the counter as it found it, however deep it nests, and leaves the
-- interrupts on exactly if they were: an inner pair never turns them on inside an outer one.
-- The flag agrees with the counter at the start, and the counter stays below 2 ^ 32.
pub run_restores :
    (code : Code) (c : Cpu)
    → Agrees c
    → c.disable_counter + depth code < 2 ^ 32
    → ((run code c).disable_counter ≡ c.disable_counter)
      × ((run code c).interrupt_flag ≡ c.interrupt_flag)
run_restores code c a h = let (n, a') = run_lem code c a h in (n, a' ∙ ap (λ k. k == 0) n ∙ sym a)
