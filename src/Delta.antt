-- ===== src/Delta.antt =====
-- The delta queue of source/kernel/time.c: each entry holds its distance in ticks from the entry
-- before it.
pub mod Wakeups
pub mod Due
use kernel_on_qemu.Prelude.{ℕ, ◌-◌, List, [], ◌∷◌, leb, ◌==◌, if◌then◌else◌}
use kernel_on_qemu.Tasks.{Sleeper}

-- The walk of `sleep` and the insertion behind it: the entry goes behind the entries that wake up
-- no later, and the entry that follows it is brought nearer by what is left of its ticks.
unfoldable pub insert_sleeper : ℕ → ℕ → List Sleeper → List Sleeper
insert_sleeper task ticks [] = record { task = task; ticks_to_wakeup = ticks } ∷ []
insert_sleeper task ticks (d ∷ q) =
    if leb d.ticks_to_wakeup ticks
    then d ∷ insert_sleeper task (ticks - d.ticks_to_wakeup) q
    else record { task = task; ticks_to_wakeup = ticks }
      ∷ record d { ticks_to_wakeup = d.ticks_to_wakeup - ticks }
      ∷ q

-- The walk of `interrupt_function_PIT`: the first entry with ticks left loses one.
unfoldable pub tick_sleepers : List Sleeper → List Sleeper
tick_sleepers [] = []
tick_sleepers (d ∷ q) =
    if d.ticks_to_wakeup == 0
    then d ∷ tick_sleepers q
    else record d { ticks_to_wakeup = d.ticks_to_wakeup - 1 } ∷ q
