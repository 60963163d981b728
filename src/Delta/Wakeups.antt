-- ===== src/Delta/Wakeups.antt =====
-- What the delta queue of source/kernel/time.c stands for: the tasks that sleep, each with the ticks
-- until it wakes up.
use kernel_on_qemu.Prelude.{ℕ, ◌+◌, ◌-◌, ◌≡◌, refl, List, [], ◌∷◌, map, arith, leb, if◌then◌else◌}
use kernel_on_qemu.Tasks.{Sleeper}
use kernel_on_qemu.Delta.{insert_sleeper, tick_sleepers}

pub record Wakeup : Type 0 where
  pub task : ℕ
  pub ticks : ℕ

-- The view of a queue whose first entry counts from `base` ticks.
unfoldable pub wakeups : ℕ → List Sleeper → List Wakeup
wakeups base [] = []
wakeups base (d ∷ q) =
    record { task = d.task; ticks = base + d.ticks_to_wakeup }
    ∷ wakeups (base + d.ticks_to_wakeup) q

-- Inserts behind all that wake up no later.
unfoldable pub insert_wakeup : Wakeup → List Wakeup → List Wakeup
insert_wakeup w [] = w ∷ []
insert_wakeup w (v ∷ vs) = if leb v.ticks w.ticks then v ∷ insert_wakeup w vs else w ∷ v ∷ vs

unfoldable pub sooner : Wakeup → Wakeup
sooner w = record w { ticks = w.ticks - 1 }

insert_sleeper_from :
    (base task ticks : ℕ) (q : List Sleeper)
    → wakeups base (insert_sleeper task ticks q)
      ≡ insert_wakeup (record { task = task; ticks = base + ticks }) (wakeups base q)
unfolding wakeups insert_sleeper insert_wakeup
insert_sleeper_from base task ticks [] = refl
insert_sleeper_from base task ticks (d ∷ q) =
    ground
      (arith, insert_sleeper_from (base + d.ticks_to_wakeup) task (ticks - d.ticks_to_wakeup) q)

-- Going to sleep for `ticks` ticks adds one entry with these ticks to the view, behind those that
-- wake up no later, and leaves the time of every other sleeper.
pub wakeups-insert_sleeper :
    (task ticks : ℕ) (q : List Sleeper)
    → wakeups 0 (insert_sleeper task ticks q)
      ≡ insert_wakeup (record { task = task; ticks = ticks }) (wakeups 0 q)
wakeups-insert_sleeper task ticks q = ground (arith, insert_sleeper_from 0 task ticks q)

sooner-wakeups : (base : ℕ) (q : List Sleeper) → map sooner (wakeups (1 + base) q) ≡ wakeups base q
unfolding wakeups sooner
sooner-wakeups base [] = refl
sooner-wakeups base (d ∷ q) = ground (arith, sooner-wakeups (base + d.ticks_to_wakeup) q)

-- A tick of the timer brings every sleeper one tick nearer to its time, not only the entry that it
-- changes; a time that has come stays 0.
pub wakeups-tick_sleepers :
    (q : List Sleeper) → wakeups 0 (tick_sleepers q) ≡ map sooner (wakeups 0 q)
unfolding wakeups tick_sleepers sooner
wakeups-tick_sleepers [] = refl
wakeups-tick_sleepers (d ∷ q) =
    ground (arith, wakeups-tick_sleepers q, sooner-wakeups (d.ticks_to_wakeup - 1) q)
