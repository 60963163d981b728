-- ===== src/Delta/Due.antt =====
-- When a sleeper's time comes: what `sleep` of source/kernel/time.c puts into the delta queue, after
-- some ticks.
use kernel_on_qemu.Prelude.{
  ℕ, zero, suc, ◌+◌, ◌≡◌, refl, Bool, false, ◌&&◌, ◌||◌, List, [], ◌∷◌, map, arith, leb, ◌==◌,
}
use kernel_on_qemu.Tasks.{Sleeper}
use kernel_on_qemu.Delta.{insert_sleeper, tick_sleepers}
use kernel_on_qemu.Delta.Wakeups.{
  Wakeup, wakeups, insert_wakeup, sooner, wakeups-insert_sleeper, wakeups-tick_sleepers,
}

-- Is there an entry of the task `t` that wakes up within `n` ticks?
unfoldable pub within : ℕ → ℕ → List Wakeup → Bool
within t n [] = false
within t n (w ∷ ws) = (t == w.task && leb w.ticks n) || within t n ws

unfoldable pub tick_times : ℕ → List Sleeper → List Sleeper
tick_times zero q = q
tick_times (suc k) q = tick_times k (tick_sleepers q)

within-insert_wakeup :
    (t n : ℕ) (w : Wakeup) (ws : List Wakeup)
    → within t n (insert_wakeup w ws) ≡ ((t == w.task && leb w.ticks n) || within t n ws)
unfolding within insert_wakeup
within-insert_wakeup t n w [] = refl
within-insert_wakeup t n w (v ∷ ws) = ground (arith, within-insert_wakeup t n w ws)

within-sooner : (t n : ℕ) (ws : List Wakeup) → within t n (map sooner ws) ≡ within t (suc n) ws
unfolding within sooner
within-sooner t n [] = refl
within-sooner t n (w ∷ ws) = ground (arith, within-sooner t n ws)

within-tick_times :
    (k t n : ℕ) (q : List Sleeper)
    → within t n (wakeups 0 (tick_times k q)) ≡ within t (n + k) (wakeups 0 q)
unfolding tick_times
within-tick_times zero t n q = ground arith
within-tick_times (suc k) t n q = ground (
  arith,
  within-tick_times k t n (tick_sleepers q),
  wakeups-tick_sleepers q,
  within-sooner t (n + k) (wakeups 0 q),
)

-- After `k` ticks the time of a task has come exactly if it had gone to sleep for at most `k` ticks,
-- or was to wake up within `k` ticks before: nobody wakes up late or early because of the others.
pub within-insert_sleeper :
    (k t task ticks : ℕ) (q : List Sleeper)
    → within t 0 (wakeups 0 (tick_times k (insert_sleeper task ticks q)))
      ≡ ((t == task && leb ticks k) || within t k (wakeups 0 q))
within-insert_sleeper k t task ticks q = ground (
  arith,
  within-tick_times k t 0 (insert_sleeper task ticks q),
  wakeups-insert_sleeper task ticks q,
  within-insert_wakeup t k (record { task = task; ticks = ticks }) (wakeups 0 q),
)

pub not_within_later :
    (t : ℕ) (base : ℕ) (q : List Sleeper) → within t 0 (wakeups (suc base) q) ≡ false
unfolding within wakeups
not_within_later t base [] = refl
not_within_later t base (d ∷ q) = ground (arith, not_within_later t (base + d.ticks_to_wakeup) q)
