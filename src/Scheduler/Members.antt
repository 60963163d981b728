-- ===== src/Scheduler/Members.antt =====
-- Membership in the task queue and in the delta queue of source/kernel/scheduler.c and time.c.
use kernel_on_qemu.Prelude.{
  ℕ, ◌≡◌, refl, Bool, true, false, not, ◌&&◌, ◌||◌, List, [], ◌∷◌, ◌++◌, arith, ◌==◌,
}
use kernel_on_qemu.Tasks.{Sleeper}

unfoldable pub has : ℕ → List ℕ → Bool
has t [] = false
has t (u ∷ q) = t == u || has t q

unfoldable pub is_nodup : List ℕ → Bool
unfolding has
is_nodup [] = true
is_nodup (t ∷ q) = not (has t q) && is_nodup q

unfoldable pub sleeps : ℕ → List Sleeper → Bool
sleeps t [] = false
sleeps t (d ∷ q) = t == d.task || sleeps t q

pub has-append : (t u : ℕ) (q : List ℕ) → has t (q ++ (u ∷ [])) ≡ (has t q || t == u)
unfolding has
has-append t u [] = ground arith
has-append t u (v ∷ q) = ground (arith, has-append t u q)

pub is_nodup-append :
    (t : ℕ) (q : List ℕ) → is_nodup q ≡ true → has t q ≡ false → is_nodup (q ++ (t ∷ [])) ≡ true
unfolding is_nodup
is_nodup-append t [] n h = refl
is_nodup-append t (u ∷ q) n h = ground (arith, has-append u t q, is_nodup-append t q)
