-- ===== src/Kernel/Scheduler/Ticks.antt =====
-- What the ticks of the timer do to the scheduler and the tasks.
use qaiosplus.Base.{ℕ, zero, suc, ◌+◌, ◌^◌, ◌<◌, ◌≡◌, refl, leb, u32, Bool-cases, inl, inr, arith}
use qaiosplus.Kernel.Tasks.{TaskManager}
use qaiosplus.Kernel.Scheduler.{Scheduler, select_next_task, schedule, timer_tick}

-- No task is ever selected, so that the table stays as it is.
pub schedule_idle : (s : Scheduler) (m : TaskManager) → schedule s m ≡ m
unfolding schedule select_next_task
schedule_idle s m = ground arith

unfoldable pub ticks : ℕ → Scheduler → TaskManager → Scheduler × TaskManager
ticks zero s m = (s, m)
ticks (suc n) s m = let (s', m') = timer_tick s m in ticks n s' m'

-- Any number of ticks leaves the tasks as they are, and the count of ticks below the time slice.
pub ticks_idle :
    (n : ℕ) (s : Scheduler) (m : TaskManager)
    → s.tick_count < s.time_slice
    → s.time_slice < 2 ^ 32
    → ((ticks n s m).1 ≡ m)
      × ((ticks n s m).0.tick_count < s.time_slice)
      × ((ticks n s m).0.time_slice ≡ s.time_slice)
unfolding ticks timer_tick
ticks_idle zero s m below small = (refl, below, refl)
ticks_idle (suc n) s m below small = elim (Bool-cases (leb s.time_slice (u32 (s.tick_count + 1)))) [
  | inl over ↦
      let rest = ticks_idle n (record s { tick_count = 0 }) m (omega (arith, below)) small in
      rw (ticks, timer_tick, over, schedule_idle s m) rest
  | inr more ↦
      let count : u32 (s.tick_count + 1) < s.time_slice = ground (arith, more) in
      let rest = ticks_idle n (record s { tick_count = u32 (s.tick_count + 1) }) m count small in
      rw (ticks, timer_tick, more) rest
]
