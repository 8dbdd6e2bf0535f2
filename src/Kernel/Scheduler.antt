-- ===== src/Kernel/Scheduler.antt =====
-- The scheduler, QKernel/src/QKScheduler.cpp, over the table of tasks. A switch of contexts is its
-- change of the two tasks' states: the source does no more yet.
pub mod Ticks
use qaiosplus.Base.{
  ℕ, ◌+◌, Bool, true, false, not, ◌&&◌, List, Option, none, some, leb, ◌==◌, if◌then◌else◌, u32,
}
use qaiosplus.Kernel.Tasks.{
  TaskManager, Task, TaskState, ready, running, blocked, terminated, get_task, get_current_task,
  set_task_state,
}

pub data SchedulerPolicy : Type 0 where
  round_robin by_priority multilevel : SchedulerPolicy

pub record Scheduler : Type 0 where
  pub policy : SchedulerPolicy
  pub time_slice : ℕ
  pub running_now : Bool
  pub tick_count : ℕ

pub initialize : Scheduler → Scheduler
initialize s = record s { tick_count = 0 }

pub start : Scheduler → Scheduler
start s = record s { running_now = true }

pub stop : Scheduler → Scheduler
stop s = record s { running_now = false }

pub set_policy : Scheduler → SchedulerPolicy → Scheduler
set_policy s policy = record s { policy = policy }

pub set_time_slice : Scheduler → ℕ → Scheduler
set_time_slice s milliseconds = record s { time_slice = milliseconds }

-- A placeholder in the source as well.
pub select_next_task : Scheduler → TaskManager → ℕ
select_next_task s m = 0

context_switch : TaskManager → Task → Task → TaskManager
context_switch m from to = set_task_state (set_task_state m from.id ready) to.id running

unfoldable pub switch : TaskManager → Option Task → Option Task → TaskManager
unfolding context_switch
switch m (some current) (some next) =
    if current.id == next.id then m else context_switch m current next
switch m (some current) none = m
switch m none next = m

unfoldable pub schedule : Scheduler → TaskManager → TaskManager
unfolding select_next_task
schedule s m =
    let next = select_next_task s m in
    if not s.running_now
    then m
    else (if next == 0 then m else switch m (get_current_task m) (get_task m next))

unfoldable pub timer_tick : Scheduler → TaskManager → Scheduler × TaskManager
timer_tick s m =
    let count = u32 (s.tick_count + 1) in
    if leb s.time_slice count
    then (record s { tick_count = 0 }, schedule s m)
    else (record s { tick_count = count }, m)

pub add_task : TaskManager → ℕ → TaskManager
add_task m id = set_task_state m id ready

pub remove_task : TaskManager → ℕ → TaskManager
remove_task m id = set_task_state m id terminated

pub block_task : TaskManager → ℕ → TaskManager
block_task m id = set_task_state m id blocked

pub unblock_task : TaskManager → ℕ → TaskManager
unblock_task m id = set_task_state m id ready
