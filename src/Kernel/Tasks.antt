-- ===== src/Kernel/Tasks.antt =====
-- The table of tasks, QKernel/src/QKTaskManager.cpp. Of the context of a task the fields that are set
-- are kept; all others are 0. `yield` has no body.
pub mod Table
mod Tests
use qaiosplus.Base.{
  ℕ, zero, suc, ◌+◌, Bool, true, false, List, [], ◌∷◌, ◌++◌, Option, none, some, ◌==◌,
  if◌then◌else◌, u32, take,
}

pub data TaskState : Type 0 where
  created ready running blocked sleeping terminated : TaskState

pub data TaskPriority : Type 0 where
  idle low normal high realtime : TaskPriority

pub record Task : Type 0 where
  pub id : ℕ
  pub name : List ℕ
  pub state : TaskState
  pub priority : TaskPriority
  pub stack_size : ℕ
  pub rip : ℕ
  pub rflags : ℕ
  pub cs : ℕ
  pub ss : ℕ

pub record TaskManager : Type 0 where
  pub tasks : List Task
  pub next_id : ℕ
  pub current_task_id : ℕ

abbrev pub new_task : ℕ → List ℕ → ℕ → TaskPriority → Task
new_task id name entry priority = record {
  id = id;
  name = take 63 name;
  state = created;
  priority = priority;
  stack_size = 16384;
  rip = entry;
  rflags = 514;
  cs = 8;
  ss = 16;
}

unfoldable pub create_task : TaskManager → List ℕ → ℕ → TaskPriority → TaskManager × ℕ
create_task m name entry priority = (
  record m {
    tasks = m.tasks ++ (new_task m.next_id name entry priority ∷ []);
    next_id = u32 (m.next_id + 1);
  },
  m.next_id,
)

-- The search of `getTask`.
unfoldable pub task_in : List Task → ℕ → Option Task
task_in [] id = none
task_in (t ∷ ts) id = let rest = task_in ts id in if t.id == id then some t else rest

unfoldable pub get_task : TaskManager → ℕ → Option Task
get_task m id = task_in m.tasks id

unfoldable pub get_current_task : TaskManager → Option Task
get_current_task m = get_task m m.current_task_id

-- A write to the task that `getTask` finds.
unfoldable pub write_task : (Task → Task) → List Task → ℕ → List Task
write_task f [] id = []
write_task f (t ∷ ts) id =
    let rest = write_task f ts id in if t.id == id then f t ∷ ts else t ∷ rest

abbrev pub with_state : TaskState → Task → Task
with_state state t = record t { state = state }

abbrev pub with_priority : TaskPriority → Task → Task
with_priority priority t = record t { priority = priority }

unfoldable pub set_task_state : TaskManager → ℕ → TaskState → TaskManager
set_task_state m id state = record m { tasks = write_task (with_state state) m.tasks id }

unfoldable pub set_task_priority : TaskManager → ℕ → TaskPriority → TaskManager
set_task_priority m id priority = record m {
  tasks = write_task (with_priority priority) m.tasks id;
}

unfoldable pub destroy_task : TaskManager → ℕ → TaskManager
destroy_task m id = record m { tasks = write_task (with_state terminated) m.tasks id }

unfoldable pub sleep : TaskManager → ℕ → TaskManager
sleep m milliseconds = record m {
  tasks = write_task (with_state sleeping) m.tasks m.current_task_id;
}

unfoldable pub exit : TaskManager → TaskManager
exit m = record m { tasks = write_task (with_state terminated) m.tasks m.current_task_id }
