-- ===== src/Kernel/Tasks/Tests.antt =====
-- Runs of the table of tasks, and its theorem at an input that meets its hypotheses.
use qaiosplus.Base.{◌≡◌, refl, [], ◌∷◌, some, arith}
use qaiosplus.Kernel.Tasks.{
  TaskManager, normal, high, sleeping, new_task, task_in, write_task, get_task, set_task_state,
  with_state,
}
use qaiosplus.Kernel.Tasks.Table.{Below, sets_state, call, after, call_refines}

abbrev two_tasks : TaskManager
two_tasks = record {
  tasks = new_task 1 [] 4096 normal ∷ new_task 2 (97 ∷ []) 8192 high ∷ [];
  next_id = 3;
  current_task_id = 0;
}

asleep_run :
    get_task (set_task_state two_tasks 2 sleeping) 2
    ≡ some (with_state sleeping (new_task 2 (97 ∷ []) 8192 high))
unfolding get_task set_task_state task_in write_task
asleep_run = refl

call_refines_example :
    (get_task (call two_tasks (sets_state 2 sleeping)) 2
      ≡ after (sets_state 2 sleeping) 3 0 (get_task two_tasks 2) 2)
    × Below
        (call two_tasks (sets_state 2 sleeping)).next_id
        (call two_tasks (sets_state 2 sleeping)).tasks
call_refines_example =
    call_refines two_tasks (sets_state 2 sleeping) 2 (omega arith, (omega arith, tt)) (omega arith)
