-- ===== src/Kernel/Tasks/Table.antt =====
-- The table of tasks as a map from identifiers to tasks.
use qaiosplus.Base.{
  ℕ, ◌+◌, ◌^◌, ◌<◌, ◌≡◌, refl, ap, sym, ◌∙◌, true, false, List, [], ◌∷◌, ◌++◌, Option, none, some,
  ◌==◌, if◌then◌else◌, u32, Bool-cases, inl, inr, ==→eq, eq→==, ne→==-false, ==-false→ne, arith,
}
use qaiosplus.Kernel.Tasks.{
  Task, TaskState, TaskPriority, TaskManager, sleeping, terminated, new_task, create_task, task_in,
  get_task, write_task, with_state, with_priority, set_task_state, set_task_priority, destroy_task,
  sleep, exit,
}

-- All identifiers are below the bound.
abbrev pub Below : ℕ → List Task → Type 0
Below n [] = Unit {0}
Below n (t ∷ ts) = (t.id < n) × Below n ts

pub data Call : Type 0 where
  creates : List ℕ → ℕ → TaskPriority → Call
  destroys : ℕ → Call
  sets_state : ℕ → TaskState → Call
  sets_priority : ℕ → TaskPriority → Call
  sleeps : ℕ → Call
  exits : Call

unfoldable pub call : TaskManager → Call → TaskManager
call m (creates name entry priority) = (create_task m name entry priority).0
call m (destroys id) = destroy_task m id
call m (sets_state id state) = set_task_state m id state
call m (sets_priority id priority) = set_task_priority m id priority
call m (sleeps milliseconds) = sleep m milliseconds
call m exits = exit m

abbrev pub changed : (Task → Task) → ℕ → Option Task → ℕ → Option Task
changed f id old j = if j == id then elim old [ none ↦ none | some t ↦ some (f t) ] else old

-- What a call makes of the task of an identifier: a new task under the next identifier, or a change
-- of the task of one identifier.
unfoldable pub after : Call → ℕ → ℕ → Option Task → ℕ → Option Task
after (creates name entry priority) next current old j =
    if j == next then some (new_task next name entry priority) else old
after (destroys id) next current old j = changed (with_state terminated) id old j
after (sets_state id state) next current old j = changed (with_state state) id old j
after (sets_priority id priority) next current old j = changed (with_priority priority) id old j
after (sleeps milliseconds) next current old j = changed (with_state sleeping) current old j
after exits next current old j = changed (with_state terminated) current old j

task_in-append :
    (ts : List Task) (n : ℕ) (t : Task) (j : ℕ)
    → Below n ts
    → t.id ≡ n
    → task_in (ts ++ (t ∷ [])) j ≡ (if j == n then some t else task_in ts j)
unfolding task_in
task_in-append [] n t j b e = elim (Bool-cases (j == n)) [
  | inl same ↦ rw (same, eq→== t.id j (e ∙ sym (==→eq j n same))) refl
  | inr other ↦ rw (other, ne→==-false t.id j (λ h. ==-false→ne j n other (sym h ∙ e))) refl
]
task_in-append (x ∷ ts) n t j b e = elim (Bool-cases (x.id == j)) [
  | inl here ↦
      let other : (j == n) ≡ false = ne→==-false j n (omega (arith, ==→eq x.id j here, b.0)) in
      rw (here, other) refl
  | inr there ↦ rw (task_in-append ts n t j b.1 e, there) refl
]

task_in-write_task :
    (f : Task → Task) (ts : List Task) (id j : ℕ)
    → ((t : Task) → (f t).id ≡ t.id)
    → task_in (write_task f ts id) j ≡ changed f id (task_in ts j) j
unfolding task_in write_task
task_in-write_task f [] id j keeps = ground arith
task_in-write_task f (t ∷ ts) id j keeps = elim (Bool-cases (t.id == id)) [
  | inl here ↦ elim (Bool-cases (t.id == j)) [
    | inl both ↦
        let same : (j == id) ≡ true = eq→== j id (sym (==→eq t.id j both) ∙ ==→eq t.id id here) in
        rw (here, ap (λ x. x == j) (keeps t) ∙ both, both, same) refl
    | inr other ↦
        let apart : (j == id) ≡ false =
          ne→==-false j id (λ h. ==-false→ne t.id j other (==→eq t.id id here ∙ sym h)) in
        rw (here, ap (λ x. x == j) (keeps t) ∙ other, other, apart) refl
  ]
  | inr there ↦ elim (Bool-cases (t.id == j)) [
    | inl both ↦
        let apart : (j == id) ≡ false =
          ne→==-false j id (λ h. ==-false→ne t.id id there (==→eq t.id j both ∙ h)) in
        rw (there, both, apart) refl
    | inr other ↦ rw (there, other) (task_in-write_task f ts id j keeps)
  ]
]

Below-write_task :
    (f : Task → Task) (ts : List Task) (id n : ℕ)
    → ((t : Task) → (f t).id ≡ t.id)
    → Below n ts
    → Below n (write_task f ts id)
unfolding write_task
Below-write_task f [] id n keeps b = b
Below-write_task f (t ∷ ts) id n keeps b = elim (Bool-cases (t.id == id)) [
  | inl here ↦ rw (write_task, here) (omega (arith, keeps t, b.0), b.1)
  | inr there ↦ rw (write_task, there) (b.0, Below-write_task f ts id n keeps b.1)
]

Below-append :
    (ts : List Task) (t : Task) (n : ℕ) → Below n ts → t.id ≡ n → Below (n + 1) (ts ++ (t ∷ []))
Below-append [] t n b e = (omega (arith, e), tt)
Below-append (x ∷ ts) t n b e = (omega (arith, b.0), Below-append ts t n b.1 e)

-- Where all identifiers are below the next one and that is below the last number of 32 bits, every
-- call does to the map from identifiers to tasks what it should: a new task under the next
-- identifier, or a change of the task of one identifier and of no other. All identifiers stay below
-- the next one.
pub call_refines :
    (m : TaskManager) (c : Call) (j : ℕ)
    → Below m.next_id m.tasks
    → m.next_id + 1 < 2 ^ 32
    → (get_task (call m c) j ≡ after c m.next_id m.current_task_id (get_task m j) j)
      × Below (call m c).next_id (call m c).tasks
unfolding call after get_task create_task destroy_task set_task_state set_task_priority sleep exit
call_refines m (creates name entry priority) j b small =
    let t = new_task m.next_id name entry priority in
    let next : u32 (m.next_id + 1) ≡ m.next_id + 1 = omega (arith, small) in
    (task_in-append m.tasks m.next_id t j b refl, rw next (Below-append m.tasks t m.next_id b refl))
call_refines m (destroys id) j b small = (
  task_in-write_task (with_state terminated) m.tasks id j (λ t. refl),
  Below-write_task (with_state terminated) m.tasks id m.next_id (λ t. refl) b,
)
call_refines m (sets_state id state) j b small = (
  task_in-write_task (with_state state) m.tasks id j (λ t. refl),
  Below-write_task (with_state state) m.tasks id m.next_id (λ t. refl) b,
)
call_refines m (sets_priority id priority) j b small = (
  task_in-write_task (with_priority priority) m.tasks id j (λ t. refl),
  Below-write_task (with_priority priority) m.tasks id m.next_id (λ t. refl) b,
)
call_refines m (sleeps milliseconds) j b small = (
  task_in-write_task (with_state sleeping) m.tasks m.current_task_id j (λ t. refl),
  Below-write_task (with_state sleeping) m.tasks m.current_task_id m.next_id (λ t. refl) b,
)
call_refines m exits j b small = (
  task_in-write_task (with_state terminated) m.tasks m.current_task_id j (λ t. refl),
  Below-write_task (with_state terminated) m.tasks m.current_task_id m.next_id (λ t. refl) b,
)
