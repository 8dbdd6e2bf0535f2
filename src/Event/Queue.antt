-- ===== src/Event/Queue.antt =====
-- The event queue of QEvent/src/QKEventQueue.cpp, a ring of 256 events. The array is a function of
-- the index. A call returns its result beside the new queue.
pub mod Ring
pub mod Order
pub mod Push
pub mod Clear
pub mod Run
mod Tests
use qaiosplus.Base.{
  ℕ, zero, suc, ◌+◌, ◌-◌, ◌%◌, Bool, true, false, not, ◌||◌, List, [], ◌∷◌, Option, none, some, ltb,
  leb, ◌==◌, if◌then◌else◌, update, length,
}
use qaiosplus.Event.{Event, has_category}

abbrev pub max_events : ℕ
max_events = 256

pub record EventQueue : Type 0 where
  pub events : ℕ → Event
  pub head : ℕ
  pub tail : ℕ
  pub count : ℕ
  pub initialized : Bool

pub initialize : EventQueue → EventQueue
initialize q = record q { head = 0; tail = 0; count = 0; initialized = true }

pub is_empty : EventQueue → Bool
is_empty q = q.count == 0

pub is_full : EventQueue → Bool
is_full q = leb max_events q.count

-- The loop of `findInsertIndex`: the rounds left, and `current`.
pub find_index : ℕ → ℕ → EventQueue → ℕ → ℕ
find_index zero current q priority = q.tail
find_index (suc n) current q priority =
    let rest = find_index n ((current + 1) % max_events) q priority in
    if ltb (q.events current).priority priority then current else rest

find_insert_index : EventQueue → ℕ → ℕ
unfolding find_index
find_insert_index q priority = find_index q.count q.head q priority

-- The loop of `push` that moves the events from `index` on up to the free cell at `current`. It has
-- fewer than 256 rounds to make.
pub shift : ℕ → ℕ → ℕ → (ℕ → Event) → ℕ → Event
shift zero current index events = events
shift (suc fuel) current index events =
    let prev = if current == 0 then max_events - 1 else current - 1 in
    let rest = shift fuel prev index (update events current (events prev)) in
    if current == index then events else rest

push_at : EventQueue → Event → ℕ → (ℕ → Event) → EventQueue
push_at q e index events = record q {
  events = update events index e;
  tail = (q.tail + 1) % max_events;
  count = q.count + 1;
}

-- The branch of `push` for high priorities.
insert_at : EventQueue → Event → ℕ → EventQueue
unfolding push_at
insert_at q e index =
    push_at q e index (if index == q.tail then q.events else shift max_events q.tail index q.events)

pub push : EventQueue → Event → EventQueue × Bool
unfolding is_full push_at insert_at find_insert_index
push q e =
    if not q.initialized || is_full q
    then (q, false)
    else if (q.count == 0) || leb e.priority 1
    then (push_at q e q.tail q.events, true)
    else (insert_at q e (find_insert_index q e.priority), true)

pub pop : EventQueue → EventQueue × Option Event
unfolding is_empty
pop q = if not q.initialized || is_empty q then (q, none) else (
  record q { head = (q.head + 1) % max_events; count = q.count - 1 },
  some (q.events q.head),
)

pub peek : EventQueue → Option Event
unfolding is_empty
peek q = if not q.initialized || is_empty q then none else some (q.events q.head)

pub clear : EventQueue → EventQueue
clear q = record q { head = 0; tail = 0; count = 0 }

-- The first loop of `clearType` and `clearCategory`: the events that stay, in `tempEvents`.
pub gather : ℕ → ℕ → (ℕ → Event) → (Event → Bool) → List Event
gather zero current events stays = []
gather (suc n) current events stays =
    let rest = gather n ((current + 1) % max_events) events stays in
    if stays (events current) then events current ∷ rest else rest

-- The second loop: `tempEvents` is copied back from index `i` on.
pub copy_back : ℕ → List Event → (ℕ → Event) → ℕ → Event
copy_back i [] events = events
copy_back i (e ∷ es) events = copy_back (i + 1) es (update events i e)

retain : (Event → Bool) → EventQueue → EventQueue
unfolding is_empty
retain stays q =
    let temp = gather q.count q.head q.events stays in
    if not q.initialized || is_empty q then q else record q {
      head = 0;
      tail = length temp;
      count = length temp;
      events = copy_back 0 temp q.events;
    }

pub clear_type : ℕ → EventQueue → EventQueue
unfolding retain
clear_type kind q = retain (λ e. not (e.kind == kind)) q

pub clear_category : ℕ → EventQueue → EventQueue
unfolding retain
clear_category category q = retain (λ e. not (has_category e.category category)) q
