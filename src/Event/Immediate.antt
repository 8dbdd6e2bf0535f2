-- ===== src/Event/Immediate.antt =====
-- The ring of 16 events of class ImmediateQueue, QEvent/src/QKEventQueue.cpp.
pub mod Ring
use qaiosplus.Base.{
  ℕ, ◌+◌, ◌-◌, ◌%◌, Bool, true, false, not, ◌||◌, Option, none, some, leb, ◌==◌, if◌then◌else◌,
  update,
}
use qaiosplus.Event.{Event}

abbrev pub max_events : ℕ
max_events = 16

pub record ImmediateQueue : Type 0 where
  pub events : ℕ → Event
  pub head : ℕ
  pub tail : ℕ
  pub count : ℕ
  pub initialized : Bool

pub initialize : ImmediateQueue → ImmediateQueue
initialize q = record q { head = 0; tail = 0; count = 0; initialized = true }

pub is_empty : ImmediateQueue → Bool
is_empty q = q.count == 0

pub push : ImmediateQueue → Event → ImmediateQueue × Bool
push q e = if not q.initialized || leb max_events q.count then (q, false) else (
  record q {
    events = update q.events q.tail e;
    tail = (q.tail + 1) % max_events;
    count = q.count + 1;
  },
  true,
)

pub pop : ImmediateQueue → ImmediateQueue × Option Event
pop q = if not q.initialized || (q.count == 0) then (q, none) else (
  record q { head = (q.head + 1) % max_events; count = q.count - 1 },
  some (q.events q.head),
)

pub clear : ImmediateQueue → ImmediateQueue
clear q = record q { head = 0; tail = 0; count = 0 }
