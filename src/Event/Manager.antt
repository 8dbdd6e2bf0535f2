-- ===== src/Event/Manager.antt =====
-- The event manager, QEvent/src/QKEventManager.cpp: two queues, 64 slots for listeners and 64 for
-- receivers. A handler or a receiver is a number, 0 the null pointer. What they do is given from
-- outside by an `Env`: they may change the manager, and a state of their own of type `W`.
pub mod Dispatch
pub mod Drain
pub mod Process
pub mod Post
pub mod Slots
pub mod Removal
mod Tests
use qaiosplus.Base.{
  ℕ, zero, suc, ◌+◌, ◌-◌, ◌^◌, Bool, true, false, not, ◌&&◌, ◌||◌, Option, none, some, ltb, leb,
  ◌==◌, if◌then◌else◌, update, u64, u32, sub64, first_from,
}
use qaiosplus.Event.{Event, has_category, immediate}
use qaiosplus.Event.Queue
use qaiosplus.Event.Queue.{EventQueue}
use qaiosplus.Event.Immediate
use qaiosplus.Event.Immediate.{ImmediateQueue}

abbrev pub max_listeners : ℕ
max_listeners = 64

pub record Listener : Type 0 where
  pub id : ℕ
  pub event_type : ℕ
  pub category_mask : ℕ
  pub min_priority : ℕ
  pub handler : ℕ
  pub user_data : ℕ
  pub enabled : Bool

-- `EventListener()`.
abbrev pub default_listener : Listener
default_listener = record {
  id = 0;
  event_type = 0;
  category_mask = 255;
  min_priority = 0;
  handler = 0;
  user_data = 0;
  enabled = true;
}

pub record Manager : Type 0 where
  pub main : EventQueue
  pub urgent : ImmediateQueue
  pub listeners : ℕ → Listener
  pub listener_count : ℕ
  pub next_listener_id : ℕ
  pub receivers : ℕ → ℕ
  pub receiver_count : ℕ
  pub total_dispatched : ℕ
  pub total_dropped : ℕ
  pub initialized : Bool
  pub dispatching : Bool

pub initialize : Manager → Manager
initialize m = if m.initialized then m else record {
  main = Queue.initialize m.main;
  urgent = Immediate.initialize m.urgent;
  listeners = λ i. if ltb i max_listeners then default_listener else m.listeners i;
  listener_count = 0;
  next_listener_id = 1;
  receivers = λ i. if ltb i max_listeners then 0 else m.receivers i;
  receiver_count = 0;
  total_dispatched = 0;
  total_dropped = 0;
  initialized = true;
  dispatching = false;
}

pub clear_events : Manager → Manager
clear_events m = record m { main = Queue.clear m.main; urgent = Immediate.clear m.urgent }

pub shutdown : Manager → Manager
unfolding clear_events
shutdown m =
    if not m.initialized
    then m
    else record (clear_events m) { listener_count = 0; receiver_count = 0; initialized = false }

-- `postEvent`, one branch for each queue.
post_urgent : Manager → Event → Manager × Bool
post_urgent m e =
    let (q, pushed) = Immediate.push m.urgent e in
    if not pushed
    then (record m { total_dropped = u64 (m.total_dropped + 1) }, false)
    else (record m { urgent = q }, true)

post_main : Manager → Event → Manager × Bool
post_main m e =
    let (q, pushed) = Queue.push m.main e in
    if not pushed
    then (record m { total_dropped = u64 (m.total_dropped + 1) }, false)
    else (record m { main = q }, true)

pub post_event : Manager → Event → Manager × Bool
unfolding post_urgent post_main
post_event m e =
    if not m.initialized
    then (m, false)
    else if e.priority == immediate
    then post_urgent m e
    else post_main m e

pub clear_events_of_type : ℕ → Manager → Manager
clear_events_of_type kind m = record m { main = Queue.clear_type kind m.main }

pub has_pending_events : Manager → Bool
has_pending_events m = not (Queue.is_empty m.main) || not (Immediate.is_empty m.urgent)

pub pending_event_count : Manager → ℕ
pending_event_count m = m.main.count + (if Immediate.is_empty m.urgent then 0 else 1)

-- The new manager and the listener's id; 0 is failure.
pub add_listener : Manager → Listener → Manager × ℕ
add_listener m l =
    let placed : Manager × ℕ = elim (first_from max_listeners 0 (λ i. (m.listeners i).id == 0)) [
      | none ↦ (m, 0)
      | some i ↦ (
        record m {
          listeners = update m.listeners i (record l { id = m.next_listener_id });
          next_listener_id = u32 (m.next_listener_id + 1);
          listener_count = u64 (m.listener_count + 1);
        },
        m.next_listener_id,
      )
    ] in
    if not m.initialized || leb max_listeners m.listener_count then (m, 0) else placed

-- `0x80000000 | i` with `i` below 64.
pub add_receiver : Manager → ℕ → Manager × ℕ
add_receiver m r =
    let placed : Manager × ℕ = elim (first_from max_listeners 0 (λ i. m.receivers i == 0)) [
      | none ↦ (m, 0)
      | some i ↦ (
        record m {
          receivers = update m.receivers i r;
          receiver_count = u64 (m.receiver_count + 1);
        },
        2 ^ 31 + i,
      )
    ] in
    if not m.initialized || (r == 0) || leb max_listeners m.receiver_count then (m, 0) else placed

remove_receiver : Manager → ℕ → Manager
remove_receiver m i =
    if ltb i max_listeners && not (m.receivers i == 0)
    then record m { receivers = update m.receivers i 0; receiver_count = sub64 m.receiver_count 1 }
    else m

-- The 32-bit `id` has its high bit set when it is at least 2 ^ 31.
pub remove_listener : Manager → ℕ → Manager
unfolding remove_receiver
remove_listener m id =
    let dropped : Manager = elim (first_from max_listeners 0 (λ i. (m.listeners i).id == id)) [
      | none ↦ m
      | some i ↦ record m {
        listeners = update m.listeners i default_listener;
        listener_count = sub64 m.listener_count 1;
      }
    ] in
    if id == 0 then m else if leb (2 ^ 31) id then remove_receiver m (id - 2 ^ 31) else dropped

-- The loop of `removeListenersForHandler`: the rounds left, and the slot.
remove_handler_from : ℕ → ℕ → ℕ → Manager → Manager
remove_handler_from zero i handler m = m
remove_handler_from (suc n) i handler m = remove_handler_from n (i + 1) handler (
    if (m.listeners i).handler == handler
    then record m {
      listeners = update m.listeners i default_listener;
      listener_count = sub64 m.listener_count 1;
    }
    else m)

pub remove_listeners_for_handler : Manager → ℕ → Manager
unfolding remove_handler_from
remove_listeners_for_handler m handler = remove_handler_from max_listeners 0 handler m

-- The slot of a listener.
pub find_listener : Manager → ℕ → Option ℕ
find_listener m id =
    if (id == 0) || leb (2 ^ 31) id
    then none
    else first_from max_listeners 0 (λ i. (m.listeners i).id == id)

pub has_listener : Manager → ℕ → Bool
unfolding find_listener
has_listener m id = elim (find_listener m id) [ none ↦ false | some i ↦ true ]

pub set_listener_enabled : Manager → ℕ → Bool → Manager
unfolding find_listener
set_listener_enabled m id enabled = elim (find_listener m id) [
  | none ↦ m
  | some i ↦ record m {
    listeners = update m.listeners i (record (m.listeners i) { enabled = enabled });
  }
]

pub reset_stats : Manager → Manager
reset_stats m = record m { total_dispatched = 0; total_dropped = 0 }

-- What handlers and receivers do: the manager and the state that they leave, and whether the event is
-- consumed.
pub record Env (W : Type 0) : Type 0 where
  pub handle : ℕ → ℕ → Event → Manager × W → (Manager × W) × Bool
  pub receive : ℕ → Event → Manager × W → (Manager × W) × Bool
  pub is_enabled : ℕ → Manager × W → Bool
  pub event_mask : ℕ → ℕ

-- The filters of the loop over listeners.
pub listens : Event → Listener → Bool
listens e l =
    not ((l.id == 0) || not l.enabled)
    && not (not (l.event_type == 0) && not (l.event_type == e.kind))
    && has_category e.category l.category_mask
    && not (ltb e.priority l.min_priority)

-- The rounds left, the slot, and what is done at a slot; the loop ends where the event is consumed.
pub visit_from :
    {W : Type 0}
    → ℕ
    → ℕ
    → (ℕ → Manager × W → (Manager × W) × Bool)
    → Manager × W
    → (Manager × W) × Bool
visit_from zero i visit s = (s, false)
visit_from (suc n) i visit s =
    let (s', handled) = visit i s in
    let rest = visit_from n (i + 1) visit s' in if handled then (s', true) else rest

module _ {W : Type 0} (env : Env W) where
  visit_listener : Event → ℕ → Manager × W → (Manager × W) × Bool
  unfolding listens
  visit_listener e i s =
      let l = s.0.listeners i in
      if not (listens e l) || (l.handler == 0)
      then (s, false)
      else env.handle l.handler l.user_data e s

  visit_receiver : Event → ℕ → Manager × W → (Manager × W) × Bool
  visit_receiver e i s =
      let r = s.0.receivers i in
      if (r == 0) || not (env.is_enabled r s) || not (has_category e.category (env.event_mask r))
      then (s, false)
      else env.receive r e s

  pub dispatch_event : Event → Manager × W → Manager × W
  unfolding visit_listener visit_receiver visit_from
  dispatch_event e (m, w) =
      let counted : Manager × W =
        (record m { total_dispatched = u64 (m.total_dispatched + 1) }, w) in
      let (s, handled) = visit_from max_listeners 0 (visit_listener e) counted in
      let (s', ended) = visit_from max_listeners 0 (visit_receiver e) s in if handled then s else s'

  pub dispatch_immediate : Event → Manager × W → Manager × W
  unfolding dispatch_event
  dispatch_immediate e s = if not s.0.initialized then s else dispatch_event e s

  -- The two loops of `processEvents`, on fuel: handlers may post without end. The number counts the
  -- events processed.
  pub process_urgent : ℕ → Manager × W → ℕ → Option ((Manager × W) × ℕ)
  process_urgent zero s processed = none
  process_urgent (suc fuel) s processed = elim (Immediate.pop s.0.urgent).1 [
    | none ↦ some (s, processed)
    | some e ↦
        let taken : Manager × W = (record s.0 { urgent = (Immediate.pop s.0.urgent).0 }, s.1) in
        process_urgent fuel (dispatch_event e taken) (u64 (processed + 1))
  ]

  pub process_main : ℕ → ℕ → Manager × W → ℕ → Option ((Manager × W) × ℕ)
  process_main zero max s processed = none
  process_main (suc fuel) max s processed = elim (Queue.pop s.0.main).1 [
    | none ↦ some (s, processed)
    | some e ↦
        let taken : Manager × W = (record s.0 { main = (Queue.pop s.0.main).0 }, s.1) in
        let done = dispatch_event e taken in
        let rest = process_main fuel max done (u64 (processed + 1)) in
        if ltb 0 max && leb max (u64 (processed + 1))
        then some (done, u64 (processed + 1))
        else rest
  ]

  end_dispatch : Option ((Manager × W) × ℕ) → Option ((Manager × W) × ℕ)
  end_dispatch none = none
  end_dispatch (some ((m, w), n)) = some ((record m { dispatching = false }, w), n)

  pub process_events : ℕ → ℕ → Manager × W → Option ((Manager × W) × ℕ)
  unfolding end_dispatch
  process_events fuel max (m, w) =
      let ended : Option ((Manager × W) × ℕ) =
        elim (process_urgent fuel (record m { dispatching = true }, w) 0) [
          | none ↦ none
          | some (s, n) ↦ process_main fuel max s n
        ] in
      if not m.initialized || m.dispatching then some ((m, w), 0) else end_dispatch ended
