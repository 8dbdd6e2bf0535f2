-- ===== src/Event/Manager/Tests.antt =====
-- Runs of the event manager, and the theorems at inputs that meet their hypotheses.
use qaiosplus.Base.{
  ℕ, ◌+◌, ◌<◌, ◌≡◌, refl, true, false, List, [], ◌∷◌, arith, ◌==◌, if◌then◌else◌, u64, first_from,
}
use qaiosplus.Event.{Event}
use qaiosplus.Event.Queue.Ring.{IsValid}
use qaiosplus.Event.Immediate.Ring.{IsSound}
use qaiosplus.Event.Manager.{
  Manager, Listener, default_listener, max_listeners, add_listener, remove_listener, dispatch_event,
}
use qaiosplus.Event.Manager.Slots.{IsTable, count_used}
use qaiosplus.Event.Manager.Removal.{remove_listener-add_listener}
use qaiosplus.Event.Manager.Dispatch.{Reactions, quiet, offer, dispatch_event-quiet}
use qaiosplus.Event.Manager.Process.{Processes, process_events-Processes}

abbrev event : ℕ → ℕ → Event
event kind priority = record { kind = kind; category = 1; priority = priority; body = kind }

abbrev blank : Event
blank = event 0 0

abbrev listener : Listener
listener = record {
  id = 1;
  event_type = 0;
  category_mask = 255;
  min_priority = 0;
  handler = 3;
  user_data = 9;
  enabled = true;
}

-- One listener of every event, one receiver, one immediate event, and two in the main queue.
abbrev manager : Manager
manager = record {
  main = record {
    events = λ i. if i == 0 then event 100 2 else event 110 1;
    head = 0;
    tail = 2;
    count = 2;
    initialized = true;
  };
  urgent = record { events = λ i. event 230 4; head = 15; tail = 0; count = 1; initialized = true };
  listeners = λ i. if i == 0 then listener else default_listener;
  listener_count = 1;
  next_listener_id = 2;
  receivers = λ i. if i == 4 then 7 else 0;
  receiver_count = 1;
  total_dispatched = 0;
  total_dropped = 0;
  initialized = true;
  dispatching = false;
}

-- Each call is noted; the handler consumes the events of type 110.
abbrev noting : Reactions (List ℕ)
noting = record {
  handle = λ h d e w. ((h + e.kind) ∷ w, e.kind == 110);
  receive = λ p e w. ((p + e.kind) ∷ w, false);
  is_enabled = λ p. true;
  event_mask = λ p. 255;
}

main-IsValid : IsValid manager.main
main-IsValid = record {
  started = refl;
  head_in = omega arith;
  count_in = omega arith;
  tail_at = refl;
}

urgent-IsSound : IsSound manager.urgent
urgent-IsSound = record {
  started = refl;
  head_in = omega arith;
  count_in = omega arith;
  tail_at = refl;
}

manager-IsTable : IsTable manager
unfolding count_used
manager-IsTable = record {
  small = omega arith;
  positive = omega arith;
  fresh = λ i b. ground arith;
  distinct = λ i j b c u same. ground arith;
  count = refl;
}

dispatch_event-quiet_example : dispatch_event (quiet noting) (event 100 2) (manager, []) ≡ (
  record manager { total_dispatched = u64 (0 + 1) },
  offer noting manager.listeners manager.receivers (event 100 2) [],
)
dispatch_event-quiet_example = dispatch_event-quiet noting (event 100 2) manager []

process_events-Processes_example : Processes noting 3 2 manager []
process_events-Processes_example =
    process_events-Processes noting 3 2 manager [] refl refl urgent-IsSound main-IsValid
      (omega arith) (omega arith) (omega arith) (omega arith)

add_listener_run : (add_listener manager listener).1 ≡ 2
unfolding add_listener first_from
add_listener_run = refl

abbrev again : Manager
again = remove_listener (add_listener manager listener).0 (add_listener manager listener).1

remove_listener-add_listener_example :
    ((i : ℕ)
      → i < max_listeners
      → (again.listeners i
          ≡ (if (manager.listeners i).id == 0 then again.listeners i else manager.listeners i))
        × ((again.listeners i).id ≡ (manager.listeners i).id))
    × (again.listener_count ≡ 1)
remove_listener-add_listener_example =
    remove_listener-add_listener manager listener manager-IsTable
      (rw add_listener_run (omega arith))

abbrev bare : Manager
bare = record manager { listeners = λ i. default_listener; listener_count = 0 }
