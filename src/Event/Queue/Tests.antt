-- ===== src/Event/Queue/Tests.antt =====
-- Runs of the event queue, and the theorems at inputs that meet their hypotheses.
use qaiosplus.Base.{
  ◌≤◌, ◌<◌, ◌⊎◌, false, true, ℕ, ◌≡◌, refl, true, [], ◌∷◌, arith, ◌==◌, if◌then◌else◌,
}
use qaiosplus.Event.{Event}
use qaiosplus.Event.Queue.{EventQueue, max_events, push, pop, peek, initialize, find_index, shift}
use qaiosplus.Event.Queue.Ring.{contents, IsValid, take_first, pop_refines}
use qaiosplus.Event.Queue.Order.{enqueue, sorted}
use qaiosplus.Event.Queue.Push.{push_refines}
use qaiosplus.Event.Queue.Run.{pushes, pops, run, run-initialize_in_order}

abbrev event : ℕ → ℕ → Event
event kind priority = record { kind = kind; category = 1; priority = priority; body = 0 }

-- A key event (High) and a timer event (Normal), round the end of the array.
abbrev wrapped : EventQueue
wrapped = record {
  events = λ i. if i == 255 then event 100 2 else event 200 1;
  head = 255;
  tail = 1;
  count = 2;
  initialized = true;
}

wrapped-IsValid : IsValid wrapped
wrapped-IsValid = record {
  started = refl;
  head_in = omega arith;
  count_in = omega arith;
  tail_at = omega arith;
}

contents-wrapped : contents wrapped ≡ event 100 2 ∷ event 200 1 ∷ []
contents-wrapped = refl

push_run : contents (push wrapped (event 101 2)).0 ≡ event 100 2 ∷ event 101 2 ∷ event 200 1 ∷ []
unfolding push find_index shift
push_run = refl

push_refines_example :
    ((max_events ≤ 2) × (push wrapped (event 101 2) ≡ (wrapped, false)))
    ⊎ ((2 < max_events)
        × IsValid (push wrapped (event 101 2)).0
        × (contents (push wrapped (event 101 2)).0 ≡ enqueue (event 101 2) (contents wrapped))
        × ((push wrapped (event 101 2)).1 ≡ true))
push_refines_example = push_refines wrapped (event 101 2) wrapped-IsValid

pop_refines_example :
    ((contents (pop wrapped).0, (pop wrapped).1) ≡ take_first (contents wrapped))
    × (peek wrapped ≡ (pop wrapped).1)
    × IsValid (pop wrapped).0
pop_refines_example = pop_refines wrapped wrapped-IsValid

run-initialize_in_order_example :
    IsValid (run (initialize wrapped) (pushes (event 200 1) ∷ pushes (event 100 2) ∷ pops ∷ []))
    × (sorted (
          contents
            (run (initialize wrapped) (pushes (event 200 1) ∷ pushes (event 100 2) ∷ pops ∷ [])))
        ≡ true)
run-initialize_in_order_example =
    run-initialize_in_order wrapped (pushes (event 200 1) ∷ pushes (event 100 2) ∷ pops ∷ [])

-- 256 timer events.
abbrev timers : EventQueue
timers = record { events = λ i. event 200 1; head = 0; tail = 0; count = 256; initialized = true }

timers-IsValid : IsValid timers
timers-IsValid = record {
  started = refl;
  head_in = omega arith;
  count_in = omega arith;
  tail_at = omega arith;
}
