-- ===== src/Event/Queue/Ring.antt =====
-- The queue as a list: what the ring holds, and the laws of one cell.
use qaiosplus.Base.{
  ℕ, suc, ◌+◌, ◌-◌, ◌%◌, ◌≤◌, ◌<◌, ◌≡◌, ap, ◌∙◌, true, List, [], ◌∷◌, Option, none, some, arith,
  ◌==◌, if◌then◌else◌, update, length, tabulate, tabulate_ext, length-tabulate, Bool-cases, inl,
  inr, eq→==, ne→==-false, ==→eq, ==-false→ne, ◌≢◌,
}
use qaiosplus.Event.{Event}
use qaiosplus.Event.Queue.{EventQueue, max_events, pop, peek}

-- The entry at distance `i` from the head.
abbrev pub at_distance : (ℕ → Event) → ℕ → ℕ → Event
at_distance events head i = events ((head + i) % max_events)

-- What the queue holds, the oldest first.
abbrev pub contents : EventQueue → List Event
contents q = tabulate (at_distance q.events q.head) q.count

pub record IsValid (q : EventQueue) : Type 0 where
  pub started : q.initialized ≡ true
  pub head_in : q.head < max_events
  pub count_in : q.count ≤ max_events
  pub tail_at : q.tail ≡ (q.head + q.count) % max_events

-- A write at one distance is seen at that distance alone.
pub at_distance-update :
    (events : ℕ → Event) (head c x : ℕ) (e : Event)
    → c < max_events
    → x < max_events
    → at_distance (update events ((head + c) % max_events) e) head x
      ≡ (if x == c then e else at_distance events head x)
at_distance-update events head c x e hc hx = ground arith

pub length-contents : (q : EventQueue) → length (contents q) ≡ q.count
length-contents q = length-tabulate (at_distance q.events q.head) q.count

-- The abstract queue: a list of at most 256 events.
abbrev pub take_first : List Event → List Event × Option Event
take_first [] = ([], none)
take_first (e ∷ es) = (es, some e)

step_events :
    (events : ℕ → Event) (head i : ℕ)
    → at_distance events head (suc i) ≡ at_distance events ((head + 1) % max_events) i
step_events events head i =
    let same : (head + suc i) % 256 ≡ ((head + 1) % 256 + i) % 256 = omega arith in ap events same

contents_step :
    (events : ℕ → Event) (head n : ℕ)
    → head < max_events
    → tabulate (at_distance events head) (suc n)
      ≡ events head ∷ tabulate (at_distance events ((head + 1) % max_events)) n
contents_step events head n h =
    let first : (head + 0) % 256 ≡ head = omega arith in
    rw (
      ap events first,
      tabulate_ext (λ i. at_distance events head (suc i)) (at_distance events ((head + 1) % 256)) n
          (λ i l. step_events events head i),
    )

pop_empty : (q : EventQueue) → IsValid q → q.count ≡ 0 → pop q ≡ (q, none)
unfolding pop
pop_empty q v e = rw (v.started, pop, eq→== q.count 0 e)

pop_rest :
    (q : EventQueue)
    → IsValid q
    → q.count ≢ 0
    → pop q
      ≡ (record q { head = (q.head + 1) % max_events; count = q.count - 1 }, some (q.events q.head))
unfolding pop
pop_rest q v e = rw (v.started, pop, ne→==-false q.count 0 e)

pop_list : (q : EventQueue) → IsValid q → (contents (pop q).0, (pop q).1) ≡ take_first (contents q)
pop_list q v = elim (Bool-cases (q.count == 0)) [
  | inl z ↦
      let e = ==→eq q.count 0 z in
      let empty : contents q ≡ [] = ap (tabulate (at_distance q.events q.head)) e in
      rw (pop_empty q v e, empty)
  | inr nz ↦
      let ne = ==-false→ne q.count 0 nz in
      let e : q.count ≡ suc (q.count - 1) = omega arith in
      let split =
        ap (tabulate (at_distance q.events q.head)) e
        ∙ contents_step q.events q.head (q.count - 1) v.head_in in
      rw (pop_rest q v ne, split)
]

-- `pop` takes the first event of the list that the queue stands for, or fails where the list is empty,
-- and leaves a valid queue of the rest; `peek` gives the same event.
pub pop_refines :
    (q : EventQueue)
    → IsValid q
    → ((contents (pop q).0, (pop q).1) ≡ take_first (contents q))
      × (peek q ≡ (pop q).1)
      × IsValid (pop q).0
unfolding pop peek
pop_refines q v = (
  pop_list q v,
  ground arith,
  record {
    started = ground arith;
    head_in = ground arith;
    count_in = ground arith;
    tail_at = ground arith;
  },
)
