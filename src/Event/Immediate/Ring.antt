-- ===== src/Event/Immediate/Ring.antt =====
-- The ring of immediate events as a list of at most 16.
use qaiosplus.Base.{
  ℕ, suc, ◌+◌, ◌-◌, ◌%◌, ◌≤◌, ◌<◌, ◌≡◌, ◌≢◌, refl, ap, ◌∙◌, true, false, List, [], ◌∷◌, ◌++◌, none,
  some, arith, ltb, ◌==◌, if◌then◌else◌, update, length, tabulate, tabulate_ext, tabulate_snoc,
  length-tabulate, Bool-cases, inl, inr, ne→==-false, ==→eq, ==-false→ne, ltb→lt, ltb-false→le,
}
use qaiosplus.Event.{Event}
use qaiosplus.Event.Immediate.{ImmediateQueue, max_events, push, pop}
use qaiosplus.Event.Queue.Ring.{take_first}

abbrev pub nth : (ℕ → Event) → ℕ → ℕ → Event
nth events head i = events ((head + i) % max_events)

abbrev pub waiting : ImmediateQueue → List Event
waiting q = tabulate (nth q.events q.head) q.count

pub record IsSound (q : ImmediateQueue) : Type 0 where
  pub started : q.initialized ≡ true
  pub head_in : q.head < max_events
  pub count_in : q.count ≤ max_events
  pub tail_at : q.tail ≡ (q.head + q.count) % max_events

pub length-waiting : (q : ImmediateQueue) → length (waiting q) ≡ q.count
length-waiting q = length-tabulate (nth q.events q.head) q.count

waiting_step :
    (events : ℕ → Event) (head n : ℕ)
    → head < max_events
    → tabulate (nth events head) (suc n)
      ≡ events head ∷ tabulate (nth events ((head + 1) % max_events)) n
waiting_step events head n h =
    let first : (head + 0) % 16 ≡ head = omega arith in
    rw (
      ap events first,
      tabulate_ext (λ i. nth events head (suc i)) (nth events ((head + 1) % 16)) n
          (λ i l.
            let same : (head + suc i) % 16 ≡ ((head + 1) % 16 + i) % 16 = omega arith in
            ap events same),
    )

-- The list of a queue that has room grows at its end.
waiting_new :
    (q : ImmediateQueue) (e : Event)
    → IsSound q
    → q.count < max_events
    → tabulate (nth (update q.events q.tail e) q.head) (q.count + 1) ≡ waiting q ++ (e ∷ [])
waiting_new q e v room =
    let one : q.count + 1 ≡ suc q.count = omega arith in
    let new = nth (update q.events q.tail e) q.head in
    let last : new q.count ≡ e = rw v.tail_at (ground arith) in
    let rest = tabulate_ext new (nth q.events q.head) q.count (λ i l.
      let apart : (q.head + i) % 16 ≢ q.tail = rw v.tail_at (omega arith) in ground arith) in
    rw (one, tabulate_snoc new q.count, last, rest)

push_room :
    (q : ImmediateQueue) (e : Event)
    → IsSound q
    → q.count < max_events
    → push q e ≡ (
      record q {
        events = update q.events q.tail e;
        tail = (q.tail + 1) % max_events;
        count = q.count + 1;
      },
      true,
    )
unfolding push
push_room q e v room = ground arith

push_full : (q : ImmediateQueue) (e : Event) → max_events ≤ q.count → push q e ≡ (q, false)
unfolding push
push_full q e full = ground arith

-- `ImmediateQueue::push` adds the event at the end while fewer than 16 wait, and else answers `false`
-- and changes nothing.
pub push_waits :
    (q : ImmediateQueue) (e : Event)
    → IsSound q
    → (waiting (push q e).0
        ≡ (if ltb (length (waiting q)) max_events then waiting q ++ (e ∷ []) else waiting q))
      × ((push q e).1 ≡ ltb (length (waiting q)) max_events)
push_waits q e v = elim (Bool-cases (ltb q.count max_events)) [
  | inl t ↦
      let room = ltb→lt q.count max_events t in
      rw (length-waiting q, t, push_room q e v room) (waiting_new q e v room, refl)
  | inr t ↦ rw (length-waiting q, t, push_full q e (ltb-false→le q.count max_events t)) (refl, refl)
]

pub push-IsSound : (q : ImmediateQueue) (e : Event) → IsSound q → IsSound (push q e).0
push-IsSound q e v = elim (Bool-cases (ltb q.count max_events)) [
  | inl t ↦ rw (push_room q e v (ltb→lt q.count max_events t)) (record {
    started = v.started;
    head_in = v.head_in;
    count_in = ground (arith, t);
    tail_at = omega (arith, v.tail_at);
  })
  | inr t ↦ rw (push_full q e (ltb-false→le q.count max_events t)) v
]

pub pop_empty : (q : ImmediateQueue) → q.count ≡ 0 → pop q ≡ (q, none)
unfolding pop
pop_empty q e = ground arith

pub pop_rest :
    (q : ImmediateQueue)
    → IsSound q
    → q.count ≢ 0
    → pop q
      ≡ (record q { head = (q.head + 1) % max_events; count = q.count - 1 }, some (q.events q.head))
unfolding pop
pop_rest q v e = rw (v.started, ne→==-false q.count 0 e)

-- `ImmediateQueue::pop` takes the event that waits longest, or fails where none waits, and leaves a
-- sound queue of the rest.
pub pop_waits :
    (q : ImmediateQueue)
    → IsSound q
    → ((waiting (pop q).0, (pop q).1) ≡ take_first (waiting q)) × IsSound (pop q).0
pop_waits q v = elim (Bool-cases (q.count == 0)) [
  | inl z ↦
      let e = ==→eq q.count 0 z in
      let empty : waiting q ≡ [] = ap (tabulate (nth q.events q.head)) e in
      rw (pop_empty q e, empty) (refl, v)
  | inr nz ↦
      let ne = ==-false→ne q.count 0 nz in
      let e : q.count ≡ suc (q.count - 1) = omega arith in
      let split =
        ap (tabulate (nth q.events q.head)) e
        ∙ waiting_step q.events q.head (q.count - 1) v.head_in in
      rw (pop_rest q v ne, split)
        (
          refl,
          record {
            started = v.started;
            head_in = omega arith;
            count_in = omega (arith, v.count_in);
            tail_at = omega (arith, v.tail_at);
          },
        )
]
