-- ===== src/Event/Queue/Push.antt =====
-- `push` on the ring does what it does on the list.
use qaiosplus.Base.{
  ℕ, zero, suc, ◌+◌, ◌-◌, ◌%◌, ◌≤◌, ◌<◌, ◌≡◌, ◌≢◌, refl, ap, ap₂, sym, ◌∙◌, subst, true, false,
  ◌||◌, [], ◌∷◌, ◌++◌, arith, ltb, leb, ◌==◌, if◌then◌else◌, update, length, tabulate, tabulate_ext,
  tabulate_snoc, Bool-cases, inl, inr, ◌⊎◌, ==→eq, ==-false→ne, ltb→lt,
}
use qaiosplus.Event.{Event}
use qaiosplus.Event.Queue.{
  EventQueue, max_events, find_index, find_insert_index, shift, push_at, insert_at, push, is_full,
}
use qaiosplus.Event.Queue.Ring.{at_distance, contents, IsValid, at_distance-update, length-contents}
use qaiosplus.Event.Queue.Order.{
  is_lower, insert_by, insert_by-tabulate, enqueue, sorted, rank, of_rank, enqueue-of_rank,
}

-- Where `findInsertIndex` stops, as a distance from the head.
record Found (q : EventQueue) (e : Event) (j n : ℕ) (index : ℕ) : Type 0 where
  k : ℕ
  from : j ≤ k
  upto : k ≤ n
  place : index ≡ (q.head + k) % max_events
  before : (i : ℕ) → j ≤ i → i < k → is_lower e (at_distance q.events q.head i) ≡ false
  here : (k ≡ n) ⊎ (is_lower e (at_distance q.events q.head k) ≡ true)

find_index-Found :
    (rounds j n : ℕ) (q : EventQueue) (e : Event)
    → j + rounds ≡ n
    → q.tail ≡ (q.head + n) % max_events
    → Found q e j n (find_index rounds ((q.head + j) % max_events) q e.priority)
unfolding find_index
find_index-Found zero j n q e s t = record {
  k = n;
  from = omega arith;
  upto = omega arith;
  place = t;
  before = λ i a b. absurd (omega arith);
  here = inl refl;
}
find_index-Found (suc r) j n q e s t =
    elim (Bool-cases (is_lower e (at_distance q.events q.head j))) [
      | inl low ↦ rw low (record {
        k = j;
        from = omega arith;
        upto = omega arith;
        place = refl;
        before = λ i a b. absurd (omega arith);
        here = inr low;
      })
      | inr high ↦
          let next : (q.head + (j + 1)) % 256 ≡ ((q.head + j) % 256 + 1) % 256 = omega arith in
          let f =
            subst (λ c. Found q e (j + 1) n (find_index r c q e.priority)) next
              (find_index-Found r (j + 1) n q e (omega arith) t) in
          rw high (record {
            k = f.k;
            from = omega (arith, f.from);
            upto = f.upto;
            place = f.place;
            before = λ i a b. elim (Bool-cases (j == i)) [
              | inl same ↦ let eq : j ≡ i = ==→eq j i same in rw (← eq) high
              | inr other ↦ f.before i (ground arith) b
            ];
            here = f.here;
          })
    ]

-- `shift` moves the entries at the distances `k` to `c - 1` one cell on, and no others.
shift_distance :
    (fuel c k h : ℕ) (events : ℕ → Event) (i : ℕ)
    → k ≤ c
    → c < max_events
    → c ≤ k + fuel
    → i < max_events
    → at_distance (shift fuel ((h + c) % max_events) ((h + k) % max_events) events) h i ≡ (
        if ltb k i
        then (if leb i c then at_distance events h (i - 1) else at_distance events h i)
        else at_distance events h i)
unfolding shift
shift_distance zero c k h events i kc cm cf im = ground arith
shift_distance (suc fuel) c k h events i kc cm cf im =
    elim (Bool-cases ((h + c) % 256 == (h + k) % 256)) [
      | inl done ↦
          let eq : c ≡ k = omega (arith, ==→eq ((h + c) % 256) ((h + k) % 256) done) in
          rw done (ground arith)
      | inr more ↦
          let kc' = differ (==-false→ne ((h + c) % 256) ((h + k) % 256) more) in
          let back : (if (h + c) % 256 == 0 then 255 else (h + c) % 256 - 1) ≡ (h + (c - 1)) % 256 =
            ground arith in
          let cell = events ((h + (c - 1)) % 256) in
          rw (more, back)
            (ground (
              arith,
              shift_distance fuel (c - 1) k h (update events ((h + c) % 256) cell) i,
              at_distance-update events h c i cell,
              at_distance-update events h c (i - 1) cell,
            ))
    ]
  where
    differ : (h + c) % 256 ≢ (h + k) % 256 → k < c
    differ ne = elim (Bool-cases (c == k)) [
      | inl same ↦ absurd (ne (ap (λ x. (h + x) % 256) (==→eq c k same)))
      | inr other ↦ ground arith
    ]

-- The list after the insertion of `e` at distance `k`.
insert_at_distance :
    (q : EventQueue) (e : Event) (k : ℕ)
    → IsValid q
    → q.count < max_events
    → k ≤ q.count
    → ((i : ℕ) → 0 ≤ i → i < k → is_lower e (at_distance q.events q.head i) ≡ false)
    → ((k ≡ q.count) ⊎ (is_lower e (at_distance q.events q.head k) ≡ true))
    → contents (insert_at q e ((q.head + k) % max_events)) ≡ insert_by e (contents q)
unfolding insert_at push_at
insert_at_distance q e k v room kn before here =
    let more : q.count + 1 ≡ suc q.count = omega arith in
    ap (tabulate (at_distance after q.head)) more
    ∙ sym (
        insert_by-tabulate k q.count (at_distance q.events q.head) (at_distance after q.head) e kn
          (λ i h. before i (omega arith) h) here (λ i h. ground (arith, after_at i (omega arith)))
          (ground (arith, after_at k (omega arith)))
          (λ i a h.
            ground (
              arith,
              after_at (suc i) (omega arith),
              ap (at_distance q.events q.head) (pred_suc i),
            )))
  where
    moved : ℕ → Event
    moved =
        if (q.head + k) % 256 == q.tail
        then q.events
        else shift 256 q.tail ((q.head + k) % 256) q.events

    after : ℕ → Event
    after = update moved ((q.head + k) % 256) e

    pred_suc : (i : ℕ) → suc i - 1 ≡ i
    pred_suc i = omega arith

    moved_at :
        (i : ℕ)
        → i < 256
        → i ≢ k
        → at_distance moved q.head i ≡ (
            if ltb k i
            then (if leb i q.count
                then at_distance q.events q.head (i - 1)
                else at_distance q.events q.head i)
            else at_distance q.events q.head i)
    moved_at i h ne = elim (Bool-cases ((q.head + k) % 256 == q.tail)) [
      | inl last ↦
          let eq : k ≡ q.count = omega (arith, ==→eq ((q.head + k) % 256) q.tail last, v.tail_at) in
          rw last (ground arith)
      | inr inner ↦
          let moves = shift_distance 256 q.count k q.head q.events i kn room (omega arith) h in
          rw inner (
            subst
              (λ t. at_distance (shift 256 t ((q.head + k) % 256) q.events) q.head i ≡ (
                if ltb k i
                then (if leb i q.count
                    then at_distance q.events q.head (i - 1)
                    else at_distance q.events q.head i)
                else at_distance q.events q.head i))
              (sym v.tail_at) moves)
    ]

    after_at :
        (i : ℕ)
        → i < 256
        → at_distance after q.head i ≡ (
            if i == k
            then e
            else if ltb k i
            then (if leb i q.count
                then at_distance q.events q.head (i - 1)
                else at_distance q.events q.head i)
            else at_distance q.events q.head i)
    after_at i h = ground (arith, at_distance-update moved q.head k i e, moved_at i h)

append_at_tail :
    (q : EventQueue) (e : Event)
    → IsValid q
    → q.count < max_events
    → contents (push_at q e q.tail q.events) ≡ contents q ++ (e ∷ [])
unfolding push_at
append_at_tail q e v room =
    let more : q.count + 1 ≡ suc q.count = omega arith in
    ap (tabulate (at_distance after q.head)) more
    ∙ tabulate_snoc (at_distance after q.head) q.count
    ∙ ap₂ (λ xs x. xs ++ (x ∷ []))
        (tabulate_ext (at_distance after q.head) (at_distance q.events q.head) q.count
          (λ i h. ground (arith, after_at i (omega arith))))
        (ground (arith, after_at q.count (omega arith)))
  where
    after : ℕ → Event
    after = update q.events q.tail e

    after_at :
        (i : ℕ)
        → i < 256
        → at_distance after q.head i ≡ (if i == q.count then e else at_distance q.events q.head i)
    after_at i h =
        subst
          (λ t.
            at_distance (update q.events t e) q.head i
            ≡ (if i == q.count then e else at_distance q.events q.head i))
          (sym v.tail_at) (at_distance-update q.events q.head q.count i e (omega arith) h)

insert_in_order :
    (q : EventQueue) (e : Event)
    → IsValid q
    → q.count < max_events
    → contents (insert_at q e (find_insert_index q e.priority)) ≡ insert_by e (contents q)
unfolding find_insert_index
insert_in_order q e v room =
    let start : (q.head + 0) % 256 ≡ q.head = omega (arith, v.head_in) in
    let f =
      subst (λ c. Found q e 0 q.count (find_index q.count c q e.priority)) start
        (find_index-Found q.count 0 q.count q e (omega arith) v.tail_at) in
    rw f.place (insert_at_distance q e f.k v room f.upto f.before f.here)

push_full : (q : EventQueue) (e : Event) → IsValid q → max_events ≤ q.count → push q e ≡ (q, false)
unfolding push is_full
push_full q e v h = let f : leb 256 q.count ≡ true = ground arith in rw (v.started, f)

push_append :
    (q : EventQueue) (e : Event)
    → IsValid q
    → q.count < max_events
    → ((q.count == 0) || leb e.priority 1) ≡ true
    → push q e ≡ (push_at q e q.tail q.events, true)
unfolding push is_full
push_append q e v h t = let f : leb 256 q.count ≡ false = ground arith in rw (v.started, f, t)

push_insert :
    (q : EventQueue) (e : Event)
    → IsValid q
    → q.count < max_events
    → ((q.count == 0) || leb e.priority 1) ≡ false
    → push q e ≡ (insert_at q e (find_insert_index q e.priority), true)
unfolding push is_full
push_insert q e v h t = let f : leb 256 q.count ≡ false = ground arith in rw (v.started, f, t)

append_enqueue :
    (q : EventQueue) (e : Event)
    → ((q.count == 0) || leb e.priority 1) ≡ true
    → contents q ++ (e ∷ []) ≡ enqueue e (contents q)
unfolding enqueue insert_by
append_enqueue q e t = elim (Bool-cases (leb e.priority 1)) [
  | inl l ↦ rw (l, enqueue)
  | inr l ↦
      let none_left : q.count ≡ 0 = ground arith in
      let empty : contents q ≡ [] = ap (tabulate (at_distance q.events q.head)) none_left in
      rw (l, empty)
]

-- `push` on a valid queue, by what it holds and answers.
pub push-contents :
    (q : EventQueue) (e : Event)
    → IsValid q
    → (contents (push q e).0
        ≡ (if ltb (length (contents q)) max_events then enqueue e (contents q) else contents q))
      × ((push q e).1 ≡ ltb (length (contents q)) max_events)
unfolding enqueue
push-contents q e v = rw (length-contents q) (elim (Bool-cases (ltb q.count 256)) [
  | inr full ↦ rw (push_full q e v (ground arith), full) (refl, refl)
  | inl room ↦ elim (Bool-cases ((q.count == 0) || leb e.priority 1)) [
    | inl t ↦
        rw (push_append q e v (ground arith) t, room)
          (append_at_tail q e v (ground arith) ∙ append_enqueue q e t, refl)
    | inr t ↦
        let high : leb e.priority 1 ≡ false = ground arith in
        rw (push_insert q e v (ground arith) t, room)
          (rw high (insert_in_order q e v (ground arith)), refl)
  ]
])

-- `push` keeps the queue valid.
pub push-IsValid : (q : EventQueue) (e : Event) → IsValid q → IsValid (push q e).0
unfolding push is_full insert_at push_at
push-IsValid q e v = record {
  started = ground arith;
  head_in = ground arith;
  count_in = ground arith;
  tail_at = ground arith;
}

-- `push` on a valid queue changes nothing at all and answers `false` where 256 events are queued. Else
-- it answers `true` and leaves a valid queue, which holds the event behind all those of its priority
-- or above if its priority is above `Normal`, and at the end if not.
pub push_refines :
    (q : EventQueue) (e : Event)
    → IsValid q
    → ((max_events ≤ length (contents q)) × (push q e ≡ (q, false)))
      ⊎ ((length (contents q) < max_events)
          × IsValid (push q e).0
          × (contents (push q e).0 ≡ enqueue e (contents q))
          × ((push q e).1 ≡ true))
push_refines q e v =
    let c = push-contents q e v in
    elim (Bool-cases (ltb (length (contents q)) 256)) [
      | inr full ↦
          let many : 256 ≤ length (contents q) = ground (arith, full) in
          inl (many, push_full q e v (omega (arith, many, length-contents q)))
      | inl room ↦ inr (
        ltb→lt (length (contents q)) 256 room,
        push-IsValid q e v,
        rw room at c.0,
        rw room at c.1,
      )
    ]

-- `push` onto a queue that has room and is in order puts the event last among those of its rank, and
-- keeps the order of the others within each rank.
pub push_fifo :
    (q : EventQueue) (e : Event) (n : ℕ)
    → IsValid q
    → sorted (contents q) ≡ true
    → q.count < max_events
    → of_rank n (contents (push q e).0)
      ≡ (if rank e == n then of_rank n (contents q) ++ (e ∷ []) else of_rank n (contents q))
push_fifo q e n v s room =
    let fits : ltb (length (contents q)) 256 ≡ true = rw (length-contents q) (ground arith) in
    rw ((push-contents q e v).0, fits) (enqueue-of_rank n e (contents q) s)
