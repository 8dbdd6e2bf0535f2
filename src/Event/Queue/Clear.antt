-- ===== src/Event/Queue/Clear.antt =====
-- `clearType` and `clearCategory`: the list is filtered. After a call that removes nothing from a full
-- queue the write index lies outside the array.
use qaiosplus.Base.{
  ℕ, zero, suc, ◌+◌, ◌%◌, ◌≤◌, ◌<◌, ◌≡◌, ◌≢◌, refl, ap, ap₂, ◌∙◌, Bool, true, not, List, [], ◌∷◌,
  arith, ◌==◌, update, length, tabulate, tabulate_ext, filter_by, length-filter_by, Bool-cases, inl,
  inr, ==→eq, ==-false→ne, ne→==-false,
}
use qaiosplus.Event.{Event, has_category}
use qaiosplus.Event.Queue.{
  EventQueue, max_events, gather, copy_back, retain, clear_type, clear_category,
}
use qaiosplus.Event.Queue.Ring.{at_distance, contents, IsValid, length-contents}

gather-filter :
    (n c h : ℕ) (events : ℕ → Event) (stays : Event → Bool)
    → gather n ((h + c) % max_events) events stays
      ≡ filter_by stays (tabulate (λ i. at_distance events h (c + i)) n)
unfolding gather
gather-filter zero c h events stays = refl
gather-filter (suc n) c h events stays =
    let next : ((h + c) % 256 + 1) % 256 ≡ (h + (c + 1)) % 256 = omega arith in
    let first : (h + (c + 0)) % 256 ≡ (h + c) % 256 = omega arith in
    let rest =
      tabulate_ext (λ i. at_distance events h (c + 1 + i)) (λ i. at_distance events h (c + suc i)) n
        (λ i l.
          let same : (h + (c + 1 + i)) % 256 ≡ (h + (c + suc i)) % 256 = omega arith in
          ap events same) in
    rw (next, gather-filter n (c + 1) h events stays, rest, first) (ground arith)

-- What is copied back is read again.
copy_back_below :
    (es : List Event) (i j : ℕ) (events : ℕ → Event) → j < i → copy_back i es events j ≡ events j
unfolding copy_back
copy_back_below [] i j events h = refl
copy_back_below (e ∷ es) i j events h =
    ground (arith, copy_back_below es (i + 1) j (update events i e))

copy_back-tabulate :
    (es : List Event) (i : ℕ) (events : ℕ → Event)
    → tabulate (λ j. copy_back i es events (i + j)) (length es) ≡ es
unfolding copy_back
copy_back-tabulate [] i events = refl
copy_back-tabulate (e ∷ es) i events =
    let here : i + 0 ≡ i = omega arith in
    ap₂ ◌∷◌
      (rw here (copy_back_below es (i + 1) i (update events i e) (omega arith) ∙ ground arith))
      (tabulate_ext (λ j. copy_back (i + 1) es (update events i e) (i + suc j))
          (λ j. copy_back (i + 1) es (update events i e) (i + 1 + j)) (length es)
          (λ j h.
            let same : i + suc j ≡ i + 1 + j = omega arith in
            ap (copy_back (i + 1) es (update events i e)) same)
        ∙ copy_back-tabulate es (i + 1) (update events i e))

gather-contents :
    (q : EventQueue) (stays : Event → Bool)
    → q.head < max_events
    → gather q.count q.head q.events stays ≡ filter_by stays (contents q)
gather-contents q stays h =
    let start : (q.head + 0) % 256 ≡ q.head = omega arith in
    rw start at (gather-filter q.count 0 q.head q.events stays)
    ∙ ap (filter_by stays) (
        tabulate_ext (λ i. at_distance q.events q.head (0 + i)) (at_distance q.events q.head)
          q.count
          (λ i l. let same : 0 + i ≡ i = omega arith in ap (at_distance q.events q.head) same))

retain-contents :
    (q : EventQueue) (stays : Event → Bool)
    → IsValid q
    → contents (retain stays q) ≡ filter_by stays (contents q)
unfolding retain
retain-contents q stays v = elim (Bool-cases (q.count == 0)) [
  | inl z ↦
      let empty : contents q ≡ [] =
        ap (tabulate (at_distance q.events q.head)) (==→eq q.count 0 z) in
      rw (v.started, z, empty)
  | inr nz ↦
      rw (v.started, nz, retain, gather-contents q stays v.head_in)
        (copied (filter_by stays (contents q)) short)
]
  where
    short : length (filter_by stays (contents q)) ≤ 256
    short = omega (arith, length-filter_by stays (contents q), length-contents q, v.count_in)

    copied :
        (es : List Event)
        → length es ≤ 256
        → tabulate (at_distance (copy_back 0 es q.events) 0) (length es) ≡ es
    copied es h =
        tabulate_ext (at_distance (copy_back 0 es q.events) 0)
          (λ j. copy_back 0 es q.events (0 + j)) (length es)
          (λ i l.
            let same : (0 + i) % 256 ≡ 0 + i = omega arith in ap (copy_back 0 es q.events) same)
        ∙ copy_back-tabulate es 0 q.events

retain_empty : (q : EventQueue) (stays : Event → Bool) → q.count ≡ 0 → retain stays q ≡ q
unfolding retain
retain_empty q stays e = ground arith

retain_some :
    (q : EventQueue) (stays : Event → Bool)
    → IsValid q
    → q.count ≢ 0
    → let kept = filter_by stays (contents q) in
      retain stays q ≡ record q {
        head = 0;
        tail = length kept;
        count = length kept;
        events = copy_back 0 kept q.events;
      }
unfolding retain
retain_some q stays v ne =
    rw (v.started, retain, ne→==-false q.count 0 ne, gather-contents q stays v.head_in)

retain-IsValid :
    (q : EventQueue) (stays : Event → Bool)
    → IsValid q
    → length (filter_by stays (contents q)) < max_events
    → IsValid (retain stays q)
retain-IsValid q stays v h = elim (Bool-cases (q.count == 0)) [
  | inl z ↦ rw (retain_empty q stays (==→eq q.count 0 z)) v
  | inr nz ↦ rw (retain_some q stays v (==-false→ne q.count 0 nz)) (record {
    started = v.started;
    head_in = omega arith;
    count_in = omega arith;
    tail_at = omega arith;
  })
]

-- `clearType` removes the events of the type and `clearCategory` those that share a bit with the
-- category, and both keep the others in order.
pub clear_contents :
    (q : EventQueue) (kind category : ℕ)
    → IsValid q
    → (contents (clear_type kind q) ≡ filter_by (λ e. not (e.kind == kind)) (contents q))
      × (contents (clear_category category q)
          ≡ filter_by (λ e. not (has_category e.category category)) (contents q))
unfolding clear_type clear_category
clear_contents q kind category v = (
  retain-contents q (λ e. not (e.kind == kind)) v,
  retain-contents q (λ e. not (has_category e.category category)) v,
)

-- `clearType` keeps the queue valid if fewer than 256 events remain.
pub clear_type-IsValid :
    (q : EventQueue) (kind : ℕ)
    → IsValid q
    → length (filter_by (λ e. not (e.kind == kind)) (contents q)) < max_events
    → IsValid (clear_type kind q)
unfolding clear_type
clear_type-IsValid q kind v h = retain-IsValid q (λ e. not (e.kind == kind)) v h

filter_by_all :
    (stays : Event → Bool) (g : ℕ → Event) (n : ℕ)
    → ((i : ℕ) → i < n → stays (g i) ≡ true)
    → filter_by stays (tabulate g n) ≡ tabulate g n
filter_by_all stays g zero h = refl
filter_by_all stays g (suc n) h =
    rw (h 0 (omega arith))
      (ap (λ r. g 0 ∷ r) (filter_by_all stays (λ i. g (suc i)) n (λ i l. h (suc i) (omega arith))))

-- On a full queue that holds no event of the type, `clearType` sets the write index to 256, one past
-- the array, where the next event but one would be written.
pub clear_type_overruns :
    (q : EventQueue) (kind : ℕ)
    → IsValid q
    → q.count ≡ max_events
    → ((i : ℕ) → i < max_events → (at_distance q.events q.head i).kind ≢ kind)
    → (clear_type kind q).tail ≡ max_events
unfolding clear_type
clear_type_overruns q kind v full other =
    rw (retain_some q (λ e. not (e.kind == kind)) v (omega arith), kept, length-contents q) full
  where
    kept : filter_by (λ e. not (e.kind == kind)) (contents q) ≡ contents q
    kept =
        filter_by_all (λ e. not (e.kind == kind)) (at_distance q.events q.head) q.count
          (λ i h.
            rw (ne→==-false (at_distance q.events q.head i).kind kind (other i (omega arith))))
