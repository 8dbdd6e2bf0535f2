-- ===== src/Event/Manager/Post.antt =====
-- Posting: which queue an event goes to, and what is counted.
use qaiosplus.Base.{
  ℕ, ◌+◌, ◌≡◌, refl, ap, Bool, true, false, List, [], ◌∷◌, ◌++◌, arith, ltb, ◌==◌, if◌then◌else◌,
  u64, length, Bool-cases, inl, inr,
}
use qaiosplus.Event.{Event, immediate}
use qaiosplus.Event.Queue.Ring.{contents, IsValid}
use qaiosplus.Event.Queue.Order.{enqueue}
use qaiosplus.Event.Queue.Push.{push-contents}
use qaiosplus.Event.Immediate.Ring.{waiting, IsSound, push_waits}
use qaiosplus.Event.Manager.{Manager, post_event, post_urgent, post_main}

-- What both queues hold, the drop counter, and the answer of a post.
abbrev pub Posted : Type 0
Posted = List Event × List Event × ℕ × Bool

-- The post on the lists: an immediate event waits behind the others while fewer than 16 wait; any
-- other goes to its place in the main list while that has fewer than 256.
pub posted : Event → List Event → List Event → ℕ → Posted
posted e us es dropped =
    if e.priority == immediate
    then (if ltb (length us) 16
        then (us ++ (e ∷ []), es, dropped, true)
        else (us, es, u64 (dropped + 1), false))
    else (if ltb (length es) 256
        then (us, enqueue e es, dropped, true)
        else (us, es, u64 (dropped + 1), false))

abbrev pub seen : Manager × Bool → Posted
seen (m, b) = (waiting m.urgent, contents m.main, m.total_dropped, b)

seen-post_urgent :
    (m : Manager) (e : Event)
    → IsSound m.urgent
    → seen (post_urgent m e) ≡ (
        if ltb (length (waiting m.urgent)) 16
        then (waiting m.urgent ++ (e ∷ []), contents m.main, m.total_dropped, true)
        else (waiting m.urgent, contents m.main, u64 (m.total_dropped + 1), false))
unfolding post_urgent
seen-post_urgent m e s =
    let p = push_waits m.urgent e s in
    elim (Bool-cases (ltb (length (waiting m.urgent)) 16)) [
      | inl t ↦ let q = rw t at p.0 in let b = rw t at p.1 in rw (t, post_urgent, b, q) refl
      | inr t ↦ let b = rw t at p.1 in rw (t, post_urgent, b) refl
    ]

seen-post_main :
    (m : Manager) (e : Event)
    → IsValid m.main
    → seen (post_main m e) ≡ (
        if ltb (length (contents m.main)) 256
        then (waiting m.urgent, enqueue e (contents m.main), m.total_dropped, true)
        else (waiting m.urgent, contents m.main, u64 (m.total_dropped + 1), false))
unfolding post_main
seen-post_main m e v =
    let p = push-contents m.main e v in
    elim (Bool-cases (ltb (length (contents m.main)) 256)) [
      | inl t ↦ let q = rw t at p.0 in let b = rw t at p.1 in rw (t, post_main, b, q) refl
      | inr t ↦ let b = rw t at p.1 in rw (t, post_main, b) refl
    ]

post_immediate :
    (m : Manager) (e : Event)
    → m.initialized ≡ true
    → (e.priority == immediate) ≡ true
    → post_event m e ≡ post_urgent m e
unfolding post_event
post_immediate m e i t = ground arith

post_other :
    (m : Manager) (e : Event)
    → m.initialized ≡ true
    → (e.priority == immediate) ≡ false
    → post_event m e ≡ post_main m e
unfolding post_event
post_other m e i t = ground arith

-- `postEvent` on an initialized manager: an event of priority `Immediate` is put last in the
-- immediate queue, and any other at its place in the main queue; a queue that is full drops the event,
-- which is counted and answered `false`, and both queues are then as they were.
pub post_event-posted :
    (m : Manager) (e : Event)
    → m.initialized ≡ true
    → IsSound m.urgent
    → IsValid m.main
    → seen (post_event m e) ≡ posted e (waiting m.urgent) (contents m.main) m.total_dropped
unfolding posted
post_event-posted m e i s v = elim (Bool-cases (e.priority == immediate)) [
  | inl t ↦ rw (t, ap seen (post_immediate m e i t)) (seen-post_urgent m e s)
  | inr t ↦ rw (t, ap seen (post_other m e i t)) (seen-post_main m e v)
]
