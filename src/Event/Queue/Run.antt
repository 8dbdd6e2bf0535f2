-- ===== src/Event/Queue/Run.antt =====
-- Any sequence of calls, from `initialize` on.
use qaiosplus.Base.{◌≡◌, refl, ap, true, List, [], ◌∷◌, arith, ltb, length, Bool-cases, inl, inr}
use qaiosplus.Event.{Event}
use qaiosplus.Event.Queue.{EventQueue, initialize, push, pop, clear}
use qaiosplus.Event.Queue.Ring.{contents, IsValid, take_first, pop_refines}
use qaiosplus.Event.Queue.Order.{sorted, enqueue-sorted}
use qaiosplus.Event.Queue.Push.{push-contents, push-IsValid}

pub data Call : Type 0 where
  pushes : Event → Call
  pops clears : Call

pub call : EventQueue → Call → EventQueue
call q (pushes e) = (push q e).0
call q pops = (pop q).0
call q clears = clear q

pub run : EventQueue → List Call → EventQueue
unfolding call
run q [] = q
run q (c ∷ cs) = run (call q c) cs

record InOrder (q : EventQueue) : Type 0 where
  valid : IsValid q
  order : sorted (contents q) ≡ true

initialize-InOrder : (q : EventQueue) → InOrder (initialize q)
unfolding initialize sorted
initialize-InOrder q = record {
  valid = record {
    started = refl;
    head_in = omega arith;
    count_in = omega arith;
    tail_at = omega arith;
  };
  order = refl;
}

sorted-take_first : (xs : List Event) → sorted xs ≡ true → sorted (take_first xs).0 ≡ true
unfolding sorted
sorted-take_first [] h = refl
sorted-take_first (x ∷ xs) h = ground arith

push-InOrder : (q : EventQueue) (e : Event) → InOrder q → InOrder (push q e).0
push-InOrder q e o = record {
  valid = push-IsValid q e o.valid;
  order = rw (push-contents q e o.valid).0 (elim (Bool-cases (ltb (length (contents q)) 256)) [
    | inl room ↦ rw room (enqueue-sorted e (contents q) o.order)
    | inr full ↦ rw full o.order
  ]);
}

pop-InOrder : (q : EventQueue) → InOrder q → InOrder (pop q).0
pop-InOrder q o = record {
  valid = (pop_refines q o.valid).2;
  order =
      let list : contents (pop q).0 ≡ (take_first (contents q)).0 =
        ap (λ r. r.0) (pop_refines q o.valid).0 in
      rw list (sorted-take_first (contents q) o.order);
}

clear-InOrder : (q : EventQueue) → InOrder q → InOrder (clear q)
unfolding clear sorted
clear-InOrder q o = record {
  valid = record {
    started = o.valid.started;
    head_in = omega arith;
    count_in = omega arith;
    tail_at = omega arith;
  };
  order = refl;
}

run-InOrder : (q : EventQueue) (cs : List Call) → InOrder q → InOrder (run q cs)
unfolding run
run-InOrder q [] o = o
run-InOrder q (pushes e ∷ cs) o = run-InOrder (push q e).0 cs (push-InOrder q e o)
run-InOrder q (pops ∷ cs) o = run-InOrder (pop q).0 cs (pop-InOrder q o)
run-InOrder q (clears ∷ cs) o = run-InOrder (clear q) cs (clear-InOrder q o)

-- After any sequence of `push`, `pop` and `clear` from `initialize` on the queue is valid, and its
-- events stand in order of priority, the highest first, where `Low` and `Normal` count as one.
pub run-initialize_in_order :
    (q : EventQueue) (cs : List Call)
    → IsValid (run (initialize q) cs) × (sorted (contents (run (initialize q) cs)) ≡ true)
run-initialize_in_order q cs =
    let o = run-InOrder (initialize q) cs (initialize-InOrder q) in (o.valid, o.order)
