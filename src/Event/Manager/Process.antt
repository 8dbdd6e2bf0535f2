-- ===== src/Event/Manager/Process.antt =====
-- `processEvents` where handlers and receivers leave the manager alone: it ends, and which events it
-- dispatches.
use qaiosplus.Base.{
  ℕ, ◌+◌, ◌||◌, ◌^◌, ◌<◌, ◌≡◌, refl, subst, true, false, not, List, [], ◌++◌, some, arith, u64,
  length,
}
use qaiosplus.Event.{Event}
use qaiosplus.Event.Queue.{EventQueue}
use qaiosplus.Event.Queue.Ring.{contents, IsValid}
use qaiosplus.Event.Immediate.{ImmediateQueue}
use qaiosplus.Event.Immediate.Ring.{waiting, IsSound}
use qaiosplus.Event.Manager.{Manager, process_urgent, process_main, process_events, end_dispatch}
use qaiosplus.Event.Manager.Dispatch.{Reactions, quiet}
use qaiosplus.Event.Manager.Drain.{offer_all, offer_all-append, quota, drain_urgent, drain_main}

process_events_ends :
    {W : Type 0} (r : Reactions W) (fuel max : ℕ) (m : Manager) (w : W) (s s' : Manager × W)
    (n n' : ℕ)
    → m.initialized ≡ true
    → m.dispatching ≡ false
    → process_urgent (quiet r) fuel (record m { dispatching = true }, w) 0 ≡ some (s, n)
    → process_main (quiet r) fuel max s n ≡ some (s', n')
    → process_events (quiet r) fuel max (m, w)
      ≡ some ((record s'.0 { dispatching = false }, s'.1), n')
unfolding process_events end_dispatch
process_events_ends r fuel max m w s s' n n' i d u h =
    let ready : not m.initialized || m.dispatching ≡ false = rw (i, d) refl in
    rw (process_events, ready, u, h) refl

-- What a call of `processEvents` returns: the urgent events are all dispatched, and `served` of the
-- main queue.
pub record Processes {W : Type 0} (r : Reactions W) (fuel max : ℕ) (m : Manager) (w : W)
    : Type 0 where
  pub served : List Event
  pub left : List Event
  pub main : EventQueue
  pub urgent : ImmediateQueue
  pub split : contents m.main ≡ served ++ left
  pub number : length served ≡ quota max (length (waiting m.urgent)) (length (contents m.main))
  pub holds : contents main ≡ left
  pub drained : waiting urgent ≡ []
  pub ran :
      process_events (quiet r) fuel max (m, w)
      ≡ some (
        (
          record m {
            main = main;
            urgent = urgent;
            total_dispatched =
                u64 (u64 (m.total_dispatched + length (waiting m.urgent)) + length served);
            dispatching = false;
          },
          offer_all r m.listeners m.receivers (waiting m.urgent ++ served) w,
        ),
        length (waiting m.urgent) + length served,
      )

-- On a manager that is initialized and not dispatching, and where handlers and receivers leave the
-- manager alone, `processEvents` returns, given more rounds than either queue has events: it
-- dispatches all urgent events in order of arrival, then as many of the main queue, in its order, as
-- the limit has room for (one at least, and all where the limit is 0), and returns their number; the
-- rest stays queued.
pub process_events-Processes :
    {W : Type 0} (r : Reactions W) (fuel max : ℕ) (m : Manager) (w : W)
    → m.initialized ≡ true
    → m.dispatching ≡ false
    → IsSound m.urgent
    → IsValid m.main
    → length (waiting m.urgent) < fuel
    → length (contents m.main) < fuel
    → fuel < 2 ^ 63
    → m.total_dispatched < 2 ^ 64
    → Processes r fuel max m w
process_events-Processes r fuel max m w i d s v fu fm small t =
    let us = waiting m.urgent in
    let m0 : Manager = record m { dispatching = true } in
    let (q, empty, ran) = drain_urgent r us fuel 0 m0 w s refl fu (omega arith) t in
    let m1 : Manager = record m0 {
      urgent = q;
      total_dispatched = u64 (m.total_dispatched + length us);
    } in
    let w1 = offer_all r m.listeners m.receivers us w in
    let done =
      drain_main r (contents m.main) fuel max (0 + length us) m1 w1 v refl fm (omega arith)
        (omega arith) in
    let zero_add : 0 + length us ≡ length us = omega arith in
    record {
      served = done.served;
      left = done.left;
      main = done.queue;
      urgent = q;
      split = done.split;
      number =
          subst (λ n. length done.served ≡ quota max n (length (contents m.main))) zero_add
            done.number;
      holds = done.holds;
      drained = empty;
      ran =
          rw
            (
              process_events_ends r fuel max m w (m1, w1) _ (0 + length us) _ i d ran done.ran,
              zero_add,
              offer_all-append r m.listeners m.receivers us done.served w,
            )
            refl;
    }
