-- ===== src/Event/Manager/Drain.antt =====
-- The two loops of `processEvents` where handlers and receivers leave the manager alone.
use qaiosplus.Base.{
  ℕ, zero, suc, ◌+◌, ◌-◌, ◌||◌, ◌&&◌, ◌^◌, ◌<◌, ◌≡◌, refl, ap, true, false, List, [], ◌∷◌, ◌++◌,
  none, some, arith, ltb, leb, ◌==◌, if◌then◌else◌, u64, length, Bool-cases, inl, inr,
}
use qaiosplus.Event.{Event}
use qaiosplus.Event.Queue
use qaiosplus.Event.Queue.{EventQueue}
use qaiosplus.Event.Queue.Ring.{contents, IsValid, pop_refines}
use qaiosplus.Event.Immediate
use qaiosplus.Event.Immediate.{ImmediateQueue}
use qaiosplus.Event.Immediate.Ring.{waiting, IsSound, pop_waits}
use qaiosplus.Event.Manager.{Manager, Listener, process_urgent, process_main}
use qaiosplus.Event.Manager.Dispatch.{Reactions, quiet, offer, dispatch_event-quiet}

-- What becomes of the state outside when events are dispatched one after the other.
pub offer_all : {W : Type 0} → Reactions W → (ℕ → Listener) → (ℕ → ℕ) → List Event → W → W
offer_all r ls ps [] w = w
offer_all r ls ps (e ∷ es) w = offer_all r ls ps es (offer r ls ps e w)

pub offer_all-append :
    {W : Type 0} (r : Reactions W) (ls : ℕ → Listener) (ps : ℕ → ℕ) (xs ys : List Event) (w : W)
    → offer_all r ls ps (xs ++ ys) w ≡ offer_all r ls ps ys (offer_all r ls ps xs w)
unfolding offer_all
offer_all-append r ls ps [] ys w = refl
offer_all-append r ls ps (x ∷ xs) ys w = offer_all-append r ls ps xs ys (offer r ls ps x w)

-- How many of `n` events of the main queue are dispatched after `processed` others: all of them if
-- `max` is 0, and else up to `max` in all, but one at least.
pub quota : ℕ → ℕ → ℕ → ℕ
quota max processed n =
    let room = if leb max processed then 1 else max - processed in
    if (max == 0) || leb n room then n else room

counted : (t n : ℕ) → u64 (u64 (t + 1) + n) ≡ u64 (t + suc n)
counted t n = omega arith

module _ {W : Type 0} (r : Reactions W) where
  urgent_step :
      (fuel p : ℕ) (m : Manager) (w : W) (e : Event)
      → (Immediate.pop m.urgent).1 ≡ some e
      → process_urgent (quiet r) (suc fuel) (m, w) p
        ≡ process_urgent
            (quiet r)
            fuel
            (
              record m {
                urgent = (Immediate.pop m.urgent).0;
                total_dispatched = u64 (m.total_dispatched + 1);
              },
              offer r m.listeners m.receivers e w,
            )
            (u64 (p + 1))
  unfolding process_urgent
  urgent_step fuel p m w e h =
      rw
        (
          process_urgent,
          h,
          dispatch_event-quiet r e (record m { urgent = (Immediate.pop m.urgent).0 }) w,
        )
        refl

  urgent_end :
      (fuel p : ℕ) (s : Manager × W)
      → (Immediate.pop s.0.urgent).1 ≡ none
      → process_urgent (quiet r) (suc fuel) s p ≡ some (s, p)
  unfolding process_urgent
  urgent_end fuel p s h = rw (process_urgent, h) refl

  pub drain_urgent :
      (es : List Event) (fuel p : ℕ) (m : Manager) (w : W)
      → IsSound m.urgent
      → waiting m.urgent ≡ es
      → length es < fuel
      → p + length es < 2 ^ 64
      → m.total_dispatched < 2 ^ 64
      → (q : ImmediateQueue) × (waiting q ≡ [])
        × (process_urgent (quiet r) fuel (m, w) p
            ≡ some (
              (
                record m { urgent = q; total_dispatched = u64 (m.total_dispatched + length es) },
                offer_all r m.listeners m.receivers es w,
              ),
              p + length es,
            ))
  unfolding offer_all
  drain_urgent es zero p m w v c f b t = absurd (omega arith)
  drain_urgent [] (suc fuel) p m w v c f b t =
      let popped = rw c at (pop_waits m.urgent v).0 in
      let nothing : u64 (m.total_dispatched + 0) ≡ m.total_dispatched = omega arith in
      let still : p + 0 ≡ p = omega arith in
      (m.urgent, c, rw (urgent_end fuel p (m, w) (ap (λ x. x.1) popped), nothing, still) refl)
  drain_urgent (e ∷ es) (suc fuel) p m w v c f b t =
      let popped = rw c at (pop_waits m.urgent v).0 in
      let next : u64 (p + 1) + length es ≡ p + suc (length es) = omega arith in
      let m' : Manager = record m {
        urgent = (Immediate.pop m.urgent).0;
        total_dispatched = u64 (m.total_dispatched + 1);
      } in
      let (q, empty, ran) =
        drain_urgent es fuel (u64 (p + 1)) m' (offer r m.listeners m.receivers e w)
          (pop_waits m.urgent v).1 (ap (λ x. x.0) popped) (omega arith) (omega arith)
          (omega arith) in
      (
        q,
        empty,
        rw
            (
              urgent_step fuel p m w e (ap (λ x. x.1) popped),
              ran,
              counted m.total_dispatched (length es),
              next,
            )
            refl,
      )

  main_step :
      (fuel max p : ℕ) (m : Manager) (w : W) (e : Event)
      → (Queue.pop m.main).1 ≡ some e
      → (ltb 0 max && leb max (u64 (p + 1))) ≡ false
      → process_main (quiet r) (suc fuel) max (m, w) p
        ≡ process_main
            (quiet r)
            fuel
            max
            (
              record m {
                main = (Queue.pop m.main).0;
                total_dispatched = u64 (m.total_dispatched + 1);
              },
              offer r m.listeners m.receivers e w,
            )
            (u64 (p + 1))
  unfolding process_main
  main_step fuel max p m w e h more =
      rw
        (
          process_main,
          h,
          dispatch_event-quiet r e (record m { main = (Queue.pop m.main).0 }) w,
          more,
        )
        refl

  main_last :
      (fuel max p : ℕ) (m : Manager) (w : W) (e : Event)
      → (Queue.pop m.main).1 ≡ some e
      → (ltb 0 max && leb max (u64 (p + 1))) ≡ true
      → process_main (quiet r) (suc fuel) max (m, w) p
        ≡ some (
          (
            record m {
              main = (Queue.pop m.main).0;
              total_dispatched = u64 (m.total_dispatched + 1);
            },
            offer r m.listeners m.receivers e w,
          ),
          u64 (p + 1),
        )
  unfolding process_main
  main_last fuel max p m w e h enough =
      rw
        (
          process_main,
          h,
          dispatch_event-quiet r e (record m { main = (Queue.pop m.main).0 }) w,
          enough,
        )
        refl

  main_end :
      (fuel max p : ℕ) (s : Manager × W)
      → (Queue.pop s.0.main).1 ≡ none
      → process_main (quiet r) (suc fuel) max s p ≡ some (s, p)
  unfolding process_main
  main_end fuel max p s h = rw (process_main, h) refl

  -- The main queue holds `served` and then `left`, and the call ends with `left`.
  pub record Serves (es : List Event) (fuel max p : ℕ) (m : Manager) (w : W) : Type 0 where
    pub served : List Event
    pub left : List Event
    pub queue : EventQueue
    pub split : es ≡ served ++ left
    pub number : length served ≡ quota max p (length es)
    pub holds : contents queue ≡ left
    pub ran :
        process_main (quiet r) fuel max (m, w) p
        ≡ some (
          (
            record m { main = queue; total_dispatched = u64 (m.total_dispatched + length served) },
            offer_all r m.listeners m.receivers served w,
          ),
          p + length served,
        )

  pub drain_main :
      (es : List Event) (fuel max p : ℕ) (m : Manager) (w : W)
      → IsValid m.main
      → contents m.main ≡ es
      → length es < fuel
      → p + length es < 2 ^ 64
      → m.total_dispatched < 2 ^ 64
      → Serves es fuel max p m w
  unfolding offer_all quota
  drain_main es zero max p m w v c f b t = absurd (omega arith)
  drain_main [] (suc fuel) max p m w v c f b t =
      let popped = rw c at (pop_refines m.main v).0 in
      let nothing : u64 (m.total_dispatched + 0) ≡ m.total_dispatched = omega arith in
      let still : p + 0 ≡ p = omega arith in
      record {
        served = [];
        left = [];
        queue = m.main;
        split = refl;
        number = ground arith;
        holds = c;
        ran = rw (main_end fuel max p (m, w) (ap (λ x. x.1) popped), nothing, still) refl;
      }
  drain_main (e ∷ es) (suc fuel) max p m w v c f b t =
      let popped = rw c at (pop_refines m.main v).0 in
      let m' : Manager = record m {
        main = (Queue.pop m.main).0;
        total_dispatched = u64 (m.total_dispatched + 1);
      } in
      elim (Bool-cases (ltb 0 max && leb max (u64 (p + 1)))) [
        | inl enough ↦
            let one : u64 (p + 1) ≡ p + 1 = omega arith in
            record {
              served = e ∷ [];
              left = es;
              queue = (Queue.pop m.main).0;
              split = refl;
              number = ground (arith, one);
              holds = ap (λ x. x.0) popped;
              ran = rw (main_last fuel max p m w e (ap (λ x. x.1) popped) enough, one) refl;
            }
        | inr more ↦
            let next =
              drain_main es fuel max (u64 (p + 1)) m' (offer r m.listeners m.receivers e w)
                (pop_refines m.main v).2 (ap (λ x. x.0) popped) (omega arith) (omega arith)
                (omega arith) in
            let sum : u64 (p + 1) + length next.served ≡ p + suc (length next.served) =
              omega arith in
            let one : u64 (p + 1) ≡ p + 1 = omega arith in
            record {
              served = e ∷ next.served;
              left = next.left;
              queue = next.queue;
              split = ap (λ xs. e ∷ xs) next.split;
              number = ground (arith, next.number, one);
              holds = next.holds;
              ran =
                  rw
                    (
                      main_step fuel max p m w e (ap (λ x. x.1) popped) more,
                      next.ran,
                      counted m.total_dispatched (length next.served),
                      sum,
                    )
                    refl;
            }
      ]
