-- ===== src/Event/Manager/Dispatch.antt =====
-- Dispatch where handlers and receivers leave the manager alone: who is asked, and in which order.
use qaiosplus.Base.{
  ℕ, zero, suc, ◌+◌, ◌≡◌, refl, ap, Bool, true, false, not, ◌&&◌, ◌||◌, leb, List, [], ◌∷◌, arith,
  ◌==◌, if◌then◌else◌, u64, tabulate, tabulate_ext, filter_by, Bool-cases, inl, inr,
}
use qaiosplus.Event.{Event, has_category}
use qaiosplus.Event.Manager.{
  Manager, Listener, Env, max_listeners, listens, visit_listener, visit_receiver, visit_from,
  dispatch_event,
}

-- What handlers and receivers do to their own state, and whether they consume the event.
pub record Reactions (W : Type 0) : Type 0 where
  pub handle : ℕ → ℕ → Event → W → W × Bool
  pub receive : ℕ → Event → W → W × Bool
  pub is_enabled : ℕ → Bool
  pub event_mask : ℕ → ℕ

abbrev pub quiet : {W : Type 0} → Reactions W → Env W
quiet r = record {
  handle = λ h d e s. ((s.0, (r.handle h d e s.1).0), (r.handle h d e s.1).1);
  receive = λ p e s. ((s.0, (r.receive p e s.1).0), (r.receive p e s.1).1);
  is_enabled = λ p s. r.is_enabled p;
  event_mask = r.event_mask;
}

pub wants : Event → Listener → Bool
wants e l =
    not (l.id == 0)
    && l.enabled
    && ((l.event_type == 0) || (l.event_type == e.kind))
    && has_category e.category l.category_mask
    && leb l.min_priority e.priority
    && not (l.handler == 0)

pub accepts : {W : Type 0} → Reactions W → Event → ℕ → Bool
accepts r e p = not (p == 0) && r.is_enabled p && has_category e.category (r.event_mask p)

-- The handlers of a list of listeners, up to the first that consumes the event; and receivers.
pub ask : {W : Type 0} → Reactions W → Event → List Listener → W → W × Bool
ask r e [] w = (w, false)
ask r e (l ∷ ls) w =
    let (w', handled) = r.handle l.handler l.user_data e w in
    let rest = ask r e ls w' in if handled then (w', true) else rest

pub ask_receivers : {W : Type 0} → Reactions W → Event → List ℕ → W → W × Bool
ask_receivers r e [] w = (w, false)
ask_receivers r e (p ∷ ps) w =
    let (w', handled) = r.receive p e w in
    let rest = ask_receivers r e ps w' in if handled then (w', true) else rest

-- What becomes of the state outside: the listeners of the event in slot order, then the receivers.
pub offer : {W : Type 0} → Reactions W → (ℕ → Listener) → (ℕ → ℕ) → Event → W → W
unfolding ask ask_receivers
offer r listeners receivers e w =
    let (w', handled) = ask r e (filter_by (wants e) (tabulate listeners max_listeners)) w in
    let (w'', ended) =
      ask_receivers r e (filter_by (accepts r e) (tabulate receivers max_listeners)) w' in
    if handled then w' else w''

shift_table :
    {A : Type 0} (f : ℕ → A) (i n : ℕ)
    → tabulate (λ j. f (i + suc j)) n ≡ tabulate (λ j. f (i + 1 + j)) n
shift_table f i n =
    tabulate_ext (λ j. f (i + suc j)) (λ j. f (i + 1 + j)) n
      (λ j l. let same : i + suc j ≡ i + 1 + j = omega arith in ap f same)

module _ {W : Type 0} (visit : ℕ → Manager × W → (Manager × W) × Bool) (n i : ℕ)
    (s s' : Manager × W) where
  round_next :
      visit i s ≡ (s', false) → visit_from (suc n) i visit s ≡ visit_from n (i + 1) visit s'
  unfolding visit_from
  round_next h = rw h refl

  round_last : visit i s ≡ (s', true) → visit_from (suc n) i visit s ≡ (s', true)
  unfolding visit_from
  round_last h = rw h refl

module _ {W : Type 0} (r : Reactions W) (e : Event) (m : Manager) where
  visit_wanted :
      (i : ℕ) (w : W)
      → wants e (m.listeners i) ≡ true
      → visit_listener (quiet r) e i (m, w) ≡ (
        (m, (r.handle (m.listeners i).handler (m.listeners i).user_data e w).0),
        (r.handle (m.listeners i).handler (m.listeners i).user_data e w).1,
      )
  unfolding visit_listener wants listens
  visit_wanted i w h = ground arith

  visit_unwanted :
      (i : ℕ) (w : W)
      → wants e (m.listeners i) ≡ false
      → visit_listener (quiet r) e i (m, w) ≡ ((m, w), false)
  unfolding visit_listener wants listens
  visit_unwanted i w h = ground arith

  visit_accepted :
      (i : ℕ) (w : W)
      → accepts r e (m.receivers i) ≡ true
      → visit_receiver (quiet r) e i (m, w)
        ≡ ((m, (r.receive (m.receivers i) e w).0), (r.receive (m.receivers i) e w).1)
  unfolding visit_receiver accepts
  visit_accepted i w h = ground arith

  visit_refused :
      (i : ℕ) (w : W)
      → accepts r e (m.receivers i) ≡ false
      → visit_receiver (quiet r) e i (m, w) ≡ ((m, w), false)
  unfolding visit_receiver accepts
  visit_refused i w h = ground arith

  visit_none :
      (i : ℕ) (visit : ℕ → Manager × W → (Manager × W) × Bool) (s : Manager × W)
      → visit_from 0 i visit s ≡ (s, false)
  unfolding visit_from
  visit_none i visit s = refl

  visit_listeners :
      (n i : ℕ) (w : W)
      → let asked = ask r e (filter_by (wants e) (tabulate (λ j. m.listeners (i + j)) n)) w in
        visit_from n i (visit_listener (quiet r) e) (m, w) ≡ ((m, asked.0), asked.1)
  unfolding ask
  visit_listeners zero i w = visit_none i (visit_listener (quiet r) e) (m, w)
  visit_listeners (suc n) i w =
      let here : i + 0 ≡ i = omega arith in
      let l = m.listeners i in
      let visit = visit_listener (quiet r) e in
      rw (here, shift_table m.listeners i n)
        (elim (Bool-cases (wants e l)) [
          | inl t ↦ elim (Bool-cases (r.handle l.handler l.user_data e w).1) [
            | inl h ↦
                rw
                  (
                    round_last visit n i (m, w) (m, (r.handle l.handler l.user_data e w).0)
                        (rw (visit_wanted i w t, h) refl),
                    t,
                    h,
                  )
                  refl
            | inr h ↦
                rw
                  (
                    round_next visit n i (m, w) (m, (r.handle l.handler l.user_data e w).0)
                        (rw (visit_wanted i w t, h) refl),
                    t,
                    h,
                    visit_listeners n (i + 1) (r.handle l.handler l.user_data e w).0,
                  )
                  refl
          ]
          | inr f ↦
              rw
                (
                  round_next visit n i (m, w) (m, w) (visit_unwanted i w f),
                  f,
                  visit_listeners n (i + 1) w,
                )
                refl
        ])

  visit_receivers :
      (n i : ℕ) (w : W)
      → let asked =
          ask_receivers r e (filter_by (accepts r e) (tabulate (λ j. m.receivers (i + j)) n)) w in
        visit_from n i (visit_receiver (quiet r) e) (m, w) ≡ ((m, asked.0), asked.1)
  unfolding ask_receivers
  visit_receivers zero i w = visit_none i (visit_receiver (quiet r) e) (m, w)
  visit_receivers (suc n) i w =
      let here : i + 0 ≡ i = omega arith in
      let p = m.receivers i in
      let visit = visit_receiver (quiet r) e in
      rw (here, shift_table m.receivers i n)
        (elim (Bool-cases (accepts r e p)) [
          | inl t ↦ elim (Bool-cases (r.receive p e w).1) [
            | inl h ↦
                rw
                  (
                    round_last visit n i (m, w) (m, (r.receive p e w).0)
                        (rw (visit_accepted i w t, h) refl),
                    t,
                    h,
                  )
                  refl
            | inr h ↦
                rw
                  (
                    round_next visit n i (m, w) (m, (r.receive p e w).0)
                        (rw (visit_accepted i w t, h) refl),
                    t,
                    h,
                    visit_receivers n (i + 1) (r.receive p e w).0,
                  )
                  refl
          ]
          | inr f ↦
              rw
                (
                  round_next visit n i (m, w) (m, w) (visit_refused i w f),
                  f,
                  visit_receivers n (i + 1) w,
                )
                refl
        ])

-- Where handlers and receivers leave the manager alone, a dispatch asks the listeners whose filters
-- the event passes, in slot order, and then the receivers, up to the first that consumes the event;
-- the manager counts the dispatch and is otherwise as it was.
pub dispatch_event-quiet :
    {W : Type 0} (r : Reactions W) (e : Event) (m : Manager) (w : W)
    → dispatch_event (quiet r) e (m, w) ≡ (
      record m { total_dispatched = u64 (m.total_dispatched + 1) },
      offer r m.listeners m.receivers e w,
    )
unfolding dispatch_event offer
dispatch_event-quiet r e m w =
    let counted : Manager = record m { total_dispatched = u64 (m.total_dispatched + 1) } in
    let asked = ask r e (filter_by (wants e) (tabulate m.listeners max_listeners)) w in
    rw
      (
        visit_listeners r e counted max_listeners 0 w,
        visit_receivers r e counted max_listeners 0 asked.0,
      )
      (elim (Bool-cases asked.1) [ inl h ↦ rw h refl | inr h ↦ rw h refl ])
