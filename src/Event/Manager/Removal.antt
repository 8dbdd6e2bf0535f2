-- ===== src/Event/Manager/Removal.antt =====
-- Removing listeners.
use qaiosplus.Base.{
  ℕ, zero, suc, ◌+◌, ◌-◌, ◌≤◌, ◌<◌, ◌^◌, ◌≡◌, ◌≢◌, refl, ap, false, none, some, arith, ◌==◌,
  if◌then◌else◌, u64, first_from, First, first_from-zero, Option-cases, inl, inr, ◌⊎◌, ==→eq,
  ==-false→ne, eq→==,
}
use qaiosplus.Event.Manager.{
  Manager, Listener, default_listener, max_listeners, add_listener, remove_listener,
  remove_handler_from, remove_listeners_for_handler,
}
use qaiosplus.Event.Manager.Slots.{
  IsTable, count_used-le, count_used-drop, with_listener, without_listener, bears,
  add_listener_cases,
}

remove_listener_cases :
    (m : Manager) (id : ℕ)
    → id ≢ 0
    → id < 2 ^ 31
    → (((i : ℕ) → 0 ≤ i → i < max_listeners → bears m id i ≡ false) × (remove_listener m id ≡ m))
      ⊎ ((k : ℕ) × First (bears m id) 0 max_listeners (some k)
          × (remove_listener m id ≡ without_listener m k))
unfolding remove_listener
remove_listener_cases m id h s = elim (Option-cases (first_from max_listeners 0 (bears m id))) [
  | inl e ↦
      inl
        (first_from-zero max_listeners (bears m id) none e, rw (remove_listener, e) (ground arith))
  | inr (k, e) ↦ inr (
    k,
    first_from-zero max_listeners (bears m id) (some k) e,
    rw (remove_listener, e) (ground arith),
  )
]

without_listener-IsTable :
    (m : Manager) (k : ℕ)
    → IsTable m
    → k < max_listeners
    → (m.listeners k).id ≢ 0
    → IsTable (without_listener m k)
without_listener-IsTable m k v h e = record {
  small = v.small;
  positive = v.positive;
  fresh = λ i b. ground (arith, v.fresh i, v.positive);
  distinct = λ i j b c u same. ground (arith, v.distinct i j b c);
  count = ground (
    arith,
    v.count,
    count_used-le max_listeners m.listeners,
    count_used-drop max_listeners k m.listeners default_listener h e refl,
  );
}

-- `removeListener` of a listener's id keeps the ids distinct and the counter equal to the number of
-- slots in use, whether the id is in use or not.
pub remove_listener-IsTable :
    (m : Manager) (id : ℕ) → IsTable m → id ≢ 0 → id < 2 ^ 31 → IsTable (remove_listener m id)
remove_listener-IsTable m id v h s = elim (remove_listener_cases m id h s) [
  | inl e ↦ rw e.1 v
  | inr (k, f, e) ↦ rw e (without_listener-IsTable m k v f.1 (ground (arith, f.2)))
]

-- Where the next id lies between 1 and 2 ^ 31 - 1 and above the ids of all slots, no two slots in use have
-- one id, and the counter is the number of slots in use, the id that `addListener` gives, when it gives
-- one, removes that listener and no other: after `removeListener` the slots in use and the counter are
-- as they were before. From 2 ^ 31 on the program takes an id for one of a receiver.
pub remove_listener-add_listener :
    (m : Manager) (l : Listener)
    → IsTable m
    → (add_listener m l).1 ≢ 0
    → let m' = remove_listener (add_listener m l).0 (add_listener m l).1 in
      ((i : ℕ)
        → i < max_listeners
        → (m'.listeners i ≡ (if (m.listeners i).id == 0 then m'.listeners i else m.listeners i))
          × ((m'.listeners i).id ≡ (m.listeners i).id))
      × (m'.listener_count ≡ m.listener_count)
remove_listener-add_listener m l v given = elim (add_listener_cases m l) [
  | inl e ↦ absurd (given (ap (λ x. x.1) e))
  | inr (k, f, e) ↦
      let m1 = with_listener m l k in
      let vacant = ==→eq (m.listeners k).id 0 f.2 in
      elim (remove_listener_cases m1 m.next_listener_id (omega (arith, v.positive)) v.small) [
        | inl missing ↦ absurd (
            ==-false→ne (m1.listeners k).id m.next_listener_id (missing.0 k f.0 f.1) (ground arith))
        | inr (j, g, d) ↦
            let same : j ≡ k = ground (arith, g.2, v.fresh j g.1) in
            rw (e, d)
              (
                (λ i b. (ground (arith, same, vacant), ground (arith, same, vacant))),
                omega (arith, v.count, count_used-le max_listeners m.listeners),
              )
      ]
]

drop_each :
    (n i gone : ℕ) (m : Manager)
    → gone + n ≤ 64
    → ((j : ℕ) → (m.listeners j).handler ≡ 0)
    → m.listener_count ≡ u64 (2 ^ 64 - gone)
    → (remove_handler_from n i 0 m).listener_count ≡ u64 (2 ^ 64 - (gone + n))
unfolding remove_handler_from
drop_each zero i gone m b h c = omega (arith, c)
drop_each (suc n) i gone m b h c =
    let there = eq→== (m.listeners i).handler 0 (h i) in
    let one : gone + 1 + n ≡ gone + suc n = omega arith in
    rw (remove_handler_from, there)
      (rw one at (
        drop_each n (i + 1) (gone + 1) (without_listener m i) (omega arith)
          (λ j. ground (arith, h j)) (omega (arith, c))))

-- `removeListenersForHandler` with the null handler, where no listener is registered, takes each of
-- the 64 empty slots for a match: the counter of listeners wraps from 0 to 2 ^ 64 - 64.
pub remove_listeners_for_handler_null :
    (m : Manager)
    → ((j : ℕ) → (m.listeners j).handler ≡ 0)
    → m.listener_count ≡ 0
    → (remove_listeners_for_handler m 0).listener_count ≡ 2 ^ 64 - max_listeners
unfolding remove_listeners_for_handler
remove_listeners_for_handler_null m h c = drop_each 64 0 0 m (omega arith) h (omega (arith, c))
