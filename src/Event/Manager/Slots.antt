-- ===== src/Event/Manager/Slots.antt =====
-- The slots of listeners: their ids, and their number.
use qaiosplus.Base.{
  ℕ, zero, suc, ◌+◌, ◌-◌, ◌≤◌, ◌<◌, ◌^◌, ◌≡◌, ◌≢◌, refl, Bool, not, ◌||◌, some, arith, leb, ◌==◌,
  if◌then◌else◌, update, u64, u32, sub64, first_from, First, first_from-zero, Bool-cases,
  Option-cases, inl, inr, ◌⊎◌, ==→eq,
}
use qaiosplus.Event.Manager.{Manager, Listener, default_listener, max_listeners, add_listener}

-- The slots below `n` whose id is not 0.
unfoldable pub count_used : ℕ → (ℕ → Listener) → ℕ
count_used zero ls = 0
count_used (suc n) ls = count_used n ls + (if (ls n).id == 0 then 0 else 1)

pub count_used-le : (n : ℕ) (ls : ℕ → Listener) → count_used n ls ≤ n
unfolding count_used
count_used-le zero ls = omega arith
count_used-le (suc n) ls = ground (arith, count_used-le n ls)

count_used_outside :
    (n k : ℕ) (ls : ℕ → Listener) (l : Listener)
    → n ≤ k
    → count_used n (update ls k l) ≡ count_used n ls
unfolding count_used
count_used_outside zero k ls l h = refl
count_used_outside (suc n) k ls l h = ground (arith, count_used_outside n k ls l)

-- A slot that is not used counts one more when it is taken.
pub count_used-take :
    (n k : ℕ) (ls : ℕ → Listener) (l : Listener)
    → k < n
    → (ls k).id ≡ 0
    → l.id ≢ 0
    → count_used n (update ls k l) ≡ count_used n ls + 1
unfolding count_used
count_used-take zero k ls l h e x = absurd (omega arith)
count_used-take (suc n) k ls l h e x = elim (Bool-cases (k == n)) [
  | inl t ↦ ground (arith, count_used_outside n k ls l)
  | inr t ↦ ground (arith, count_used-take n k ls l)
]

pub count_used-drop :
    (n k : ℕ) (ls : ℕ → Listener) (l : Listener)
    → k < n
    → (ls k).id ≢ 0
    → l.id ≡ 0
    → count_used n ls ≡ count_used n (update ls k l) + 1
unfolding count_used
count_used-drop zero k ls l h e x = absurd (omega arith)
count_used-drop (suc n) k ls l h e x = elim (Bool-cases (k == n)) [
  | inl t ↦ ground (arith, count_used_outside n k ls l)
  | inr t ↦ ground (arith, count_used-drop n k ls l)
]

-- The ids in use are distinct and below the next one, which has no high bit, and the counter is the
-- number of slots in use.
pub record IsTable (m : Manager) : Type 0 where
  pub small : m.next_listener_id < 2 ^ 31
  pub positive : 0 < m.next_listener_id
  pub fresh : (i : ℕ) → i < max_listeners → (m.listeners i).id < m.next_listener_id
  pub distinct :
      (i j : ℕ)
      → i < max_listeners
      → j < max_listeners
      → (m.listeners i).id ≢ 0
      → (m.listeners i).id ≡ (m.listeners j).id
      → i ≡ j
  pub count : m.listener_count ≡ count_used max_listeners m.listeners

abbrev pub with_listener : Manager → Listener → ℕ → Manager
with_listener m l k = record m {
  listeners = update m.listeners k (record l { id = m.next_listener_id });
  next_listener_id = u32 (m.next_listener_id + 1);
  listener_count = u64 (m.listener_count + 1);
}

abbrev pub without_listener : Manager → ℕ → Manager
without_listener m k = record m {
  listeners = update m.listeners k default_listener;
  listener_count = sub64 m.listener_count 1;
}

abbrev pub is_vacant : Manager → ℕ → Bool
is_vacant m i = (m.listeners i).id == 0

abbrev pub bears : Manager → ℕ → ℕ → Bool
bears m id i = (m.listeners i).id == id

pub add_listener_cases :
    (m : Manager) (l : Listener)
    → (add_listener m l ≡ (m, 0))
      ⊎ ((k : ℕ) × First (is_vacant m) 0 max_listeners (some k)
          × (add_listener m l ≡ (with_listener m l k, m.next_listener_id)))
unfolding add_listener
add_listener_cases m l =
    elim (Bool-cases (not m.initialized || leb max_listeners m.listener_count)) [
      | inl t ↦ inl (rw (add_listener, t) refl)
      | inr t ↦ elim (Option-cases (first_from max_listeners 0 (is_vacant m))) [
        | inl e ↦ inl (rw (add_listener, t, e) refl)
        | inr (k, e) ↦ inr (
          k,
          first_from-zero max_listeners (is_vacant m) (some k) e,
          rw (add_listener, t, e) refl,
        )
      ]
    ]

with_listener-IsTable :
    (m : Manager) (l : Listener) (k : ℕ)
    → IsTable m
    → k < max_listeners
    → (m.listeners k).id ≡ 0
    → m.next_listener_id < 2 ^ 31 - 1
    → IsTable (with_listener m l k)
with_listener-IsTable m l k v h e room = record {
  small = omega arith;
  positive = omega (arith, v.positive);
  fresh = λ i b. ground (arith, v.fresh i);
  distinct = λ i j b c u same. ground (arith, v.fresh i b, v.fresh j c, v.distinct i j b c);
  count = ground (
    arith,
    v.count,
    count_used-le max_listeners m.listeners,
    count_used-take max_listeners k m.listeners (record l { id = m.next_listener_id }) h e
        (omega (arith, v.positive)),
  );
}

-- `addListener` keeps the ids distinct and below the next one, and the counter equal to the number of
-- slots in use, until the ids reach the bit that marks receivers.
pub add_listener-IsTable :
    (m : Manager) (l : Listener)
    → IsTable m
    → m.next_listener_id < 2 ^ 31 - 1
    → IsTable (add_listener m l).0
add_listener-IsTable m l v room = elim (add_listener_cases m l) [
  | inl e ↦ rw e v
  | inr (k, f, e) ↦ rw e (with_listener-IsTable m l k v f.1 (==→eq _ 0 f.2) room)
]
