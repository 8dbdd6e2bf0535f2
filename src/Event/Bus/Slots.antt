-- ===== src/Event/Bus/Slots.antt =====
-- Subscriptions: the slots that a call takes, and who is called for a topic.
use qaiosplus.Base.{
  ℕ, zero, suc, ◌+◌, ◌-◌, ◌<◌, ◌^◌, ◌≡◌, ◌≢◌, refl, ap, ◌∙◌, Bool, true, false, not, ◌&&◌, List, [],
  ◌∷◌, none, some, arith, ◌==◌, if◌then◌else◌, update, u32, first_from, First, first_from-zero,
  filter_by, tabulate, tabulate_ext, Bool-cases, Option-cases, inl, inr, ◌⊎◌, ne→==-false,
}
use qaiosplus.Event.Bus.{
  Bus, Sub, empty_sub, max_subs, is_free, has_id, subscribe, unsubscribe, deliver, Delivery,
}

-- The ids in use are distinct, not 0 and below the next one, which has not wrapped.
pub record IsValid (b : Bus) : Type 0 where
  pub small : b.next_id < 2 ^ 32 - 1
  pub fresh : (i : ℕ) → (b.subs i).used ≡ true → (0 < (b.subs i).id) × ((b.subs i).id < b.next_id)
  pub positive : 0 < b.next_id
  pub distinct :
      (i j : ℕ)
      → (b.subs i).used ≡ true
      → (b.subs j).used ≡ true
      → (b.subs i).id ≡ (b.subs j).id
      → i ≡ j

subscribe_found :
    (b : Bus) (topic handler user_data k : ℕ)
    → handler ≢ 0
    → topic ≢ 0
    → first_from max_subs 0 (is_free b.subs) ≡ some k
    → subscribe b topic handler user_data ≡ (
      record b {
        subs = update b.subs k (record {
          id = b.next_id;
          topic = topic;
          handler = handler;
          user_data = user_data;
          used = true;
        });
        next_id = u32 (b.next_id + 1);
      },
      b.next_id,
    )
unfolding subscribe
subscribe_found b topic handler user_data k h t e =
    rw (ne→==-false handler 0 h, ne→==-false topic 0 t, e, subscribe)

unsubscribe_found :
    (b : Bus) (id k : ℕ)
    → id ≢ 0
    → first_from max_subs 0 (has_id b.subs id) ≡ some k
    → unsubscribe b id ≡ (record b { subs = update b.subs k empty_sub }, true)
unfolding unsubscribe
unsubscribe_found b id k h e = rw (ne→==-false id 0 h, e, unsubscribe)

unsubscribe_missing :
    (b : Bus) (id : ℕ)
    → first_from max_subs 0 (has_id b.subs id) ≡ none
    → unsubscribe b id ≡ (b, false)
unfolding unsubscribe
unsubscribe_missing b id e = ground (arith, e)

subscribe_full :
    (b : Bus) (topic handler user_data : ℕ)
    → first_from max_subs 0 (is_free b.subs) ≡ none
    → subscribe b topic handler user_data ≡ (b, 0)
unfolding subscribe
subscribe_full b topic handler user_data e = ground (arith, e)

-- One new subscription in slot `k`.
abbrev pub Subscribes : Bus → Bus × ℕ → ℕ → ℕ → ℕ → ℕ → Type 0
Subscribes b out topic handler user_data k =
    (out.1 ≡ b.next_id)
    × (0 < b.next_id)
    × ((i : ℕ) → (b.subs i).used ≡ true → (b.subs i).id ≢ b.next_id)
    × ((i : ℕ)
        → out.0.subs i ≡ (
            if i == k
            then record {
              id = b.next_id;
              topic = topic;
              handler = handler;
              user_data = user_data;
              used = true;
            }
            else b.subs i))

-- With a handler and a topic that are not 0, `subscribe` takes the first slot that is not used, under
-- an id that no subscription has, and leaves the other slots alone; where all 64 slots are used it
-- gives 0 and changes nothing.
pub subscribe-First_free :
    (b : Bus) (topic handler user_data : ℕ)
    → IsValid b
    → handler ≢ 0
    → topic ≢ 0
    → (((i : ℕ) → i < max_subs → (b.subs i).used ≡ true)
        × (subscribe b topic handler user_data ≡ (b, 0)))
      ⊎ ((k : ℕ) × First (is_free b.subs) 0 max_subs (some k)
          × Subscribes b (subscribe b topic handler user_data) topic handler user_data k)
subscribe-First_free b topic handler user_data v h t =
    elim (Option-cases (first_from max_subs 0 (is_free b.subs))) [
      | inl e ↦
          let f = first_from-zero max_subs (is_free b.subs) none e in
          inl (
            (λ i l. ground (arith, f i (omega arith) l)),
            subscribe_full b topic handler user_data e,
          )
      | inr (k, e) ↦ inr (
        k,
        first_from-zero max_subs (is_free b.subs) (some k) e,
        rw (subscribe_found b topic handler user_data k h t e)
            (refl, v.positive, λ i u same. omega (arith, v.fresh i u), λ i. refl),
      )
    ]

new_IsValid :
    (b : Bus) (topic handler user_data k : ℕ)
    → IsValid b
    → b.next_id < 2 ^ 32 - 2
    → IsValid (record b {
      subs = update b.subs k (record {
        id = b.next_id;
        topic = topic;
        handler = handler;
        user_data = user_data;
        used = true;
      });
      next_id = u32 (b.next_id + 1);
    })
new_IsValid b topic handler user_data k v room = record {
  small = omega arith;
  fresh = λ i u. elim (Bool-cases (i == k)) [
    | inl same ↦ rw same (v.positive, omega arith)
    | inr other ↦ let f = v.fresh i (ground (arith, u)) in rw other (f.0, omega (arith, f.1))
  ];
  positive = omega (arith, v.positive);
  distinct = λ i j u w same. elim (Bool-cases (i == k)) [
    | inl a ↦ elim (Bool-cases (j == k)) [
      | inl c ↦ ground arith
      | inr c ↦ let f = v.fresh j (ground (arith, w)) in ground (arith, same, f.1)
    ]
    | inr a ↦ elim (Bool-cases (j == k)) [
      | inl c ↦ let f = v.fresh i (ground (arith, u)) in ground (arith, same, f.1)
      | inr c ↦ v.distinct i j (ground (arith, u)) (ground (arith, w)) (ground (arith, same))
    ]
  ];
}

-- `subscribe` keeps the ids of the subscriptions distinct and below the next one, until the 32-bit
-- counter is about to wrap.
pub subscribe-IsValid :
    (b : Bus) (topic handler user_data : ℕ)
    → IsValid b
    → handler ≢ 0
    → topic ≢ 0
    → b.next_id < 2 ^ 32 - 2
    → IsValid (subscribe b topic handler user_data).0
subscribe-IsValid b topic handler user_data v h t room =
    elim (Option-cases (first_from max_subs 0 (is_free b.subs))) [
      | inl e ↦ rw (subscribe_full b topic handler user_data e) v
      | inr (k, e) ↦
          rw (subscribe_found b topic handler user_data k h t e)
            (new_IsValid b topic handler user_data k v room)
    ]

-- `unsubscribe` of an id in use answers `true` and empties the slot of that id alone; of any other id
-- it answers `false` and changes nothing.
pub unsubscribe_slot :
    (b : Bus) (id : ℕ)
    → id ≢ 0
    → ((k : ℕ) × ((b.subs k).id ≡ id)
        × ((b.subs k).used ≡ true)
        × ((unsubscribe b id).1 ≡ true)
        × ((i : ℕ) → (unsubscribe b id).0.subs i ≡ (if i == k then empty_sub else b.subs i)))
      ⊎ (((i : ℕ) → i < max_subs → (b.subs i).used ≡ true → (b.subs i).id ≢ id)
          × (unsubscribe b id ≡ (b, false)))
unsubscribe_slot b id h = elim (Option-cases (first_from max_subs 0 (has_id b.subs id))) [
  | inl e ↦
      let f = first_from-zero max_subs (has_id b.subs id) none e in
      inr ((λ i l u same. ground (arith, f i (omega arith) l)), unsubscribe_missing b id e)
  | inr (k, e) ↦
      let f = first_from-zero max_subs (has_id b.subs id) (some k) e in
      inl (
        k,
        ground (arith, f.2),
        ground (arith, f.2),
        rw (unsubscribe_found b id k h e),
        λ i. rw (unsubscribe_found b id k h e),
      )
]

-- Who is called for a topic, read off the slots.
abbrev pub listens : ℕ → Sub → Bool
listens topic s = s.used && (s.topic == topic) && not (s.handler == 0)

pub calls : ℕ → List Sub → List Delivery
calls p [] = []
calls p (s ∷ ss) = (s.handler, p, s.user_data) ∷ calls p ss

deliver-listens :
    (n i : ℕ) (subs : ℕ → Sub) (topic p : ℕ)
    → deliver n i subs topic p
      ≡ calls p (filter_by (listens topic) (tabulate (λ j. subs (i + j)) n))
unfolding deliver calls
deliver-listens zero i subs topic p = refl
deliver-listens (suc n) i subs topic p =
    let here : i + 0 ≡ i = omega arith in
    let next =
      tabulate_ext (λ j. subs (i + 1 + j)) (λ j. subs (i + suc j)) n
        (λ j l. let same : i + 1 + j ≡ i + suc j = omega arith in ap subs same) in
    rw (deliver-listens n (i + 1) subs topic p, next, here) (ground arith)

-- A topic is delivered in slot order to each subscription in use that names it, once, and to no other.
pub deliver_all :
    (subs : ℕ → Sub) (topic p : ℕ)
    → deliver max_subs 0 subs topic p ≡ calls p (filter_by (listens topic) (tabulate subs max_subs))
deliver_all subs topic p =
    deliver-listens max_subs 0 subs topic p
    ∙ ap (λ l. calls p (filter_by (listens topic) l))
        (tabulate_ext (λ j. subs (0 + j)) subs max_subs
          (λ j l. let same : 0 + j ≡ j = omega arith in ap subs same))
