-- ===== src/Event/Bus/Refs.antt =====
-- Reference counts of envelopes across `publish` and `onEvent`.
use qaiosplus.Base.{
  ℕ, ◌+◌, ◌-◌, ◌≤◌, ◌<◌, ◌^◌, ◌≡◌, ◌≢◌, refl, ap, sym, ◌∙◌, true, false, ◌&&◌, arith, ◌==◌,
  if◌then◌else◌, update, u32, Bool-cases, inl, inr, ==→eq, eq→==, ne→==-false, lt→ltb, le→ltb-false,
}
use qaiosplus.Event.Bus.{Bus, Envelope, Store, retain, release, publish, deliver_event}

-- An envelope in the store with room in its counter.
pub record IsHeld (s : Store) (p : ℕ) : Type 0 where
  pub pointer : p ≢ 0
  pub alive : (s p).live ≡ true
  pub held : 0 < (s p).ref_count
  pub small : (s p).ref_count < 2 ^ 32 - 1

retain_held :
    (s : Store) (p : ℕ)
    → IsHeld s p
    → retain s p ≡ update s p (record (s p) { ref_count = (s p).ref_count + 1 })
unfolding retain
retain_held s p h =
    let n : u32 ((s p).ref_count + 1) ≡ (s p).ref_count + 1 = omega (arith, h.small) in
    rw (ne→==-false p 0 h.pointer, n)

release_shared :
    (s : Store) (p : ℕ)
    → p ≢ 0
    → 1 < (s p).ref_count
    → release s p ≡ update s p (record (s p) { ref_count = (s p).ref_count - 1 })
unfolding release
release_shared s p z h = rw (ne→==-false p 0 z, lt→ltb 1 (s p).ref_count h)

release_last :
    (s : Store) (p : ℕ)
    → p ≢ 0
    → (s p).ref_count ≤ 1
    → release s p
      ≡ update s p (record (s p) {
        destroyed =
            if (s p).has_destroy && (s p).has_payload then (s p).destroyed + 1 else (s p).destroyed;
        live = false;
      })
unfolding release
release_last s p z h = rw (ne→==-false p 0 z, le→ltb-false 1 (s p).ref_count h)

-- At its own address an update is the value.
at_self : (s : Store) (p : ℕ) (e : Envelope) → update s p e p ≡ e
at_self s p e = rw (eq→== p p refl)

published :
    (s : Store) (p : ℕ)
    → IsHeld s p
    → (s p).topic ≢ 0
    → publish s true p ≡ (update s p (record (s p) { ref_count = (s p).ref_count + 1 }), true)
unfolding publish
published s p h t = rw (ne→==-false p 0 h.pointer, ne→==-false (s p).topic 0 t, retain_held s p h)

Envelope-eta : (e : Envelope) (n : ℕ) → n ≡ e.ref_count → record e { ref_count = n } ≡ e
Envelope-eta e n h = ap (λ k. record e { ref_count = k }) h

-- `publish` that the event manager refuses leaves every envelope as it was, its count included, and
-- answers `false`.
pub publish_refused :
    (s : Store) (p q : ℕ)
    → IsHeld s p
    → ((publish s false p).0 q ≡ s q) × ((publish s false p).1 ≡ false)
unfolding publish
publish_refused s p q h = elim (Bool-cases ((s p).topic == 0)) [
  | inl z ↦ rw (ne→==-false p 0 h.pointer, z) (refl, refl)
  | inr nz ↦
      let kept = record (s p) { ref_count = (s p).ref_count + 1 } in
      let shared : 1 < (update s p kept p).ref_count =
        rw (at_self s p kept) (omega (arith, h.held)) in
      rw
        (
          ne→==-false p 0 h.pointer,
          nz,
          retain_held s p h,
          release_shared (update s p kept) p h.pointer shared,
        )
        (rw (at_self s p kept) (back kept), refl)
]
  where
    back :
        (kept : Envelope)
        → update (update s p kept) p (record (s p) { ref_count = (s p).ref_count + 1 - 1 }) q ≡ s q
    back kept = elim (Bool-cases (q == p)) [
      | inl same ↦
          rw same (
            Envelope-eta (s p) ((s p).ref_count + 1 - 1) (omega arith)
            ∙ ap s (sym (==→eq q p same)))
      | inr other ↦ rw other
    ]

delivered :
    (b : Bus) (s : Store) (p topic corr : ℕ)
    → p ≢ 0
    → (deliver_event b s topic corr p).1
      ≡ release (update s p (record (s p) { topic = u32 topic; correlation_id = corr })) p
unfolding deliver_event
delivered b s p topic corr z = rw (ne→==-false p 0 z)

-- What a delivery does to a shared envelope, at every address.
delivered_shared :
    (b : Bus) (s : Store) (p q topic corr : ℕ)
    → p ≢ 0
    → 1 < (s p).ref_count
    → (deliver_event b s topic corr p).1 q ≡ (
        if q == p
        then record (s p) {
          topic = u32 topic;
          correlation_id = corr;
          ref_count = (s p).ref_count - 1;
        }
        else s q)
delivered_shared b s p q topic corr z h =
    let marked = record (s p) { topic = u32 topic; correlation_id = corr } in
    let shared : 1 < (update s p marked p).ref_count = rw (at_self s p marked) h in
    rw
      (
        delivered b s p topic corr z,
        release_shared (update s p marked) p z shared,
        at_self s p marked,
      )
      (elim (Bool-cases (q == p)) [ inl e ↦ rw e | inr e ↦ rw e ])

delivered_last :
    (b : Bus) (s : Store) (p topic corr : ℕ)
    → p ≢ 0
    → (s p).ref_count ≤ 1
    → (deliver_event b s topic corr p).1 p ≡ record (s p) {
      topic = u32 topic;
      correlation_id = corr;
      destroyed =
          if (s p).has_destroy && (s p).has_payload then (s p).destroyed + 1 else (s p).destroyed;
      live = false;
    }
delivered_last b s p topic corr z h =
    let marked = record (s p) { topic = u32 topic; correlation_id = corr } in
    let alone : (update s p marked p).ref_count ≤ 1 = rw (at_self s p marked) h in
    rw (
      delivered b s p topic corr z,
      release_last (update s p marked) p z alone,
      at_self s p marked,
      eq→== p p refl,
    )

-- An envelope that is posted and then delivered has the count that it had before, is not deleted by
-- the delivery, and carries the parameters of the post; other envelopes are as they were.
pub deliver_event-publish :
    (b : Bus) (s : Store) (p q topic corr : ℕ)
    → IsHeld s p
    → (s p).topic ≢ 0
    → ((publish s true p).1 ≡ true)
      × ((deliver_event b (publish s true p).0 topic corr p).1 q
          ≡ (if q == p then record (s p) { topic = u32 topic; correlation_id = corr } else s q))
deliver_event-publish b s p q topic corr h t =
    let kept = record (s p) { ref_count = (s p).ref_count + 1 } in
    let shared : 1 < (update s p kept p).ref_count =
      rw (at_self s p kept) (omega (arith, h.held)) in
    let back : (s p).ref_count + 1 - 1 ≡ (s p).ref_count = omega arith in
    rw (published s p h t) (
      refl,
      rw
          (
            delivered_shared b (update s p kept) p q topic corr h.pointer shared,
            at_self s p kept,
            back,
          )
          (elim (Bool-cases (q == p)) [ inl e ↦ rw e | inr e ↦ rw e ]),
    )

-- A sender that drops its only reference after a post leaves the envelope to the bus: it is live until
-- its delivery, which destroys the payload, if there is one with a destructor, and deletes it.
pub deliver_event_last :
    (b : Bus) (s : Store) (p topic corr : ℕ)
    → IsHeld s p
    → (s p).topic ≢ 0
    → (s p).ref_count ≡ 1
    → let sent = release (publish s true p).0 p in
      (sent p ≡ s p)
      × ((deliver_event b sent topic corr p).1 p ≡ record (s p) {
        topic = u32 topic;
        correlation_id = corr;
        destroyed =
            if (s p).has_destroy && (s p).has_payload then (s p).destroyed + 1 else (s p).destroyed;
        live = false;
      })
deliver_event_last b s p topic corr h t one =
    let kept = record (s p) { ref_count = (s p).ref_count + 1 } in
    let shared : 1 < (update s p kept p).ref_count =
      rw (at_self s p kept) (omega (arith, h.held)) in
    let sent : release (publish s true p).0 p p ≡ s p =
      rw
        (
          published s p h t,
          release_shared (update s p kept) p h.pointer shared,
          at_self s p kept,
          eq→== p p refl,
        )
        (Envelope-eta (s p) ((s p).ref_count + 1 - 1) (omega arith)) in
    (
      sent,
      delivered_last b (release (publish s true p).0 p) p topic corr h.pointer
            (rw sent (omega (arith, one)))
          ∙ rw sent,
    )
