-- ===== src/Event/Bus/Tests.antt =====
-- Runs of the message bus, and the theorems at inputs that meet their hypotheses.
use qaiosplus.Base.{
  ◌+◌, ◌≡◌, refl, true, false, ◌&&◌, [], ◌∷◌, arith, ◌==◌, if◌then◌else◌, u32, first_from,
}
use qaiosplus.Event.Bus.{
  Bus, Sub, Envelope, Store, empty_sub, max_subs, subscribe, publish, release, deliver,
  deliver_event,
}
use qaiosplus.Event.Bus.Slots.{IsValid}
use qaiosplus.Event.Bus.Refs.{IsHeld, deliver_event_last}

abbrev listener : Sub
listener = record { id = 1; topic = 7; handler = 3; user_data = 9; used = true }

abbrev bus : Bus
bus = record { subs = λ i. if i == 0 then listener else empty_sub; next_id = 2 }

bus-IsValid : IsValid bus
bus-IsValid = record {
  small = omega arith;
  fresh = λ i u. ground arith;
  positive = omega arith;
  distinct = λ i j u w same. ground arith;
}

deliver_run : deliver max_subs 0 bus.subs 7 5 ≡ (3, 5, 9) ∷ []
unfolding deliver
deliver_run = refl

subscribe_run : (subscribe bus 8 4 0).1 ≡ 2
unfolding subscribe first_from
subscribe_run = refl

abbrev message : Envelope
message = record {
  topic = 7;
  correlation_id = 0;
  has_payload = true;
  has_destroy = true;
  ref_count = 1;
  live = true;
  destroyed = 0;
}

abbrev store : Store
store p = message

store-IsHeld : IsHeld store 5
store-IsHeld = record {
  pointer = omega arith;
  alive = refl;
  held = omega arith;
  small = omega arith;
}

deliver_event_last_example :
    let sent = release (publish store true 5).0 5 in
    (sent 5 ≡ message)
    × ((deliver_event bus sent 7 11 5).1 5 ≡ record message {
      topic = u32 7;
      correlation_id = 11;
      destroyed =
          if message.has_destroy && message.has_payload
          then message.destroyed + 1
          else message.destroyed;
      live = false;
    })
deliver_event_last_example = deliver_event_last bus store 5 7 11 store-IsHeld (omega arith) refl
