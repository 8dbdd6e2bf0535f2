-- ===== src/Event/Bus.antt =====
-- The message bus, QEvent/src/QKMsgBus.cpp and QEvent/include/QKMsgBus.h. Envelopes live in a store,
-- addressed by number; 0 is the null pointer. A handler is a number, 0 the null pointer, and a call of
-- it is recorded: what handlers do is outside the bus.
pub mod Slots
pub mod Refs
mod Tests
use qaiosplus.Base.{
  ℕ, zero, suc, ◌+◌, ◌-◌, ◌%◌, Bool, true, false, not, ◌&&◌, ◌||◌, List, [], ◌∷◌, ◌++◌, Option,
  none, some, ltb, leb, ◌==◌, if◌then◌else◌, update, u32, u16, first_from,
}
use qaiosplus.Event.{Event}

-- The fields of an envelope that the bus uses; `live` says that it was not deleted, and `destroyed`
-- how often `destroyPayload` ran.
pub record Envelope : Type 0 where
  pub topic : ℕ
  pub correlation_id : ℕ
  pub has_payload : Bool
  pub has_destroy : Bool
  pub ref_count : ℕ
  pub live : Bool
  pub destroyed : ℕ

pub record Sub : Type 0 where
  pub id : ℕ
  pub topic : ℕ
  pub handler : ℕ
  pub user_data : ℕ
  pub used : Bool

abbrev pub empty_sub : Sub
empty_sub = record { id = 0; topic = 0; handler = 0; user_data = 0; used = false }

abbrev pub max_subs : ℕ
max_subs = 64

pub record Bus : Type 0 where
  pub subs : ℕ → Sub
  pub next_id : ℕ

abbrev pub Store : Type 0
Store = ℕ → Envelope

pub retain : Store → ℕ → Store
retain s p =
    if p == 0 then s else update s p (record (s p) { ref_count = u32 ((s p).ref_count + 1) })

pub release : Store → ℕ → Store
release s p =
    if p == 0
    then s
    else if ltb 1 (s p).ref_count
    then update s p (record (s p) { ref_count = (s p).ref_count - 1 })
    else update s p (record (s p) {
      destroyed =
          if (s p).has_destroy && (s p).has_payload then (s p).destroyed + 1 else (s p).destroyed;
      live = false;
    })

abbrev pub is_free : (ℕ → Sub) → ℕ → Bool
is_free subs i = not (subs i).used

-- The new bus and the subscription's id; 0 is failure.
pub subscribe : Bus → ℕ → ℕ → ℕ → Bus × ℕ
subscribe b topic handler user_data =
    let placed : Bus × ℕ = elim (first_from max_subs 0 (is_free b.subs)) [
      | none ↦ (b, 0)
      | some i ↦ (
        record b {
          subs = update b.subs i (record {
            id = b.next_id;
            topic = topic;
            handler = handler;
            user_data = user_data;
            used = true;
          });
          next_id = u32 (b.next_id + 1);
        },
        b.next_id,
      )
    ] in
    if (handler == 0) || (topic == 0) then (b, 0) else placed

abbrev pub has_id : (ℕ → Sub) → ℕ → ℕ → Bool
has_id subs id i = (subs i).used && ((subs i).id == id)

pub unsubscribe : Bus → ℕ → Bus × Bool
unsubscribe b id =
    let dropped : Bus × Bool = elim (first_from max_subs 0 (has_id b.subs id)) [
      | none ↦ (b, false)
      | some i ↦ (record b { subs = update b.subs i empty_sub }, true)
    ] in
    if id == 0 then (b, false) else dropped

-- One call of a handler: the handler, the envelope and the user data.
abbrev pub Delivery : Type 0
Delivery = ℕ × ℕ × ℕ

-- The loop of `onEvent` over the slots.
pub deliver : ℕ → ℕ → (ℕ → Sub) → ℕ → ℕ → List Delivery
deliver zero i subs topic p = []
deliver (suc n) i subs topic p =
    let rest = deliver n (i + 1) subs topic p in
    if not (subs i).used
    then rest
    else if not ((subs i).topic == topic)
    then rest
    else if not ((subs i).handler == 0)
    then ((subs i).handler, p, (subs i).user_data) ∷ rest
    else rest

-- `publish` with `postCustomEvent`, which queues the envelope's address or refuses: `accepts` is what
-- the event manager answers.
pub publish : Store → Bool → ℕ → Store × Bool
publish s accepts p =
    if (p == 0) || ((s p).topic == 0)
    then (s, false)
    else if accepts
    then (retain s p, true)
    else (release (retain s p) p, false)

-- The body of `onEvent` for a bus event, with the parameters of its post: the deliveries and the store.
pub deliver_event : Bus → Store → ℕ → ℕ → ℕ → List Delivery × Store
deliver_event b s param1 param2 p =
    let s' = update s p (record (s p) { topic = u32 param1; correlation_id = param2 }) in
    if p == 0 then ([], s) else (deliver max_subs 0 b.subs (u32 param1) p, release s' p)

-- `isMsgBusEvent`: category `Custom`, and the type `CustomBase` + 1.
pub is_msg_bus_event : Event → Bool
is_msg_bus_event e = (e.category == 64) && (e.kind == u16 (1000 + 1))

-- Whether the bus handled the event, the deliveries and the store.
pub on_event : Bus → Store → Event → ℕ → ℕ → ℕ → Bool × List Delivery × Store
unfolding is_msg_bus_event deliver_event
on_event b s e param1 param2 p =
    let (sent, s') = deliver_event b s param1 param2 p in
    if is_msg_bus_event e then (true, sent, s') else (false, [], s)
