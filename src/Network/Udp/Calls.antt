-- ===== src/Network/Udp/Calls.antt =====
-- The calls of the program on bindings, against the queues of ports.
use qaiosplus.Base.{
  ℕ, ◌<◌, ◌≡◌, refl, subst, sym, ap, ◌∙◌, update, ◌==◌, ==→eq, Bool-cases, Bool, true, Option, none,
  some, Option-cases, inl, inr, ltb, arith,
}
use qaiosplus.Network.Udp.{Binding, Udp, bind, unbind, Reception, refused, receive, receive_at}
use qaiosplus.Network.Udp.Slots.{IsValid}
use qaiosplus.Network.Udp.Queues.{Changes, Binds, bind-Binds, Takes, receive-Takes, unbind-Changes}

-- A port to bind with or without room, a slot to unbind, and a slot to read with the room for bytes.
pub data Call : Type 0 where
  bind_call : Bool → ℕ → Call
  unbind_call : ℕ → Call
  receive_call : ℕ → ℕ → Call

abbrev pub IsCall : Call → Type 0
IsCall (bind_call room port) = Unit {0}
IsCall (unbind_call slot) = slot < 256
IsCall (receive_call slot length) = slot < 256

abbrev pub after : Udp → Call → Udp
after s (bind_call room port) = (bind room s port).0
after s (unbind_call slot) = unbind s (some slot)
after s (receive_call slot length) = (receive s (some slot) length).0

-- A binding's slot loses its port when it is unbound; the first datagram leaves its queue when it is
-- read. Slots without a binding change nothing.
abbrev pub UnbindsAt : Udp → Udp → Option Binding → Type 0
UnbindsAt s s' none = s' ≡ s
UnbindsAt s s' (some b) = Changes s s' b.port none

abbrev pub TakesAt : Udp → ℕ → Udp × Reception → Option Binding → Type 0
TakesAt s length result none = result ≡ (s, refused)
TakesAt s length result (some b) = Takes s b.port length b.recv_queue result

abbrev pub Refines : Udp → Call → Type 0
Refines s (bind_call room port) = Binds room s port (bind room s port)
Refines s (unbind_call slot) = UnbindsAt s (unbind s (some slot)) (s.bindings slot)
Refines s (receive_call slot length) =
    TakesAt s length (receive s (some slot) length) (s.bindings slot)

cleared_again : (f : ℕ → Option Binding) (slot j : ℕ) → f slot ≡ none → update f slot none j ≡ f j
cleared_again f slot j e = elim (Bool-cases (j == slot)) [
  | inl same ↦ rw same (sym (ap f (==→eq j slot same) ∙ e))
  | inr other ↦ rw other refl
]

unbind_empty : (s : Udp) (slot : ℕ) → slot < 256 → s.bindings slot ≡ none → unbind s (some slot) ≡ s
unfolding unbind
unbind_empty s slot l e =
    let inside : ltb slot 256 ≡ true = ground (arith, l) in
    rw (unbind, inside)
      (ap (λ f. record s { bindings = f }) (λ k j. cleared_again s.bindings slot j e k))

receive_empty :
    (s : Udp) (slot length : ℕ)
    → s.bindings slot ≡ none
    → receive s (some slot) length ≡ (s, refused)
unfolding receive receive_at
receive_empty s slot length e = rw (e, receive_at) refl

-- Each call keeps the ports of bindings different. A call to bind is refused, and changes nothing, only
-- if the port is bound already, there is no room, or all 256 slots are taken; else the port had no
-- binding, and has an empty queue and the slot that find_binding answers then. Reading a slot takes the
-- first datagram, cut to the room of the caller; unbinding removes the port; no other port's queue is
-- changed. A slot without a binding changes nothing.
pub port_call-Refines :
    (s : Udp) (c : Call) → IsValid s → IsCall c → IsValid (after s c) × Refines s c
port_call-Refines s (bind_call room port) v i = bind-Binds room s port v
port_call-Refines s (unbind_call slot) v i = elim (Option-cases (s.bindings slot)) [
  | inl e ↦ let same = unbind_empty s slot i e in rw (e, same) (v, refl)
  | inr b ↦ rw b.1 (unbind-Changes s slot b.0 v i b.1)
]
port_call-Refines s (receive_call slot length) v i = elim (Option-cases (s.bindings slot)) [
  | inl e ↦
      let same = receive_empty s slot length e in (subst (λ r. IsValid r.0) (sym same) v, rw e same)
  | inr b ↦ rw b.1 (receive-Takes s slot b.0 length v i b.1)
]
