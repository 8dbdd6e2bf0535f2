-- ===== src/Network/Udp/Queues.antt =====
-- The operations on bindings as changes of the queues of ports.
use qaiosplus.Base.{
  ℕ, ◌<◌, ◌≡◌, refl, sym, ap, subst, ◌∙◌, Bool, true, false, List, [], ◌∷◌, ◌++◌, Option, none,
  some, ◌==◌, ltb, if◌then◌else◌, first_from, first_from-zero, update, Bool-cases, Option-cases,
  ==→eq, ◌⊎◌, inl, inr, arith,
}
use Prim.Native.Nat.{min}
use qaiosplus.Network.Udp.{
  Datagram, Binding, Udp, has_port, is_free, find_binding, bind, bound_at, unbind, Reception,
  refused, no_data, copied, take_first, receive_at, receive, enqueue, enqueue_at,
}
use qaiosplus.Network.Udp.Slots.{
  IsValid, Owns, queue_of, set_slot, find_binding-none, find_binding-some, has_port_own,
  update_same, update_other, queue_of-cleared, queue_of-filled, queue_of-other, find_binding-filled,
  set_slot-one,
}

-- The port `p` has the queue `q` now, and no other port is changed.
abbrev pub Changes : Udp → Udp → ℕ → Option (List Datagram) → Type 0
Changes s s' p q = (port : ℕ) → queue_of s' port ≡ (if port == p then q else queue_of s port)

some-fits : (b : Binding) (p : ℕ) → b.port ≡ p → (q : ℕ) → has_port q (some b) ≡ true → q ≡ p
unfolding has_port
some-fits b p e q h = sym (==→eq b.port q h) ∙ e

none-fits : (p q : ℕ) → has_port q none ≡ true → q ≡ p
unfolding has_port
none-fits p q h = ground (arith, h)

bound-Owns :
    (s : Udp) (i : ℕ) (b : Binding) → IsValid s → i < 256 → s.bindings i ≡ some b → Owns s i b.port
bound-Owns s i b v l e = record {
  bound = l;
  others = λ j m h. v.one b.port j i m l h (rw e (has_port_own b));
  own = λ q h. some-fits b b.port refl q (subst (λ x. has_port q x ≡ true) e h);
}

free-Owns :
    (s : Udp) (i port : ℕ)
    → i < 256
    → s.bindings i ≡ none
    → find_binding s port ≡ none
    → Owns s i port
free-Owns s i port l e f = record {
  bound = l;
  others = λ j m h. ground (arith, h, find_binding-none s port f j m);
  own = λ q h. none-fits port q (subst (λ x. has_port q x ≡ true) e h);
}

is_active : Option Binding → Bool
is_active none = true
is_active (some b) = b.active

module _ (s : Udp) (v : IsValid s) (i p : ℕ) (owns : Owns s i p) where
  filled-IsValid : (b : Binding) → b.port ≡ p → b.active ≡ true → IsValid (set_slot s i (some b))
  unfolding is_active
  filled-IsValid b e a = record {
    one = set_slot-one s i p owns (some b) (some-fits b p e) v.one;
    all_active = λ j c l h. elim (Bool-cases (j == i)) [
      | inl same ↦
          let here : update s.bindings i (some b) j ≡ some b =
            rw (==→eq j i same) (update_same s.bindings i (some b)) in
          ap is_active (sym h ∙ here) ∙ a
      | inr other ↦ v.all_active j c l (sym (update_other s.bindings i j (some b) other) ∙ h)
    ];
  }

  cleared-IsValid : IsValid (set_slot s i none)
  unfolding is_active
  cleared-IsValid = record {
    one = set_slot-one s i p owns none (none-fits p) v.one;
    all_active = λ j c l h. elim (Bool-cases (j == i)) [
      | inl same ↦
          let here : update s.bindings i none j ≡ none =
            rw (==→eq j i same) (update_same s.bindings i none) in
          ap is_active (sym h ∙ here)
      | inr other ↦ v.all_active j c l (sym (update_other s.bindings i j none other) ∙ h)
    ];
  }

  filled-Changes :
      (b : Binding) → b.port ≡ p → Changes s (set_slot s i (some b)) p (some b.recv_queue)
  filled-Changes b e port = elim (Bool-cases (port == p)) [
    | inl same ↦ rw (same, ==→eq port p same) (queue_of-filled s i p owns b e)
    | inr other ↦ rw other (queue_of-other s i p owns (some b) (some-fits b p e) port other)
  ]

  cleared-Changes : Changes s (set_slot s i none) p none
  cleared-Changes port = elim (Bool-cases (port == p)) [
    | inl same ↦ rw (same, ==→eq port p same) (queue_of-cleared s i p owns)
    | inr other ↦ rw other (queue_of-other s i p owns none (none-fits p) port other)
  ]

if_true : {A : Type 0} (c : Bool) (x y : A) → c ≡ true → (if c then x else y) ≡ x
if_true c x y e = rw e refl

is_free-eq : (w : Option Binding) → is_free w ≡ true → w ≡ none
unfolding is_free
is_free-eq none h = refl
is_free-eq (some b) h = ground (arith, h)

-- Why a port is not bound: it is bound already, there is no room, or every slot is taken.
abbrev pub Refused : Bool → Udp → ℕ → Type 0
Refused room s port =
    ((slot : ℕ) × (find_binding s port ≡ some slot))
    ⊎ ((room ≡ false) ⊎ ((i : ℕ) → i < 256 → is_free (s.bindings i) ≡ false))

-- What a call that binds a port does: a port that was not bound has an empty queue, at the slot that
-- the call returns; without a slot nothing changes, for one of the reasons above.
abbrev pub Binds : Bool → Udp → ℕ → Udp × Option ℕ → Type 0
Binds room s port (s', none) = (s' ≡ s) × Refused room s port
Binds room s port (s', some slot) =
    (find_binding s port ≡ none) × (find_binding s' port ≡ some slot) × Changes s s' port (some [])

bound_at-Binds :
    (room : Bool) (s : Udp) (port : ℕ) (slot : Option ℕ)
    → IsValid s
    → find_binding s port ≡ none
    → (slot ≡ none → Refused room s port)
    → ((i : ℕ) → slot ≡ some i → (i < 256) × (is_free (s.bindings i) ≡ true))
    → IsValid (bound_at s port slot).0 × Binds room s port (bound_at s port slot)
unfolding bound_at
bound_at-Binds room s port none v f full free = (v, (refl, full refl))
bound_at-Binds room s port (some i) v f full free =
    let b : Binding = record { port = port; active = true; recv_queue = [] } in
    let at_i = free i refl in
    let owns = free-Owns s i port at_i.0 (is_free-eq (s.bindings i) at_i.1) f in
    (
      filled-IsValid s v i port owns b refl refl,
      (f, find_binding-filled s i port owns b refl, filled-Changes s v i port owns b refl),
    )

free_slot :
    (room : Bool) (s : Udp) (i : ℕ)
    → (if room then first_from 256 0 (λ j. is_free (s.bindings j)) else none) ≡ some i
    → (i < 256) × (is_free (s.bindings i) ≡ true)
free_slot true s i h =
    let found = first_from-zero 256 (λ j. is_free (s.bindings j)) (some i) h in (found.1, found.2)
free_slot false s i h = ground (arith, h)

no_slot :
    (room : Bool) (s : Udp) (port : ℕ)
    → (if room then first_from 256 0 (λ j. is_free (s.bindings j)) else none) ≡ none
    → Refused room s port
no_slot true s port h =
    let free = first_from-zero 256 (λ j. is_free (s.bindings j)) none h in
    inr (inr (λ i l. free i (omega arith) l))
no_slot false s port h = inr (inl refl)

pub bind-Binds :
    (room : Bool) (s : Udp) (port : ℕ)
    → IsValid s
    → IsValid (bind room s port).0 × Binds room s port (bind room s port)
unfolding bind
bind-Binds room s port v = elim (Option-cases (find_binding s port)) [
  | inl e ↦
      rw (bind, e)
        (bound_at-Binds room s port
          (if room then first_from 256 0 (λ i. is_free (s.bindings i)) else none) v e
          (no_slot room s port) (free_slot room s))
  | inr k ↦ rw (bind, k.1) (v, (refl, inl k))
]

-- What a datagram for a port does: it is put at the end of the queue, if the port is bound.
abbrev pub Appends : Udp → Udp → ℕ → Datagram → Option (List Datagram) → Type 0
Appends s s' port d none = s' ≡ s
Appends s s' port d (some queue) = Changes s s' port (some (queue ++ (d ∷ [])))

pub enqueue-Appends :
    (s : Udp) (port : ℕ) (d : Datagram)
    → IsValid s
    → IsValid (enqueue s (find_binding s port) d)
      × Appends s (enqueue s (find_binding s port) d) port d (queue_of s port)
unfolding enqueue enqueue_at has_port
enqueue-Appends s port d v = elim (Option-cases (find_binding s port)) [
  | inl e ↦ rw (e, enqueue) (v, refl)
  | inr k ↦
      let found = find_binding-some s port k.0 k.1 in
      elim (Option-cases (s.bindings k.0)) [
        | inl e ↦ ground (arith, found.1, ap (has_port port) e)
        | inr b ↦
            let owner : b.0.port ≡ port =
              ==→eq b.0.port port (sym (ap (has_port port) b.1) ∙ found.1) in
            let owns : Owns s k.0 port =
              subst (Owns s k.0) owner (bound-Owns s k.0 b.0 v found.0 b.1) in
            let b' : Binding = record b.0 { recv_queue = b.0.recv_queue ++ (d ∷ []) } in
            rw
              (
                k.1,
                enqueue,
                b.1,
                enqueue_at,
                if_true b.0.active (set_slot s k.0 (some b')) s (v.all_active k.0 b.0 found.0 b.1),
              )
              (
                filled-IsValid s v k.0 port owns b' owner (v.all_active k.0 b.0 found.0 b.1),
                filled-Changes s v k.0 port owns b' owner,
              )
      ]
]

-- What a call to receive does at a bound slot: the first datagram leaves the queue, with no more bytes
-- than the caller has room for.
abbrev pub Takes : Udp → ℕ → ℕ → List Datagram → Udp × Reception → Type 0
Takes s port length [] (s', r) = (s' ≡ s) × (r ≡ no_data)
Takes s port length (d ∷ queue) (s', r) =
    Changes s s' port (some queue) × (r ≡ copied (record d { length = min length d.length }))

take_first-Takes :
    (s : Udp) (slot : ℕ) (b : Binding) (queue : List Datagram) (length : ℕ)
    → IsValid s
    → Owns s slot b.port
    → b.active ≡ true
    → IsValid (take_first s slot b queue length).0
      × Takes s b.port length queue (take_first s slot b queue length)
unfolding take_first
take_first-Takes s slot b [] length v owns a = (v, (refl, refl))
take_first-Takes s slot b (d ∷ queue) length v owns a =
    let b' : Binding = record b { recv_queue = queue } in
    let least : (if ltb length d.length then length else d.length) ≡ min length d.length =
      ground arith in
    (
      filled-IsValid s v slot b.port owns b' refl a,
      (
        filled-Changes s v slot b.port owns b' refl,
        ap (λ n. copied (record d { length = n })) least,
      ),
    )

pub receive-Takes :
    (s : Udp) (slot : ℕ) (b : Binding) (length : ℕ)
    → IsValid s
    → slot < 256
    → s.bindings slot ≡ some b
    → IsValid (receive s (some slot) length).0
      × Takes s b.port length b.recv_queue (receive s (some slot) length)
unfolding receive receive_at take_first
receive-Takes s slot b length v l e =
    rw
      (
        e,
        receive_at,
        if_true b.active (take_first s slot b b.recv_queue length) (s, refused)
            (v.all_active slot b l e),
      )
      (take_first-Takes s slot b b.recv_queue length v (bound-Owns s slot b v l e)
        (v.all_active slot b l e))

pub unbind-Changes :
    (s : Udp) (slot : ℕ) (b : Binding)
    → IsValid s
    → slot < 256
    → s.bindings slot ≡ some b
    → IsValid (unbind s (some slot)) × Changes s (unbind s (some slot)) b.port none
unfolding unbind
unbind-Changes s slot b v l e =
    let owns = bound-Owns s slot b v l e in
    let inside : ltb slot 256 ≡ true = ground (arith, l) in
    rw (unbind, inside) (cleared-IsValid s v slot b.port owns, cleared-Changes s v slot b.port owns)
