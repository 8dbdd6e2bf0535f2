-- ===== src/Network/Udp/Slots.antt =====
-- Bindings with different ports, and the queue of a port, which the change of one slot changes.
use qaiosplus.Base.{
  ℕ, ◌<◌, ◌≡◌, refl, sym, ap, subst, ◌∙◌, ◌⊎◌, true, false, List, Option, none, some, ◌==◌,
  first_from, first_from-zero, first_from_unique, first_from-none, update, Bool-cases, Option-cases,
  ==→eq, eq→==, inl, inr, arith,
}
use qaiosplus.Network.Udp.{Datagram, Binding, Udp, has_port, find_binding}

-- No two bindings have one port, and all are active.
pub record IsValid (s : Udp) : Type 0 where
  pub one :
      (port i j : ℕ)
      → i < 256
      → j < 256
      → has_port port (s.bindings i) ≡ true
      → has_port port (s.bindings j) ≡ true
      → i ≡ j
  pub all_active : (i : ℕ) (b : Binding) → i < 256 → s.bindings i ≡ some b → b.active ≡ true

abbrev pub queue_at : Option Binding → Option (List Datagram)
queue_at none = none
queue_at (some b) = some b.recv_queue

abbrev pub queue_in : Udp → Option ℕ → Option (List Datagram)
queue_in s none = none
queue_in s (some i) = queue_at (s.bindings i)

-- The datagrams that wait at a port, if a binding has it.
abbrev pub queue_of : Udp → ℕ → Option (List Datagram)
queue_of s port = queue_in s (find_binding s port)

abbrev pub set_slot : Udp → ℕ → Option Binding → Udp
set_slot s i v = record s { bindings = update s.bindings i v }

-- What find_binding answers.
pub find_binding-none :
    (s : Udp) (port : ℕ)
    → find_binding s port ≡ none
    → (j : ℕ) → j < 256
    → has_port port (s.bindings j) ≡ false
unfolding find_binding
find_binding-none s port e j l =
    first_from-zero 256 (λ i. has_port port (s.bindings i)) none e j (omega arith) l

pub find_binding-some :
    (s : Udp) (port i : ℕ)
    → find_binding s port ≡ some i
    → (i < 256) × (has_port port (s.bindings i) ≡ true)
unfolding find_binding
find_binding-some s port i e =
    let found = first_from-zero 256 (λ j. has_port port (s.bindings j)) (some i) e in
    (found.1, found.2)

-- All that has the port `p` is the slot `i`, which has no other.
pub record Owns (s : Udp) (i p : ℕ) : Type 0 where
  pub bound : i < 256
  pub others : (j : ℕ) → j < 256 → has_port p (s.bindings j) ≡ true → j ≡ i
  pub own : (q : ℕ) → has_port q (s.bindings i) ≡ true → q ≡ p

pub update_same : (f : ℕ → Option Binding) (i : ℕ) (v : Option Binding) → update f i v i ≡ v
update_same f i v = rw (eq→== i i refl) refl

pub update_other :
    (f : ℕ → Option Binding) (i j : ℕ) (v : Option Binding)
    → (j == i) ≡ false
    → update f i v j ≡ f j
update_other f i j v e = rw e refl

pub has_port_own : (b : Binding) → has_port b.port (some b) ≡ true
unfolding has_port
has_port_own b = eq→== b.port b.port refl

not_port :
    (w : Option Binding) (p : ℕ)
    → ((q : ℕ) → has_port q w ≡ true → q ≡ p)
    → (port : ℕ) → (port == p) ≡ false
    → has_port port w ≡ false
not_port w p own port other = elim (Bool-cases (has_port port w)) [
  | inl h ↦ ground (arith, other, eq→== port p (own port h))
  | inr h ↦ h
]

module _ (s : Udp) (i p : ℕ) (owns : Owns s i p) where
  -- The holders of a port after the slot has been set.
  holder :
      (v : Option Binding) (q j : ℕ)
      → j < 256
      → has_port q (update s.bindings i v j) ≡ true
      → ((j ≡ i) × (has_port q v ≡ true))
        ⊎ (((j == i) ≡ false) × (has_port q (s.bindings j) ≡ true))
  holder v q j l h = elim (Bool-cases (j == i)) [
    | inl e ↦ inl (
      ==→eq j i e,
      subst (λ k. has_port q k ≡ true) (rw (==→eq j i e) (update_same s.bindings i v)) h,
    )
    | inr e ↦ inr (e, subst (λ k. has_port q k ≡ true) (update_other s.bindings i j v e) h)
  ]

  pub queue_of-cleared : queue_of (set_slot s i none) p ≡ none
  unfolding find_binding has_port
  queue_of-cleared =
      let nobody : first_from 256 0 (λ j. has_port p (update s.bindings i none j)) ≡ none =
        first_from-none 256 (λ j. has_port p (update s.bindings i none j))
          (λ j l. elim (Bool-cases (has_port p (update s.bindings i none j))) [
            | inl h ↦ elim (holder none p j l h) [
              | inl same ↦ ground (arith, same)
              | inr other ↦ ground (arith, other, owns.others j l other.1)
            ]
            | inr h ↦ h
          ]) in
      rw (find_binding, nobody) refl

  pub find_binding-filled :
      (b : Binding) → b.port ≡ p → find_binding (set_slot s i (some b)) p ≡ some i
  unfolding find_binding has_port
  find_binding-filled b e =
      first_from_unique 256 i (λ j. has_port p (update s.bindings i (some b) j)) owns.bound
        (rw (update_same s.bindings i (some b)) (eq→== b.port p e))
        (λ j l h. elim (holder (some b) p j l h) [
          | inl same ↦ same.0
          | inr other ↦ owns.others j l other.1
        ])

  pub queue_of-filled :
      (b : Binding) → b.port ≡ p → queue_of (set_slot s i (some b)) p ≡ some b.recv_queue
  queue_of-filled b e = rw (find_binding-filled b e, update_same s.bindings i (some b)) refl

  module _ (v : Option Binding) (fits : (q : ℕ) → has_port q v ≡ true → q ≡ p) where
    same_holders :
        (port : ℕ)
        → (port == p) ≡ false
        → (j : ℕ) → has_port port (update s.bindings i v j) ≡ has_port port (s.bindings j)
    same_holders port other j = elim (Bool-cases (j == i)) [
      | inl e ↦
          let at_i : has_port port (s.bindings j) ≡ false =
            subst (λ k. has_port port (s.bindings k) ≡ false) (sym (==→eq j i e))
              (not_port (s.bindings i) p owns.own port other) in
          rw e (not_port v p fits port other ∙ sym at_i)
      | inr e ↦ ap (has_port port) (update_other s.bindings i j v e)
    ]

    pub queue_of-other :
        (port : ℕ) → (port == p) ≡ false → queue_of (set_slot s i v) port ≡ queue_of s port
    unfolding find_binding
    queue_of-other port other =
        let same : first_from 256 0 (λ j. has_port port (update s.bindings i v j))
            ≡ find_binding s port =
          ap (λ P. first_from 256 0 P) (λ k j. same_holders port other j k) in
        elim (Option-cases (find_binding s port)) [
          | inl e ↦ rw (find_binding, same, e) refl
          | inr k ↦
              let found = find_binding-some s port k.0 k.1 in
              let apart : (k.0 == i) ≡ false = elim (Bool-cases (k.0 == i)) [
                | inl at_i ↦ ground (
                  arith,
                  found.1,
                  not_port (s.bindings i) p owns.own port other,
                  ap (λ j. has_port port (s.bindings j)) (==→eq k.0 i at_i),
                )
                | inr e ↦ e
              ] in
              rw (find_binding, same, k.1, update_other s.bindings i k.0 v apart) refl
        ]

    pub set_slot-one :
        ((port j k : ℕ)
          → j < 256
          → k < 256
          → has_port port (s.bindings j) ≡ true
          → has_port port (s.bindings k) ≡ true
          → j ≡ k)
        → (port j k : ℕ) → j < 256
        → k < 256
        → has_port port (update s.bindings i v j) ≡ true
        → has_port port (update s.bindings i v k) ≡ true
        → j ≡ k
    set_slot-one one port j k l m h g = elim (holder v port j l h) [
      | inl at_i ↦ elim (holder v port k m g) [
        | inl too ↦ at_i.0 ∙ sym too.0
        | inr else_k ↦
            at_i.0
            ∙ sym (
                owns.others k m
                  (subst (λ q. has_port q (s.bindings k) ≡ true) (fits port at_i.1) else_k.1))
      ]
      | inr else_j ↦ elim (holder v port k m g) [
        | inl at_i ↦
            owns.others j l
              (subst (λ q. has_port q (s.bindings j) ≡ true) (fits port at_i.1) else_j.1)
            ∙ sym at_i.0
        | inr else_k ↦ one port j k l m else_j.1 else_k.1
      ]
    ]
