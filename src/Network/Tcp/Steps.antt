-- ===== src/Network/Tcp/Steps.antt =====
-- What segments do to a connection.
use qaiosplus.Base.{
  ℕ, zero, suc, ◌+◌, ◌%◌, ◌≡◌, refl, Bool, true, false, not, ◌⊎◌, bit_and, List, [], ◌∷◌, arith,
  ltb, ◌==◌, if◌then◌else◌, u32, Bool-cases, inl, inr,
}
use qaiosplus.Network.Tcp.{
  TcpState, closed, listen, syn_sent, syn_received, established, fin_wait1, fin_wait2, close_wait,
  closing, last_ack, time_wait, Connection, TcpHeader, fin, syn, ack, htons, htonl, has_flag,
  process_listen, process_syn_sent, process_established, process_fin_wait1, acknowledge,
  send_segment, process_segment, process_at, allocate_port,
}

pub listen_state :
    (c : Connection) (h : TcpHeader) (n : ℕ)
    → c.state ≡ listen
    → process_segment c h n ≡ process_listen c h
unfolding process_segment process_at
listen_state c h n e = rw (process_segment, e) refl

received_state :
    (c : Connection) (h : TcpHeader) (n : ℕ)
    → c.state ≡ syn_received
    → process_segment c h n ≡ (
        if has_flag h.flags ack
        then (record c { send_unacked = htonl h.ack_number; state = established }, [])
        else (c, []))
unfolding process_segment process_at
received_state c h n e = rw (process_segment, e) refl

abbrev pub opened : Connection → TcpHeader → Connection
opened c h = record c {
  remote_addr = htonl h.source_port;
  remote_port = htons h.source_port;
  recv_next = u32 (htonl h.seq_number + 1);
  send_unacked = 2000;
  send_next = 2001;
  state = syn_received;
}

pub listen_syn :
    (c : Connection) (h : TcpHeader)
    → has_flag h.flags syn ≡ true
    → (process_listen c h).0 ≡ opened c h
unfolding process_listen
listen_syn c h s = rw (process_listen, s) refl

-- A listening connection that gets a SYN and then any segment is established exactly when the second
-- one has an ACK; it then expects the number behind the SYN, takes the ACK's number as acknowledged,
-- and has counted its own SYN.
pub handshake :
    (c : Connection) (h h' : TcpHeader) (n n' : ℕ)
    → c.state ≡ listen
    → has_flag h.flags syn ≡ true
    → let c' = (process_segment (process_segment c h n).0 h' n').0 in
      (c'.state ≡ (if has_flag h'.flags ack then established else syn_received))
      × (c'.recv_next ≡ u32 (htonl h.seq_number + 1))
      × (c'.send_unacked ≡ (if has_flag h'.flags ack then htonl h'.ack_number else 2000))
      × (c'.send_next ≡ 2001)
handshake c h h' n n' e s =
    rw (listen_state c h n e, listen_syn c h s, received_state (opened c h) h' n' refl)
      (elim (Bool-cases (has_flag h'.flags ack)) [
        | inl a ↦ rw a (refl, refl, refl, refl)
        | inr a ↦ rw a (refl, refl, refl, refl)
      ])

-- At most one segment, whose number acknowledges what the connection now expects.
unfoldable pub Answers : Connection × List TcpHeader → Type 0
Answers (c, sent) =
    (sent ≡ [])
    ⊎ ((s : TcpHeader) × (sent ≡ s ∷ [])
        × (s.ack_number ≡ htonl c.recv_next)
        × (has_flag s.flags ack ≡ true)
        × (s.source_port ≡ htons c.local_port)
        × (s.dest_port ≡ htons c.remote_port))

acknowledge-Answers : (c : Connection) (next : ℕ) (s : TcpState) → Answers (acknowledge c next s)
unfolding acknowledge send_segment has_flag Answers
acknowledge-Answers c next s = inr (_, refl, refl, refl, refl, refl)

process_listen-Answers : (c : Connection) (h : TcpHeader) → Answers (process_listen c h)
unfolding process_listen send_segment has_flag Answers
process_listen-Answers c h = elim (Bool-cases (not (bit_and h.flags syn == 0))) [
  | inl t ↦ rw (process_listen, t) (inr (_, refl, refl, refl, refl, refl))
  | inr t ↦ rw (process_listen, t) (inl refl)
]

silent-Answers : (c : Connection) → Answers (c, [])
unfolding Answers
silent-Answers c = inl refl

process_syn_sent-Answers : (c : Connection) (h : TcpHeader) → Answers (process_syn_sent c h)
unfolding process_syn_sent
process_syn_sent-Answers c h = elim (Bool-cases (bit_and h.flags 18 == 18)) [
  | inl t ↦
      rw (process_syn_sent, t)
        (acknowledge-Answers (record c { send_unacked = htonl h.ack_number }) _ _)
  | inr t ↦ rw (process_syn_sent, t) (silent-Answers _)
]

process_established-Answers :
    (c : Connection) (h : TcpHeader) (n : ℕ) → Answers (process_established c h n)
unfolding process_established
process_established-Answers c h n = elim (Bool-cases (has_flag h.flags fin)) [
  | inl t ↦ rw (process_established, t) (acknowledge-Answers c _ _)
  | inr t ↦ elim (Bool-cases (has_flag h.flags ack)) [
    | inl a ↦ elim (Bool-cases (ltb 0 n)) [
      | inl l ↦
          rw (process_established, t, a, l)
            (acknowledge-Answers (record c { send_unacked = htonl h.ack_number }) _ _)
      | inr l ↦ rw (process_established, t, a, l) (silent-Answers _)
    ]
    | inr a ↦ rw (process_established, t, a) (silent-Answers _)
  ]
]

process_fin_wait1-Answers : (c : Connection) (h : TcpHeader) → Answers (process_fin_wait1 c h)
unfolding process_fin_wait1
process_fin_wait1-Answers c h = elim (Bool-cases (has_flag h.flags ack)) [
  | inl a ↦ elim (Bool-cases (has_flag h.flags fin)) [
    | inl t ↦ rw (process_fin_wait1, a, t) (acknowledge-Answers c _ _)
    | inr t ↦ rw (process_fin_wait1, a, t) (silent-Answers _)
  ]
  | inr a ↦ elim (Bool-cases (has_flag h.flags fin)) [
    | inl t ↦ rw (process_fin_wait1, a, t) (acknowledge-Answers c _ _)
    | inr t ↦ rw (process_fin_wait1, a, t) (silent-Answers _)
  ]
]

when-Answers :
    (b : Bool) (x y : Connection × List TcpHeader)
    → Answers x
    → Answers y
    → Answers (if b then x else y)
when-Answers true x y p q = p
when-Answers false x y p q = q

process_at-Answers :
    (s : TcpState) (c : Connection) (h : TcpHeader) (n : ℕ) → Answers (process_at s c h n)
unfolding process_at
process_at-Answers listen c h n = process_listen-Answers c h
process_at-Answers syn_sent c h n = process_syn_sent-Answers c h
process_at-Answers syn_received c h n =
    when-Answers (has_flag h.flags ack) _ _
      (silent-Answers (record c { send_unacked = htonl h.ack_number; state = established }))
      (silent-Answers c)
process_at-Answers established c h n = process_established-Answers c h n
process_at-Answers fin_wait1 c h n = process_fin_wait1-Answers c h
process_at-Answers fin_wait2 c h n =
    when-Answers (has_flag h.flags fin) _ _
      (acknowledge-Answers c (u32 (htonl h.seq_number + 1)) time_wait) (silent-Answers c)
process_at-Answers closing c h n =
    when-Answers (has_flag h.flags ack) _ _ (silent-Answers (record c { state = time_wait }))
      (silent-Answers c)
process_at-Answers last_ack c h n =
    when-Answers (has_flag h.flags ack) _ _ (silent-Answers (record c { state = closed }))
      (silent-Answers c)
process_at-Answers closed c h n = silent-Answers c
process_at-Answers close_wait c h n = silent-Answers c
process_at-Answers time_wait c h n = silent-Answers c

-- In every state a segment is answered by one segment at most, which has the ACK flag, acknowledges
-- exactly what the connection expects after the step, and goes between its ports.
pub process_segment-Answers :
    (c : Connection) (h : TcpHeader) (n : ℕ) → Answers (process_segment c h n)
unfolding process_segment
process_segment-Answers c h n = process_at-Answers c.state c h n

-- The value of `m_nextPort` after some calls of `allocatePort`.
pub port_after : ℕ → ℕ → ℕ
unfolding allocate_port
port_after zero p = p
port_after (suc k) p = (allocate_port (port_after k p)).1

-- The ports that `allocatePort` hands out from 49152 on run through 49152 to 65534 in turn.
pub allocate_port-port_after : (k : ℕ) → (allocate_port (port_after k 49152)).0 ≡ 49152 + k % 16383
unfolding allocate_port port_after
allocate_port-port_after zero = omega arith
allocate_port-port_after (suc k) = ground (arith, allocate_port-port_after k)
