-- ===== src/Network/Tcp/Listen.antt =====
-- Connections that a listener takes.
use qaiosplus.Base.{
  ℕ, ◌≤◌, ◌<◌, ◌≡◌, ◌≢◌, refl, sym, ap, ◌∙◌, true, false, ◌&&◌, List, [], ◌∷◌, ◌++◌, none, some,
  ◌==◌, first_from, first_from_unique, first_from-none, update, Bool-cases, ==→eq, eq→==,
  ne→==-false, inl, inr, arith,
}
use qaiosplus.Network.Checksum.{Bytes, word}
use qaiosplus.Network.Tcp.{
  listen, Connection, TcpHeader, syn, htons, htonl, has_flag, is_listen, matches, process_segment,
  find_connection,
}
use qaiosplus.Network.Tcp.Table.{Tcp, set_slot, listens, header_of, receiver_of, receive_packet}
use qaiosplus.Network.Tcp.Steps.{listen_state, listen_syn, opened}
use qaiosplus.Network.Tcp.Lookup.{
  update_same, update_other, find_connection-still_none, payload_length, processed, ignored,
}

receiver_of-listener :
    (t : Tcp) (source remote local : ℕ)
    → find_connection t.connections source remote local ≡ none
    → receiver_of t source remote local ≡ first_from 256 0 (λ i. listens local (t.connections i))
unfolding receiver_of
receiver_of-listener t source remote local e = rw (receiver_of, e) refl

opened-unmatched :
    (c : Connection) (h : TcpHeader) (source remote local : ℕ)
    → source ≢ htonl h.source_port
    → matches (some (opened c h)) source remote local ≡ false
unfolding matches
opened-unmatched c h source remote local ne =
    let other : (htonl h.source_port == source) ≡ false =
      ne→==-false (htonl h.source_port) source (λ e. ne (sym e)) in
    rw (matches, other) refl

listens-listener :
    (c : Connection) (local : ℕ)
    → c.state ≡ listen
    → c.local_port ≡ local
    → listens local (some c) ≡ true
unfolding listens is_listen
listens-listener c local state port =
    ap (λ x. is_listen x && (c.local_port == local)) state ∙ eq→== c.local_port local port

-- Without its only listener a port has none.
silenced :
    (t : Tcp) (k : ℕ) (c : Connection) (local : ℕ)
    → listens local (some c) ≡ false
    → ((i : ℕ) → i < 256 → listens local (t.connections i) ≡ true → i ≡ k)
    → (j : ℕ) → j < 256
    → listens local (update t.connections k (some c) j) ≡ false
silenced t k c local closed_now only j b = elim (Bool-cases (j == k)) [
  | inl same ↦
      ap (listens local) (
        ap (update t.connections k (some c)) (==→eq j k same)
        ∙ update_same t.connections k (some c))
      ∙ closed_now
  | inr other ↦
      ap (listens local) (update_other t.connections k j (some c) other)
      ∙ elim (Bool-cases (listens local (t.connections j))) [
        | inl heard ↦ ground (arith, other, eq→== j k (only j b heard))
        | inr silent ↦ silent
      ]
]

-- Segments of one host, received one after the other.
unfoldable pub receive_each : Tcp → ℕ → List (Bytes × ℕ) → Tcp × List TcpHeader
receive_each t source [] = (t, [])
receive_each t source ((segment, n) ∷ later) =
    let first = receive_packet t source segment n in
    let rest = receive_each first.0 source later in (rest.0, first.1 ++ rest.1)

-- They have the ports of the segment, and 20 bytes at least.
abbrev pub SamePorts : Bytes → List (Bytes × ℕ) → Type 0
SamePorts segment [] = Unit {0}
SamePorts segment ((other, n) ∷ later) =
    (20 ≤ n)
    × (word other 0 ≡ word segment 0)
    × (word other 2 ≡ word segment 2)
    × SamePorts segment later

receive_each-dropped :
    (t : Tcp) (source : ℕ) (segment : Bytes) (later : List (Bytes × ℕ))
    → SamePorts segment later
    → find_connection t.connections source (htons (word segment 0)) (htons (word segment 2)) ≡ none
    → first_from 256 0 (λ i. listens (htons (word segment 2)) (t.connections i)) ≡ none
    → receive_each t source later ≡ (t, [])
unfolding receive_each
receive_each-dropped t source segment [] same none_yet silent = refl
receive_each-dropped t source segment ((other, n) ∷ later) same none_yet silent =
    let lost : receiver_of t source (htons (word other 0)) (htons (word other 2)) ≡ none =
      rw (same.1, same.2)
        (receiver_of-listener t source (htons (word segment 0)) (htons (word segment 2)) none_yet
          ∙ silent) in
    let dropped : receive_packet t source other n ≡ (t, []) =
      ignored t source other n same.0 lost in
    rw (dropped, receive_each-dropped t source segment later same.3 none_yet silent) refl

-- Once the only listener of a port has taken a SYN of a host, its slot is half open, and any number of
-- further segments of that host from the same port to this one, received one after the other with no
-- other call between, are dropped: they change nothing, so that the slot stays half open, and nothing
-- is sent. This holds unless the host's address is by chance the source port in the high half of the
-- word. No other connection has the two ports and the address, and all segments have 20 bytes at least.
pub receive_packet-listen :
    (t : Tcp) (source k : ℕ) (c : Connection) (segment : Bytes) (later : List (Bytes × ℕ)) (n : ℕ)
    → 20 ≤ n
    → t.connections k ≡ some c
    → k < 256
    → c.state ≡ listen
    → c.local_port ≡ htons (word segment 2)
    → ((i : ℕ) → i < 256 → listens (htons (word segment 2)) (t.connections i) ≡ true → i ≡ k)
    → find_connection t.connections source (htons (word segment 0)) (htons (word segment 2)) ≡ none
    → source ≢ htonl (word segment 0)
    → has_flag (segment 13) syn ≡ true
    → SamePorts segment later
    → (let t' = (receive_packet t source segment n).0 in
        (t'.connections k ≡ some (opened c (header_of segment)))
        × (receive_each t' source later ≡ (t', [])))
unfolding header_of listens is_listen
receive_packet-listen t source k c segment later n long at_k bound state port only none_yet ne flag
      same =
    let h = header_of segment in
    let local = htons (word segment 2) in
    let o = opened c h in
    let heard : listens local (t.connections k) ≡ true =
      ap (listens local) at_k ∙ listens-listener c local state port in
    let found : receiver_of t source (htons (word segment 0)) local ≡ some k =
      receiver_of-listener t source (htons (word segment 0)) local none_yet
      ∙ first_from_unique 256 k (λ i. listens local (t.connections i)) bound heard only in
    let done = processed t source segment n long k c found at_k in
    let step : (process_segment c h (payload_length segment n)).0 ≡ o =
      ap (λ x. x.0) (listen_state c h (payload_length segment n) state) ∙ listen_syn c h flag in
    let t' = set_slot t k o in
    let after : (receive_packet t source segment n).0 ≡ t' =
      ap (λ x. x.0) done ∙ ap (set_slot t k) step in
    let silent : first_from 256 0 (λ i. listens local (t'.connections i)) ≡ none =
      first_from-none 256 (λ i. listens local (t'.connections i))
        (silenced t k o local refl only) in
    let still : find_connection t'.connections source (htons (word segment 0)) local ≡ none =
      find_connection-still_none t.connections source (htons (word segment 0)) local k o none_yet
        (opened-unmatched c h source (htons (word segment 0)) local ne) in
    rw after (
      update_same t.connections k (some o),
      receive_each-dropped t' source segment later same still silent,
    )
