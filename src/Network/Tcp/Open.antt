-- ===== src/Network/Tcp/Open.antt =====
-- Connections that are opened to a host, and the segments that are sent.
use qaiosplus.Base.{
  ℕ, ◌+◌, ◌^◌, ◌≤◌, ◌<◌, ◌≡◌, refl, true, [], ◌∷◌, none, some, bit_and, u16, u32, first_from,
  first_from-zero, update, eq→==, arith,
}
use qaiosplus.Network.Checksum.{Bytes, word, double_word, front}
use qaiosplus.Network.Ip.Header.{word-bytes, double_word-octets}
use qaiosplus.Network.Tcp.{
  syn_sent, established, Connection, TcpHeader, syn, ack, htons, htonl, is_listen, matches,
  send_segment, process_segment, process_at, process_syn_sent, acknowledge, allocate_port,
  find_connection,
}
use qaiosplus.Network.Tcp.Table.{
  Tcp, set_slot, is_empty, connect, connect_at, header_of, header_bytes, segment_bytes, receiver_of,
  receive_packet,
}
use qaiosplus.Network.Tcp.Lookup.{update_same, find_connection-update, payload_length, processed}

-- The table after a connection has been opened in a slot, and after it is established.
abbrev pub opening : ℕ → ℕ → ℕ → ℕ → Connection
opening own local addr port = record {
  local_addr = own;
  local_port = local;
  remote_addr = addr;
  remote_port = port;
  state = syn_sent;
  send_unacked = 1000;
  send_next = 1001;
  send_window = 65535;
  recv_next = 0;
  recv_window = 65535;
}

connect-opening :
    (t : Tcp) (own addr port k : ℕ)
    → first_from 256 0 (λ i. is_empty (t.connections i)) ≡ some k
    → connect true true own t addr port ≡ (
      set_slot
          (record t { next_port = (allocate_port t.next_port).1 })
          k
          (opening own t.next_port addr port),
      (
        some k,
        send_segment (record (opening own t.next_port addr port) { send_next = 1000 }) syn ∷ [],
      ),
    )
unfolding connect connect_at allocate_port
connect-opening t own addr port k free = rw (connect, free) refl

opening-matches :
    (own local addr port : ℕ) → matches (some (opening own local addr port)) addr port local ≡ true
unfolding matches is_listen
opening-matches own local addr port =
    rw (eq→== addr addr refl, eq→== port port refl, eq→== local local refl) refl

receiver_of-found :
    (t : Tcp) (source remote local k : ℕ)
    → find_connection t.connections source remote local ≡ some k
    → receiver_of t source remote local ≡ some k
unfolding receiver_of
receiver_of-found t source remote local k e = rw (receiver_of, e) refl

process_segment-opening :
    (own local addr port : ℕ) (h : TcpHeader) (n : ℕ)
    → bit_and h.flags (syn + ack) ≡ syn + ack
    → (let c : Connection = record (opening own local addr port) {
      state = established;
      recv_next = u32 (htonl h.seq_number + 1);
      send_unacked = htonl h.ack_number;
    } in
        process_segment (opening own local addr port) h n ≡ (c, send_segment c ack ∷ []))
unfolding process_segment process_at process_syn_sent acknowledge send_segment
process_segment-opening own local addr port h n e =
    rw (process_syn_sent, eq→== (bit_and h.flags (syn + ack)) (syn + ack) e) refl

-- A connection is opened to a host and port that no other connection has with the local port that is
-- due. When a segment of at least 20 bytes with SYN and ACK comes back from there for that port, the
-- connection is established: it expects the number behind the segment's, has the acknowledged number,
-- and an ACK for the expected number is sent; no other slot is changed by either call.
pub receive_packet-connect :
    (t : Tcp) (own addr port k : ℕ) (segment : Bytes) (n : ℕ)
    → first_from 256 0 (λ i. is_empty (t.connections i)) ≡ some k
    → find_connection t.connections addr port t.next_port ≡ none
    → 20 ≤ n
    → htons (word segment 0) ≡ port
    → htons (word segment 2) ≡ t.next_port
    → bit_and (segment 13) (syn + ack) ≡ syn + ack
    → (let opened_at = connect true true own t addr port in
        let answered = receive_packet opened_at.0 addr segment n in
        let next = u32 (htonl (double_word segment 4) + 1) in
        let c : Connection = record (opening own t.next_port addr port) {
          state = established;
          recv_next = next;
          send_unacked = htonl (double_word segment 8);
        } in
        (opened_at.1.0 ≡ some k)
        × (answered.0.connections
            ≡ update (update t.connections k (some (opening own t.next_port addr port))) k (some c))
        × (answered.1 ≡ send_segment c ack ∷ []))
unfolding header_of
receive_packet-connect t own addr port k segment n free fresh long from to flags =
    let o = opening own t.next_port addr port in
    let t' : Tcp = set_slot (record t { next_port = (allocate_port t.next_port).1 }) k o in
    let opened_eq = connect-opening t own addr port k free in
    let bound = (first_from-zero 256 (λ i. is_empty (t.connections i)) (some k) free).1 in
    let found : receiver_of t' addr (htons (word segment 0)) (htons (word segment 2)) ≡ some k =
      rw (from, to)
        (receiver_of-found t' addr port t.next_port k (
          find_connection-update t.connections addr port t.next_port k o fresh bound
            (opening-matches own t.next_port addr port))) in
    let done = processed t' addr segment n long k o found (update_same t.connections k (some o)) in
    let step =
      process_segment-opening own t.next_port addr port (header_of segment)
        (payload_length segment n) flags in
    rw (opened_eq, done, step) (refl, refl, refl)

-- The segment that is sent for a connection reads back as its header, whatever follows the header.
pub header_of-segment_bytes :
    (c : Connection) (flags : ℕ) (payload : Bytes) (n : ℕ)
    → c.local_port < 65536
    → c.remote_port < 65536
    → c.send_next < 2 ^ 32
    → c.recv_next < 2 ^ 32
    → header_of (segment_bytes c flags payload n) ≡ send_segment c flags
unfolding header_of segment_bytes header_bytes front send_segment htons htonl
header_of-segment_bytes c flags payload n a b s r =
    rw
      (
        word-bytes (htons c.local_port) (omega (arith, a)),
        word-bytes (htons c.remote_port) (omega (arith, b)),
        double_word-octets (htonl c.send_next) (omega (arith, s)),
        double_word-octets (htonl c.recv_next) (omega (arith, r)),
        word-bytes (htons (u16 c.recv_window)) (omega arith),
      )
      refl
