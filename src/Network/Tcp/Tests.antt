-- ===== src/Network/Tcp/Tests.antt =====
-- The theorems on connections at inputs that meet their hypotheses.
use qaiosplus.Base.{
  bit_and, List, [], ◌∷◌, ◌++◌, update, arith, Bool-cases, ==→eq, inl, inr, ◌<◌, ◌≢◌, ℕ, ◌+◌, ◌≡◌,
  refl, true, if◌then◌else◌, u32, some, none, ◌==◌, first_from,
}
use qaiosplus.Network.Tcp.{
  listen, established, Connection, TcpHeader, ack, syn, has_flag, htonl, process_segment,
  find_connection, matches, htons, send_segment, is_listen,
}
use qaiosplus.Network.Checksum.{Bytes, word, double_word, front}
use qaiosplus.Network.Tcp.Table.{Tcp, is_empty, connect, listens, header_of, receive_packet}
use qaiosplus.Network.Tcp.Open.{opening, receive_packet-connect}
use qaiosplus.Network.Tcp.Listen.{receive_each, SamePorts, receive_packet-listen}
use qaiosplus.Network.Tcp.Steps.{opened, Answers, process_segment-Answers}

abbrev server : Connection
server = record {
  local_addr = 1;
  local_port = 80;
  remote_addr = 0;
  remote_port = 0;
  state = listen;
  send_unacked = 0;
  send_next = 0;
  send_window = 0;
  recv_next = 0;
  recv_window = 65535;
}

abbrev segment : ℕ → TcpHeader
segment flags = record {
  source_port = 20480;
  dest_port = 20480;
  seq_number = 16777216;
  ack_number = 33554432;
  flags = flags;
  window = 0;
}

has_syn : has_flag syn syn ≡ true
unfolding has_flag
has_syn = refl

abbrev final : Connection
final = (process_segment (process_segment server (segment syn) 0).0 (segment ack) 0).0

process_segment-Answers_example : Answers (process_segment server (segment syn) 0)
process_segment-Answers_example = process_segment-Answers server (segment syn) 0

abbrev peer : Connection
peer = record server { remote_addr = 5; remote_port = 9; state = established }

find_run : find_connection (λ i. if i == 3 then some peer else none) 5 9 80 ≡ some 3
unfolding find_connection first_from
find_run = refl

-- A host with no connection.
abbrev idle : Tcp
idle = record { connections = λ i. none; next_port = 49152 }

-- The bytes of a segment to a port from another, with a sequence number of 7 and an acknowledgement.
abbrev bytes_of : List ℕ → ℕ → Bytes
bytes_of ports flags = front (ports ++ (0 ∷ 0 ∷ 0 ∷ 7 ∷ 0 ∷ 0 ∷ 3 ∷ 233 ∷ 80 ∷ flags ∷ [])) (λ i. 0)

abbrev answer : Bytes
answer = bytes_of (0 ∷ 80 ∷ 192 ∷ 0 ∷ []) 18

no_connection : find_connection idle.connections 5 80 49152 ≡ none
unfolding find_connection matches first_from
no_connection = refl

first_slot : first_from 256 0 (λ i. is_empty (idle.connections i)) ≡ some 0
unfolding first_from is_empty
first_slot = refl

answer_ports :
    (htons (word answer 0) ≡ 80)
    × (htons (word answer 2) ≡ 49152)
    × (bit_and (answer 13) (syn + ack) ≡ syn + ack)
unfolding htons front
answer_ports = (refl, refl, refl)

receive_packet-connect_example :
    (let opened_at = connect true true 1 idle 5 80 in
      let answered = receive_packet opened_at.0 5 answer 20 in
      let c : Connection = record (opening 1 49152 5 80) {
        state = established;
        recv_next = u32 (htonl (double_word answer 4) + 1);
        send_unacked = htonl (double_word answer 8);
      } in
      (opened_at.1.0 ≡ some 0)
      × (answered.0.connections
          ≡ update (update idle.connections 0 (some (opening 1 49152 5 80))) 0 (some c))
      × (answered.1 ≡ send_segment c ack ∷ []))
receive_packet-connect_example =
    receive_packet-connect idle 1 5 80 0 answer 20 first_slot no_connection (omega arith)
      answer_ports.0 answer_ports.1 answer_ports.2

abbrev listening : Tcp
listening = record { connections = update idle.connections 3 (some server); next_port = 49152 }

abbrev request : Bytes
request = bytes_of (192 ∷ 0 ∷ 0 ∷ 80 ∷ []) 2

abbrev acknowledgement : Bytes
acknowledgement = bytes_of (192 ∷ 0 ∷ 0 ∷ 80 ∷ []) 16

request_port : 80 ≡ htons (word request 2)
unfolding front htons
request_port = refl

only_listener :
    (i : ℕ) → i < 256 → listens (htons (word request 2)) (listening.connections i) ≡ true → i ≡ 3
unfolding listens
only_listener i l h = elim (Bool-cases (i == 3)) [
  | inl same ↦ ==→eq i 3 same
  | inr other ↦ ground (arith, other, h)
]

no_peer :
    find_connection listening.connections 16777226 (htons (word request 0)) (htons (word request 2))
    ≡ none
unfolding find_connection matches is_listen first_from front htons
no_peer = refl

not_by_chance : 16777226 ≢ htonl (word request 0)
unfolding front htonl
not_by_chance e = omega (arith, e)

request_flag : has_flag (request 13) syn ≡ true
unfolding front has_flag
request_flag = refl

same_ports : SamePorts request ((acknowledgement, 20) ∷ (request, 20) ∷ [])
unfolding front
same_ports = (omega arith, refl, refl, (omega arith, refl, refl, tt))

receive_packet-listen_example :
    (let t' = (receive_packet listening 16777226 request 20).0 in
      (t'.connections 3 ≡ some (opened server (header_of request)))
      × (receive_each t' 16777226 ((acknowledgement, 20) ∷ (request, 20) ∷ []) ≡ (t', [])))
receive_packet-listen_example =
    receive_packet-listen listening 16777226 3 server request
      ((acknowledgement, 20) ∷ (request, 20) ∷ []) 20 (omega arith) refl (omega arith) refl
      request_port only_listener no_peer not_by_chance request_flag same_ports
