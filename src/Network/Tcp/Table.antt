-- ===== src/Network/Tcp/Table.antt =====
-- The table of connections of QNetwork/src/QNetTCP.cpp, and segments as bytes. A connection is named by
-- its slot; `none` is the null pointer. The headers that a call sends are part of its result.
use qaiosplus.Base.{
  ℕ, ◌+◌, ◌-◌, ◌*◌, ◌/◌, Bool, true, false, not, ◌&&◌, List, [], ◌∷◌, Option, none, some, ltb, ◌==◌,
  if◌then◌else◌, bit_and, u16, u32, u64, sub64, first_from, update,
}
use qaiosplus.Network.Checksum.{Bytes, word, double_word, low_byte, high_byte, octet, front, fold}
use qaiosplus.Network.Udp.{add_bytes}
use qaiosplus.Network.Tcp.{
  TcpState, closed, listen, syn_sent, established, Connection, TcpHeader, syn, ack, htons,
  is_listen, send_segment, process_segment, close, allocate_port, max_connections, find_connection,
}

pub record Tcp : Type 0 where
  pub connections : ℕ → Option Connection
  pub next_port : ℕ

abbrev pub psh : ℕ
psh = 8

abbrev default_window : ℕ
default_window = 65535

unfoldable pub initialize : Tcp → Tcp
initialize t = record t { next_port = 49152 }

unfoldable pub is_empty : Option Connection → Bool
is_empty none = true
is_empty (some c) = false

abbrev pub set_slot : Tcp → ℕ → Connection → Tcp
set_slot t slot c = record t { connections = update t.connections slot (some c) }

-- Where there is a slot: whether there is room for the connection, and for its two buffers.
unfoldable pub connect_at :
    Bool → Bool → ℕ → Tcp → ℕ → ℕ → Option ℕ → Tcp × (Option ℕ × List TcpHeader)
connect_at room buffers own t addr port none = (t, (none, []))
connect_at room buffers own t addr port (some slot) =
    let numbered : Tcp = record t { next_port = (allocate_port t.next_port).1 } in
    let c : Connection = record {
      local_addr = own;
      local_port = (allocate_port t.next_port).0;
      remote_addr = addr;
      remote_port = port;
      state = syn_sent;
      send_unacked = 1000;
      send_next = 1000;
      send_window = default_window;
      recv_next = 0;
      recv_window = default_window;
    } in
    if not room
    then (t, (none, []))
    else (if not buffers then (numbered, (none, [])) else (
      set_slot numbered slot (record c { send_next = 1001 }),
      (some slot, send_segment c syn ∷ []),
    ))

unfoldable pub connect : Bool → Bool → ℕ → Tcp → ℕ → ℕ → Tcp × (Option ℕ × List TcpHeader)
connect room buffers own t addr port =
    connect_at room buffers own t addr port
      (first_from max_connections 0 (λ i. is_empty (t.connections i)))

unfoldable pub listen_at : Bool → ℕ → Tcp → ℕ → Option ℕ → Tcp × Option ℕ
listen_at room own t port none = (t, none)
listen_at room own t port (some slot) =
    let c : Connection = record {
      local_addr = own;
      local_port = port;
      remote_addr = 0;
      remote_port = 0;
      state = listen;
      send_unacked = 0;
      send_next = 0;
      send_window = 0;
      recv_next = 0;
      recv_window = default_window;
    } in
    if room then (set_slot t slot c, some slot) else (t, none)

-- `TCP::listen`; the first argument is the room for the connection and its buffers.
unfoldable pub listen_on : Bool → ℕ → Tcp → ℕ → Tcp × Option ℕ
listen_on room own t port =
    listen_at room own t port (first_from max_connections 0 (λ i. is_empty (t.connections i)))

unfoldable pub is_closed : TcpState → Bool
is_closed closed = true
is_closed _ = false

unfoldable pub close_slot : Tcp → ℕ → Option Connection → Tcp × List TcpHeader
close_slot t slot none = (t, [])
close_slot t slot (some c) =
    let left : Option Connection = if is_closed (close c).0.state then none else some (close c).0 in
    (record t { connections = update t.connections slot left }, (close c).1)

-- `TCP::close`.
unfoldable pub close_connection : Tcp → Option ℕ → Tcp × List TcpHeader
close_connection t none = (t, [])
close_connection t (some slot) = close_slot t slot (t.connections slot)

unfoldable pub is_established : TcpState → Bool
is_established established = true
is_established _ = false

-- The count that is sent, `none` for -1.
unfoldable pub send_at : Tcp → ℕ → Option Connection → ℕ → Tcp × (Option ℕ × List TcpHeader)
send_at t slot none length = (t, (none, []))
send_at t slot (some c) length =
    let to_send = if ltb c.send_window length then c.send_window else length in
    if is_established c.state
    then (
      set_slot t slot (record c { send_next = u32 (c.send_next + u32 to_send) }),
      (some to_send, send_segment c (psh + ack) ∷ []),
    )
    else (t, (none, []))

unfoldable pub send : Tcp → Option ℕ → ℕ → Tcp × (Option ℕ × List TcpHeader)
send t none length = (t, (none, []))
send t (some slot) length = send_at t slot (t.connections slot) length

-- A placeholder in the source, which never copies anything.
unfoldable pub receive : Tcp → Option ℕ → Option ℕ
receive t none = none
receive t (some slot) = elim (t.connections slot) [
  | none ↦ none
  | some c ↦ if is_established c.state then some 0 else none
]

unfoldable pub listens : ℕ → Option Connection → Bool
listens port none = false
listens port (some c) = is_listen c.state && (c.local_port == port)

-- The fields that are read of a segment.
unfoldable pub header_of : Bytes → TcpHeader
header_of segment = record {
  source_port = word segment 0;
  dest_port = word segment 2;
  seq_number = double_word segment 4;
  ack_number = double_word segment 8;
  flags = segment 13;
  window = word segment 14;
}

-- The connection for a segment, or the listener for its port.
unfoldable pub receiver_of : Tcp → ℕ → ℕ → ℕ → Option ℕ
receiver_of t source remote_port port =
    elim (find_connection t.connections source remote_port port) [
      | some slot ↦ some slot
      | none ↦ first_from max_connections 0 (λ i. listens port (t.connections i))
    ]

unfoldable pub process_slot : Tcp → ℕ → Option Connection → TcpHeader → ℕ → Tcp × List TcpHeader
process_slot t slot none h length = (t, [])
process_slot t slot (some c) h length =
    (set_slot t slot (process_segment c h length).0, (process_segment c h length).1)

unfoldable pub process_at_slot : Tcp → Option ℕ → TcpHeader → ℕ → Tcp × List TcpHeader
process_at_slot t none h length = (t, [])
process_at_slot t (some slot) h length = process_slot t slot (t.connections slot) h length

unfoldable pub receive_packet : Tcp → ℕ → Bytes → ℕ → Tcp × List TcpHeader
receive_packet t source segment length =
    let h = header_of segment in
    let header_len = bit_and (segment 12 / 16) 15 * 4 in
    let slot = receiver_of t source (htons h.source_port) (htons h.dest_port) in
    if ltb length 20 then (t, []) else process_at_slot t slot h (sub64 length header_len)

unfoldable pub calculate_checksum : ℕ → ℕ → Bytes → ℕ → ℕ
calculate_checksum source dest segment length =
    let len = htons (u16 length) in
    let pseudo =
      octet 0 source
      ∷ octet 1 source
      ∷ octet 2 source
      ∷ octet 3 source
      ∷ octet 0 dest
      ∷ octet 1 dest
      ∷ octet 2 dest
      ∷ octet 3 dest
      ∷ 0
      ∷ 6
      ∷ high_byte len
      ∷ low_byte len
      ∷ [] in
    let sum = add_bytes length segment (add_bytes 12 (front pseudo (λ i. 0)) 0) in
    htons (65535 - u16 (fold 2 sum))

-- The bytes of a header with a checksum in it.
unfoldable pub header_bytes : TcpHeader → ℕ → List ℕ
header_bytes h sum =
    low_byte h.source_port
    ∷ high_byte h.source_port
    ∷ low_byte h.dest_port
    ∷ high_byte h.dest_port
    ∷ octet 0 h.seq_number
    ∷ octet 1 h.seq_number
    ∷ octet 2 h.seq_number
    ∷ octet 3 h.seq_number
    ∷ octet 0 h.ack_number
    ∷ octet 1 h.ack_number
    ∷ octet 2 h.ack_number
    ∷ octet 3 h.ack_number
    ∷ 80
    ∷ h.flags
    ∷ low_byte h.window
    ∷ high_byte h.window
    ∷ low_byte sum
    ∷ high_byte sum
    ∷ 0
    ∷ 0
    ∷ []

-- What `sendSegment` gives to the Internet protocol.
unfoldable pub segment_bytes : Connection → ℕ → Bytes → ℕ → Bytes
segment_bytes c flags payload length =
    let h = send_segment c flags in
    let sum =
      calculate_checksum c.local_addr c.remote_addr (front (header_bytes h 0) payload)
        (u64 (20 + length)) in
    front (header_bytes h sum) payload
