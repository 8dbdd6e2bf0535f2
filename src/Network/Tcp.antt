-- ===== src/Network/Tcp.antt =====
-- TCP connections, QNetwork/src/QNetTCP.cpp. A connection is a record, without its buffers, which the
-- source never reads. A segment given to `sendSegment` is part of the result: the heap may refuse the
-- memory for it, which no later step depends on.
pub mod Steps
pub mod Table
pub mod Lookup
pub mod Open
pub mod Listen
mod Tests
use qaiosplus.Base.{
  ℕ, ◌+◌, ◌*◌, ◌/◌, ◌%◌, Bool, true, false, not, ◌&&◌, List, [], ◌∷◌, ltb, leb, ◌==◌, if◌then◌else◌,
  bit_and, u32, u16, Option, none, some, first_from,
}

pub data TcpState : Type 0 where
  closed listen syn_sent syn_received established fin_wait1 fin_wait2 close_wait closing last_ack
        time_wait :
      TcpState

pub record Connection : Type 0 where
  pub local_addr : ℕ
  pub local_port : ℕ
  pub remote_addr : ℕ
  pub remote_port : ℕ
  pub state : TcpState
  pub send_unacked : ℕ
  pub send_next : ℕ
  pub send_window : ℕ
  pub recv_next : ℕ
  pub recv_window : ℕ

abbrev pub fin : ℕ
fin = 1

abbrev pub syn : ℕ
syn = 2

abbrev pub ack : ℕ
ack = 16

pub htons : ℕ → ℕ
htons v = v / 256 + v % 256 * 256

pub htonl : ℕ → ℕ
htonl v = v / 16777216 + v / 65536 % 256 * 256 + v / 256 % 256 * 65536 + v % 256 * 16777216

-- The fields of a header, in network order.
pub record TcpHeader : Type 0 where
  pub source_port : ℕ
  pub dest_port : ℕ
  pub seq_number : ℕ
  pub ack_number : ℕ
  pub flags : ℕ
  pub window : ℕ

-- `flags & bit`.
pub has_flag : ℕ → ℕ → Bool
has_flag flags bit = not (bit_and flags bit == 0)

-- The header that `sendSegment` writes, before its checksum.
pub send_segment : Connection → ℕ → TcpHeader
send_segment c flags = record {
  source_port = htons c.local_port;
  dest_port = htons c.remote_port;
  seq_number = htonl c.send_next;
  ack_number = htonl c.recv_next;
  flags = flags;
  window = htons (u16 c.recv_window);
}

-- The answer to a segment by an ACK, once `recvNext` is set, and the state that follows.
pub acknowledge : Connection → ℕ → TcpState → Connection × List TcpHeader
acknowledge c next s =
    let c' : Connection = record c { recv_next = next } in
    (record c' { state = s }, send_segment c' ack ∷ [])

-- `processSegment`, one clause for each state that acts.
pub process_listen : Connection → TcpHeader → Connection × List TcpHeader
process_listen c h =
    let c' : Connection = record c {
      remote_addr = htonl h.source_port;
      remote_port = htons h.source_port;
      recv_next = u32 (htonl h.seq_number + 1);
      send_unacked = 2000;
      send_next = 2000;
    } in
    if has_flag h.flags syn
    then (
      record c' { send_next = u32 (2000 + 1); state = syn_received },
      send_segment c' (syn + ack) ∷ [],
    )
    else (c, [])

pub process_syn_sent : Connection → TcpHeader → Connection × List TcpHeader
unfolding acknowledge
process_syn_sent c h =
    if bit_and h.flags (syn + ack) == syn + ack
    then acknowledge (record c { send_unacked = htonl h.ack_number }) (u32 (htonl h.seq_number + 1))
        established
    else (c, [])

process_established : Connection → TcpHeader → ℕ → Connection × List TcpHeader
unfolding acknowledge
process_established c h length =
    let acked : Connection = record c { send_unacked = htonl h.ack_number } in
    if has_flag h.flags fin
    then acknowledge c (u32 (htonl h.seq_number + 1)) close_wait
    else if has_flag h.flags ack
    then (if ltb 0 length
        then acknowledge acked (u32 (c.recv_next + u32 length)) established
        else (acked, []))
    else (c, [])

process_fin_wait1 : Connection → TcpHeader → Connection × List TcpHeader
unfolding acknowledge
process_fin_wait1 c h =
    let next = u32 (htonl h.seq_number + 1) in
    if has_flag h.flags ack && has_flag h.flags fin
    then acknowledge c next time_wait
    else if has_flag h.flags ack
    then (record c { state = fin_wait2 }, [])
    else if has_flag h.flags fin
    then acknowledge c next closing
    else (c, [])

pub process_at : TcpState → Connection → TcpHeader → ℕ → Connection × List TcpHeader
unfolding process_listen process_syn_sent process_established process_fin_wait1 acknowledge
process_at listen c h length = process_listen c h
process_at syn_sent c h length = process_syn_sent c h
process_at syn_received c h length =
    if has_flag h.flags ack
    then (record c { send_unacked = htonl h.ack_number; state = established }, [])
    else (c, [])
process_at established c h length = process_established c h length
process_at fin_wait1 c h length = process_fin_wait1 c h
process_at fin_wait2 c h length =
    if has_flag h.flags fin then acknowledge c (u32 (htonl h.seq_number + 1)) time_wait else (c, [])
process_at closing c h length =
    if has_flag h.flags ack then (record c { state = time_wait }, []) else (c, [])
process_at last_ack c h length =
    if has_flag h.flags ack then (record c { state = closed }, []) else (c, [])
process_at _ c h length = (c, [])

pub process_segment : Connection → TcpHeader → ℕ → Connection × List TcpHeader
unfolding process_at
process_segment c h length = process_at c.state c h length

-- The `switch` of `close`; a connection that is then closed is freed with its slot.
send_fin : Connection → TcpState → Connection × List TcpHeader
send_fin c s =
    (record c { send_next = u32 (c.send_next + 1); state = s }, send_segment c (fin + ack) ∷ [])

close_at : TcpState → Connection → Connection × List TcpHeader
unfolding send_fin
close_at listen c = (record c { state = closed }, [])
close_at syn_sent c = (record c { state = closed }, [])
close_at syn_received c = send_fin c fin_wait1
close_at established c = send_fin c fin_wait1
close_at close_wait c = send_fin c last_ack
close_at _ c = (c, [])

pub close : Connection → Connection × List TcpHeader
unfolding close_at
close c = close_at c.state c

-- The port, and the next `m_nextPort`.
pub allocate_port : ℕ → ℕ × ℕ
allocate_port next_port =
    let next = u16 (next_port + 1) in (next_port, if leb 65535 next then 49152 else next)

-- The slots of `m_connections`; `none` is the null pointer.
abbrev pub max_connections : ℕ
max_connections = 256

pub is_listen : TcpState → Bool
is_listen listen = true
is_listen _ = false

pub matches : Option Connection → ℕ → ℕ → ℕ → Bool
unfolding is_listen
matches none addr remote local = false
matches (some c) addr remote local =
    (c.remote_addr == addr)
    && (c.remote_port == remote)
    && (c.local_port == local)
    && not (is_listen c.state)

pub find_connection : (ℕ → Option Connection) → ℕ → ℕ → ℕ → Option ℕ
unfolding matches
find_connection slots addr remote local =
    first_from max_connections 0 (λ i. matches (slots i) addr remote local)
