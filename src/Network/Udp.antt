-- ===== src/Network/Udp.antt =====
-- Datagrams, QNetwork/src/QNetUDP.cpp. A binding is named by the slot that it stands in; `none` is the
-- null pointer. Whether the heap has room is an argument of each operation that asks for it.
pub mod Slots
pub mod Queues
pub mod Calls
pub mod Delivery
mod Tests
use qaiosplus.Base.{
  ℕ, zero, suc, ◌+◌, ◌-◌, ◌*◌, ◌/◌, Bool, true, false, not, ◌&&◌, ◌||◌, List, [], ◌∷◌, ◌++◌, Option,
  none, some, ltb, leb, ◌==◌, if◌then◌else◌, u16, u32, u64, first_from, update,
}
use qaiosplus.Network.Checksum.{Bytes, htons, word, low_byte, high_byte, octet, front, behind, fold}
use qaiosplus.Network.Ip.{Ip, Outgoing, udp, number_of, send_packet}

pub record Datagram : Type 0 where
  pub source : ℕ
  pub source_port : ℕ
  pub contents : Bytes
  pub length : ℕ

pub record Binding : Type 0 where
  pub port : ℕ
  pub active : Bool
  pub recv_queue : List Datagram

pub record Udp : Type 0 where
  pub bindings : ℕ → Option Binding
  pub next_port : ℕ

abbrev pub max_bindings : ℕ
max_bindings = 256

unfoldable pub has_port : ℕ → Option Binding → Bool
has_port port none = false
has_port port (some b) = b.port == port

unfoldable pub is_free : Option Binding → Bool
is_free none = true
is_free (some b) = false

unfoldable pub find_binding : Udp → ℕ → Option ℕ
find_binding s port = first_from max_bindings 0 (λ i. has_port port (s.bindings i))

unfoldable pub initialize : Udp → Udp
initialize s = record s { next_port = 49152 }

unfoldable pub bound_at : Udp → ℕ → Option ℕ → Udp × Option ℕ
bound_at s port none = (s, none)
bound_at s port (some slot) = (
  record s {
    bindings =
        update s.bindings slot (some (record { port = port; active = true; recv_queue = [] }));
  },
  some slot,
)

-- The first argument is the room for the binding.
unfoldable pub bind : Bool → Udp → ℕ → Udp × Option ℕ
bind room s port = elim (find_binding s port) [
  | some used ↦ (s, none)
  | none ↦
      bound_at s port
        (if room then first_from max_bindings 0 (λ i. is_free (s.bindings i)) else none)
]

unfoldable pub unbind : Udp → Option ℕ → Udp
unbind s none = s
unbind s (some slot) =
    if ltb slot max_bindings then record s { bindings = update s.bindings slot none } else s

-- The results of `receive`: -1, 0 without a datagram, and the count of bytes copied with what they are.
pub data Reception : Type 0 where
  refused no_data : Reception
  copied : Datagram → Reception

unfoldable pub take_first : Udp → ℕ → Binding → List Datagram → ℕ → Udp × Reception
take_first s slot b [] length = (s, no_data)
take_first s slot b (d ∷ queue) length = (
  record s { bindings = update s.bindings slot (some (record b { recv_queue = queue })) },
  copied (record d { length = if ltb length d.length then length else d.length }),
)

unfoldable pub receive_at : Udp → ℕ → Option Binding → ℕ → Udp × Reception
receive_at s slot none length = (s, refused)
receive_at s slot (some b) length =
    if b.active then take_first s slot b b.recv_queue length else (s, refused)

unfoldable pub receive : Udp → Option ℕ → ℕ → Udp × Reception
receive s none length = (s, refused)
receive s (some slot) length = receive_at s slot (s.bindings slot) length

unfoldable pub enqueue_at : Udp → ℕ → Option Binding → Datagram → Udp
enqueue_at s slot none d = s
enqueue_at s slot (some b) d =
    if b.active
    then record s {
      bindings = update s.bindings slot (some (record b { recv_queue = b.recv_queue ++ (d ∷ []) }));
    }
    else s

unfoldable pub enqueue : Udp → Option ℕ → Datagram → Udp
enqueue s none d = s
enqueue s (some slot) d = enqueue_at s slot (s.bindings slot) d

-- The first two arguments are the room for a datagram and for its contents.
unfoldable pub receive_packet : Bool → Bool → Udp → ℕ → Bytes → ℕ → Udp
receive_packet room room_contents s source packet length =
    let udp_len = htons (word packet 4) in
    let d : Datagram = record {
      source = source;
      source_port = htons (word packet 0);
      contents = behind 8 packet;
      length = udp_len - 8;
    } in
    if ltb length 8 || ltb udp_len 8 || ltb length udp_len
    then s
    else (if room && (room_contents || (udp_len == 8))
        then enqueue s (find_binding s (htons (word packet 2))) d
        else s)

unfoldable pub allocate_port : Udp → Udp × ℕ
allocate_port s =
    let next = u16 (s.next_port + 1) in
    (record s { next_port = if leb 65535 next then 49152 else next }, s.next_port)

-- `checksumAddBytes`: words with the high byte first.
unfoldable pub add_bytes : ℕ → Bytes → ℕ → ℕ
add_bytes zero bytes sum = sum
add_bytes (suc zero) bytes sum = u32 (sum + 256 * bytes 0)
add_bytes (suc (suc n)) bytes sum =
    add_bytes n (λ i. bytes (suc (suc i))) (u32 (sum + (256 * bytes 0 + bytes 1)))

unfoldable pub pseudo_header : ℕ → ℕ → ℕ → List ℕ
pseudo_header source dest length =
    let udp_len = htons (u16 length) in
    octet 0 source
    ∷ octet 1 source
    ∷ octet 2 source
    ∷ octet 3 source
    ∷ octet 0 dest
    ∷ octet 1 dest
    ∷ octet 2 dest
    ∷ octet 3 dest
    ∷ 0
    ∷ 17
    ∷ high_byte udp_len
    ∷ low_byte udp_len
    ∷ []

unfoldable pub calculate_checksum : ℕ → ℕ → Bytes → ℕ → ℕ
calculate_checksum source dest packet length =
    let pseudo = add_bytes 12 (front (pseudo_header source dest length) (λ i. 0)) 0 in
    let result = 65535 - u16 (fold 2 (add_bytes length packet pseudo)) in
    htons (if result == 0 then 65535 else result)

-- The header of `send` with a checksum in it.
unfoldable pub header : ℕ → ℕ → ℕ → ℕ → List ℕ
header source_port dest_port packet_len sum =
    let from = htons source_port in
    let to = htons dest_port in
    let len = htons (u16 packet_len) in
    low_byte from
    ∷ high_byte from
    ∷ low_byte to
    ∷ high_byte to
    ∷ low_byte len
    ∷ high_byte len
    ∷ low_byte sum
    ∷ high_byte sum
    ∷ []

pub data Status : Type 0 where
  success out_of_memory : Status

-- The first two arguments are the room for the packet here and in `sendPacket`.
unfoldable pub send : Bool → Bool → Ip → ℕ → ℕ → ℕ → Bytes → ℕ → (Ip × Option Outgoing) × Status
send false room ip dest dest_port source_port bytes length = ((ip, none), out_of_memory)
send true room ip dest dest_port source_port bytes length =
    let packet_len = u64 (8 + length) in
    let sum =
      calculate_checksum ip.address dest (front (header source_port dest_port packet_len 0) bytes)
        packet_len in
    (
      send_packet room ip dest (number_of udp)
          (front (header source_port dest_port packet_len sum) bytes) packet_len,
      success,
    )
