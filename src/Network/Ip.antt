-- ===== src/Network/Ip.antt =====
-- The Internet protocol, QNetwork/src/QNetIP.cpp. A packet is memory and a length, which a header may
-- give larger than what was received. A packet that is sent is part of the result, with the address
-- that the frame goes to; whether the heap has room for it is an argument.
pub mod Header
pub mod Echo
mod Tests
use qaiosplus.Base.{
  ℕ, zero, suc, ◌+◌, ◌-◌, ◌*◌, ◌/◌, ◌%◌, Bool, true, false, not, ◌&&◌, ◌||◌, List, [], ◌∷◌, Option,
  none, some, ltb, ◌==◌, if◌then◌else◌, bit_and, u16, u64, sub64,
}
use qaiosplus.Network.Checksum.{
  Bytes, htons, word, double_word, low_byte, high_byte, octet, front, behind, checksum,
}

pub record Ip : Type 0 where
  pub address : ℕ
  pub subnet_mask : ℕ
  pub gateway : ℕ
  pub identification : ℕ

pub data Protocol : Type 0 where
  icmp tcp udp : Protocol

abbrev pub number_of : Protocol → ℕ
number_of icmp = 1
number_of tcp = 6
number_of udp = 17

-- The cases of the switch of `receivePacket`.
unfoldable pub protocol_of : ℕ → Option Protocol
protocol_of n =
    if n == 1
    then some icmp
    else (if n == 6 then some tcp else (if n == 17 then some udp else none))

-- What `receivePacket` hands to the protocol.
pub record Received : Type 0 where
  pub source : ℕ
  pub protocol : Protocol
  pub payload : Bytes
  pub length : ℕ

-- What `sendPacket` hands to the Ethernet layer, and the address that it asks for.
pub record Outgoing : Type 0 where
  pub hop : ℕ
  pub packet : Bytes
  pub length : ℕ

unfoldable pub initialize : Ip → Ip
initialize s = record s { identification = 1 }

abbrev pub is_broadcast : ℕ → Bool
is_broadcast a = a == 4294967295

abbrev pub is_multicast : ℕ → Bool
is_multicast a = bit_and (a % 256) 240 == 224

unfoldable pub is_local : Ip → ℕ → Bool
is_local s a = bit_and a s.subnet_mask == bit_and s.address s.subnet_mask

unfoldable pub next_hop : Ip → ℕ → ℕ
next_hop s dest = if is_local s dest then dest else s.gateway

-- Whether a packet to this address is for us.
abbrev pub accepts : Ip → ℕ → Bool
accepts s dest = (dest == s.address) || is_broadcast dest || is_multicast dest

unfoldable pub received_as : Bytes → Option Protocol → Option Received
received_as packet none = none
received_as packet (some p) =
    let header_len = bit_and (packet 0) 15 * 4 in
    some (record {
      source = double_word packet 12;
      protocol = p;
      payload = behind header_len packet;
      length = sub64 (htons (word packet 2)) header_len;
    })

unfoldable pub receive_packet : Ip → Bytes → ℕ → Option Received
receive_packet s packet length =
    let header_len = bit_and (packet 0) 15 * 4 in
    let received = received_as packet (protocol_of (packet 9)) in
    if ltb length 20
    then none
    else (if not (bit_and (packet 0 / 16) 15 == 4)
        then none
        else (if ltb header_len 20 || ltb length header_len
            then none
            else (if not (checksum packet header_len == 0)
                then none
                else (if accepts s (double_word packet 16) then received else none))))

-- The header of `sendPacket` with a checksum in it; the flag says not to fragment.
unfoldable pub header : Ip → ℕ → ℕ → ℕ → ℕ → List ℕ
header s dest protocol total_len sum =
    let len = htons (u16 total_len) in
    let id = htons s.identification in
    let flags = htons 16384 in
    69
    ∷ 0
    ∷ low_byte len
    ∷ high_byte len
    ∷ low_byte id
    ∷ high_byte id
    ∷ low_byte flags
    ∷ high_byte flags
    ∷ 64
    ∷ protocol
    ∷ low_byte sum
    ∷ high_byte sum
    ∷ octet 0 s.address
    ∷ octet 1 s.address
    ∷ octet 2 s.address
    ∷ octet 3 s.address
    ∷ octet 0 dest
    ∷ octet 1 dest
    ∷ octet 2 dest
    ∷ octet 3 dest
    ∷ []

-- Whether there is room for the packet is the first argument.
unfoldable pub send_packet : Bool → Ip → ℕ → ℕ → Bytes → ℕ → Ip × Option Outgoing
send_packet false s dest protocol payload length = (s, none)
send_packet true s dest protocol payload length =
    let total_len = u64 (20 + length) in
    let sum = checksum (front (header s dest protocol total_len 0) payload) 20 in
    (
      record s { identification = u16 (s.identification + 1) },
      some (record {
        hop = next_hop s dest;
        packet = front (header s dest protocol total_len sum) payload;
        length = total_len;
      }),
    )

-- The header of an ICMP message with a checksum in it, and the four bytes of `rest`.
unfoldable pub icmp_header : ℕ → ℕ → ℕ → Bytes → Bytes → Bytes
icmp_header type code sum rest payload =
    front (type ∷ code ∷ low_byte sum ∷ high_byte sum ∷ rest 0 ∷ rest 1 ∷ rest 2 ∷ rest 3 ∷ [])
      payload

-- The two arguments in front are the room for the message and for the packet.
unfoldable pub send_icmp : Bool → Bool → Ip → ℕ → ℕ → ℕ → Bytes → ℕ → Ip × Option Outgoing
send_icmp false room s dest type code payload length = (s, none)
send_icmp true room s dest type code payload length =
    let icmp_len = u64 (8 + length) in
    let sum = checksum (icmp_header type code 0 (λ i. 0) payload) icmp_len in
    send_packet room s dest (number_of icmp) (icmp_header type code sum (λ i. 0) payload) icmp_len

reply_to : Bool → Bool → Ip → ℕ → Bytes → ℕ → Ip × Option Outgoing
reply_to false room s source message length = (s, none)
reply_to true room s source message length =
    let sum = checksum (icmp_header 0 0 0 (behind 4 message) (behind 8 message)) length in
    send_packet room s source (number_of icmp)
      (icmp_header 0 0 sum (behind 4 message) (behind 8 message)) length

unfoldable pub handle_icmp : Bool → Bool → Ip → ℕ → Bytes → ℕ → Ip × Option Outgoing
unfolding reply_to
handle_icmp room_reply room s source message length =
    if ltb length 8
    then (s, none)
    else (if (message 0 == 8) && (message 1 == 0)
        then reply_to room_reply room s source message length
        else (s, none))
