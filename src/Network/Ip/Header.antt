-- ===== src/Network/Ip/Header.antt =====
-- What a host sends is received: the header and its checksum.
use qaiosplus.Base.{
  ℕ, zero, suc, ◌+◌, ◌*◌, ◌^◌, ◌≤◌, ◌<◌, ◌≡◌, refl, ap, ◌∙◌, true, false, List, [], ◌∷◌, Option,
  none, some, ltb, u16, u64, sub64, length, arith,
}
use qaiosplus.Network.Checksum.{
  Bytes, htons, word, double_word, low_byte, high_byte, octet, front, behind, checksum,
}
use qaiosplus.Network.Checksum.Laws.{
  IsBytes, htons-eq, htons-htons, checksum_bound, checksum-sealed,
}
use qaiosplus.Network.Ip.{
  Ip, Protocol, icmp, tcp, udp, received_as, number_of, protocol_of, Received, Outgoing, accepts,
  receive_packet, header, send_packet,
}

-- The machine's words in which the fields stand.
pub record IsHost (s : Ip) : Type 0 where
  pub address_bound : s.address < 2 ^ 32
  pub identification_bound : s.identification < 2 ^ 16

abbrev pub AllBytes : List ℕ → Type 0
AllBytes [] = Unit {0}
AllBytes (b ∷ s) = (b < 256) × AllBytes s

pub front-IsBytes :
    (s : List ℕ) (bytes : Bytes) → AllBytes s → IsBytes bytes → IsBytes (front s bytes)
unfolding front
front-IsBytes [] bytes a h i = h i
front-IsBytes (b ∷ s) bytes a h zero = a.0
front-IsBytes (b ∷ s) bytes a h (suc i) = front-IsBytes s bytes a.1 h i

pub double_word-octets :
    (v : ℕ) → v < 2 ^ 32 → octet 0 v + 256 * octet 1 v + 65536 * (octet 2 v + 256 * octet 3 v) ≡ v
double_word-octets v h = omega (arith, h)

pub word-bytes : (v : ℕ) → v < 65536 → low_byte v + 256 * high_byte v ≡ v
word-bytes v h = omega (arith, h)

header-AllBytes :
    (s : Ip) (dest protocol total_len sum : ℕ)
    → protocol < 256
    → AllBytes (header s dest protocol total_len sum)
unfolding header
header-AllBytes s dest protocol total_len sum h = ground (arith, h)

header-sealed :
    (s : Ip) (dest protocol total_len : ℕ) (payload : Bytes)
    → protocol < 256
    → IsBytes payload
    → checksum
        (front
          (header s dest protocol total_len
            (checksum (front (header s dest protocol total_len 0) payload) 20))
          payload)
        20
      ≡ 0
unfolding header front
header-sealed s dest protocol total_len payload p h =
    let sum = checksum (front (header s dest protocol total_len 0) payload) 20 in
    let small : sum < 65536 = checksum_bound _ 20 in
    checksum-sealed 20 (front (header s dest protocol total_len 0) payload)
      (front (header s dest protocol total_len sum) payload)
      (front-IsBytes (header s dest protocol total_len 0) payload
        (header-AllBytes s dest protocol total_len 0 p) h)
      (front-IsBytes (header s dest protocol total_len sum) payload
        (header-AllBytes s dest protocol total_len sum p) h)
      (omega arith) (omega (arith, small))

pub front_behind : (s : List ℕ) (bytes : Bytes) (i : ℕ) → front s bytes (length s + i) ≡ bytes i
unfolding front
front_behind [] bytes i = ap bytes (omega arith)
front_behind (b ∷ s) bytes i =
    let next : length (b ∷ s) + i ≡ suc (length s + i) = omega arith in
    rw next (front_behind s bytes i)

protocol_of-number_of : (p : Protocol) → protocol_of (number_of p) ≡ some p
unfolding protocol_of
protocol_of-number_of icmp = refl
protocol_of-number_of tcp = refl
protocol_of-number_of udp = refl

number_of_bound : (p : Protocol) → number_of p < 256
number_of_bound icmp = omega arith
number_of_bound tcp = omega arith
number_of_bound udp = omega arith

received_as-header :
    (s : Ip) (dest : ℕ) (p : Protocol) (payload : Bytes) (n sum : ℕ)
    → IsHost s
    → n ≤ 65515
    → received_as (front (header s dest (number_of p) (u64 (20 + n)) sum) payload) (some p)
      ≡ some (record { source = s.address; protocol = p; payload = payload; length = n })
unfolding header front received_as
received_as-header s dest p payload n sum h l =
    let packet = front (header s dest (number_of p) (u64 (20 + n)) sum) payload in
    let from : double_word packet 12 ≡ s.address = double_word-octets s.address h.address_bound in
    let fit : u16 (u64 (20 + n)) ≡ 20 + n = omega (arith, l) in
    let small : htons (u16 (u64 (20 + n))) < 65536 =
      rw fit (omega (arith, l, htons-eq (20 + n) (omega (arith, l)))) in
    let field : htons (word packet 2) ≡ 20 + n =
      ap htons (word-bytes (htons (u16 (u64 (20 + n)))) small ∙ ap htons fit)
      ∙ htons-htons (20 + n) (omega (arith, l)) in
    let len : sub64 (htons (word packet 2)) 20 ≡ n = omega (arith, l, field) in
    let rest : behind 20 packet ≡ payload =
      λ k i. front_behind (header s dest (number_of p) (u64 (20 + n)) sum) payload i k in
    ap
      (λ x. some (record {
        source = x;
        protocol = p;
        payload = behind 20 packet;
        length = sub64 (htons (word packet 2)) 20;
      }))
      from
    ∙ ap
        (λ x. some (record {
          source = s.address;
          protocol = p;
          payload = x;
          length = sub64 (htons (word packet 2)) 20;
        }))
        rest
    ∙ ap (λ x. some (record { source = s.address; protocol = p; payload = payload; length = x }))
        len

-- What arrives where a packet is sent to, if one is sent.
abbrev pub delivered : Ip → Ip × Option Outgoing → Option Received
delivered receiver (s, none) = none
delivered receiver (s, some o) = receive_packet receiver o.packet o.length

-- A packet of at most 65,515 bytes that a host sends is taken by each host that accepts the address,
-- with the source, the protocol, the bytes and the length that it was sent with.
pub receive_packet-send_packet :
    (s receiver : Ip) (dest : ℕ) (p : Protocol) (payload : Bytes) (n : ℕ)
    → IsHost s
    → dest < 2 ^ 32
    → IsBytes payload
    → n ≤ 65515
    → accepts receiver dest ≡ true
    → delivered receiver (send_packet true s dest (number_of p) payload n)
      ≡ some (record { source = s.address; protocol = p; payload = payload; length = n })
unfolding receive_packet send_packet header front
receive_packet-send_packet s receiver dest p payload n h d b l a =
    let total_len = u64 (20 + n) in
    let long : ltb total_len 20 ≡ false = ground (arith, l) in
    let sealed = header-sealed s dest (number_of p) total_len payload (number_of_bound p) b in
    let sum = checksum (front (header s dest (number_of p) total_len 0) payload) 20 in
    let packet = front (header s dest (number_of p) total_len sum) payload in
    let to : double_word packet 16 ≡ dest = double_word-octets dest d in
    rw (receive_packet, long, sealed, to, a, protocol_of-number_of p)
      (received_as-header s dest p payload n sum h l)
