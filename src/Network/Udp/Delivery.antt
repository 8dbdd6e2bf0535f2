-- ===== src/Network/Udp/Delivery.antt =====
-- A datagram from one host's send to the queue of another host's port.
use qaiosplus.Base.{
  ℕ, ◌+◌, ◌-◌, ◌*◌, ◌^◌, ◌≤◌, ◌<◌, ◌≡◌, refl, sym, ap, subst, ◌∙◌, Bool, true, false, ◌||◌, some,
  ltb, if◌then◌else◌, u16, u64, arith,
}
use qaiosplus.Network.Checksum.{Bytes, htons, word, low_byte, high_byte, front, behind}
use qaiosplus.Network.Checksum.Laws.{IsBytes, htons-eq, htons-htons}
use qaiosplus.Network.Ip.{Ip, udp, accepts, send_packet}
use qaiosplus.Network.Ip.Header.{
  IsHost, AllBytes, front-IsBytes, front_behind, word-bytes, delivered, receive_packet-send_packet,
}
use qaiosplus.Network.Udp.{
  Datagram, Udp, find_binding, enqueue, header, receive_packet, send, calculate_checksum,
}
use qaiosplus.Network.Udp.Slots.{IsValid, queue_of}
use qaiosplus.Network.Udp.Queues.{Appends, enqueue-Appends}

header-AllBytes :
    (source_port dest_port packet_len sum : ℕ)
    → AllBytes (header source_port dest_port packet_len sum)
unfolding header
header-AllBytes source_port dest_port packet_len sum = ground arith

if_false : {A : Type 0} (c : Bool) (x y : A) → c ≡ false → (if c then x else y) ≡ y
if_false c x y e = rw e refl

field : (v : ℕ) → v < 65536 → htons (low_byte (htons v) + 256 * high_byte (htons v)) ≡ v
field v h = ap htons (word-bytes (htons v) (omega (arith, h, htons-eq v h))) ∙ htons-htons v h

receive_packet-header :
    (s : Udp) (source source_port dest_port n sum : ℕ) (bytes : Bytes)
    → source_port < 65536
    → dest_port < 65536
    → n ≤ 65507
    → receive_packet true true s source
        (front (header source_port dest_port (u64 (8 + n)) sum) bytes)
        (u64 (8 + n))
      ≡ enqueue s
          (find_binding s dest_port)
          (record { source = source; source_port = source_port; contents = bytes; length = n })
unfolding receive_packet header front
receive_packet-header s source source_port dest_port n sum bytes a b l =
    let packet = front (header source_port dest_port (u64 (8 + n)) sum) bytes in
    let fit : u16 (u64 (8 + n)) ≡ 8 + n = omega (arith, l) in
    let len : htons (word packet 4) ≡ 8 + n = field (u16 (u64 (8 + n))) (omega (arith, l)) ∙ fit in
    let from : htons (word packet 0) ≡ source_port = field source_port a in
    let to : htons (word packet 2) ≡ dest_port = field dest_port b in
    let rest : behind 8 packet ≡ bytes =
      λ k i. front_behind (header source_port dest_port (u64 (8 + n)) sum) bytes i k in
    let guard : (ltb (u64 (8 + n)) 8
          || ltb (htons (word packet 4)) 8
          || ltb (u64 (8 + n)) (htons (word packet 4)))
        ≡ false =
      rw len (ground (arith, l)) in
    if_false _ s _ guard
    ∙ ap
        (λ x. enqueue s (find_binding s x) (record {
          source = source;
          source_port = htons (word packet 0);
          contents = behind 8 packet;
          length = htons (word packet 4) - 8;
        }))
        to
    ∙ ap
        (λ x. enqueue s (find_binding s dest_port) (record {
          source = source;
          source_port = x;
          contents = behind 8 packet;
          length = htons (word packet 4) - 8;
        }))
        from
    ∙ ap
        (λ x. enqueue s (find_binding s dest_port) (record {
          source = source;
          source_port = source_port;
          contents = x;
          length = htons (word packet 4) - 8;
        }))
        rest
    ∙ ap
        (λ x.
          enqueue s (find_binding s dest_port)
            (record { source = source; source_port = source_port; contents = bytes; length = x }))
        (ap (λ x. x - 8) len ∙ omega arith)

-- A datagram of at most 65,507 bytes for a bound port of a host that accepts the address arrives at
-- the end of that port's queue, with its source, source port, bytes and length, and at no other; for
-- a port that is not bound nothing changes. There is room for it on both hosts.
pub receive_packet-send :
    (ip receiver : Ip) (s : Udp) (dest dest_port source_port : ℕ) (bytes : Bytes) (n : ℕ)
    → IsHost ip
    → IsValid s
    → dest < 2 ^ 32
    → dest_port < 65536
    → source_port < 65536
    → IsBytes bytes
    → n ≤ 65507
    → accepts receiver dest ≡ true
    → (packet : Bytes) × (delivered receiver
          (send true true ip dest dest_port source_port bytes n).0
        ≡ some (record { source = ip.address; protocol = udp; payload = packet; length = 8 + n }))
      × Appends s
          (receive_packet true true s ip.address packet (8 + n))
          dest_port
          (record { source = ip.address; source_port = source_port; contents = bytes; length = n })
          (queue_of s dest_port)
unfolding send
receive_packet-send ip receiver s dest dest_port source_port bytes n h v d to from b l a =
    let exact : u64 (8 + n) ≡ 8 + n = omega (arith, l) in
    let sum =
      calculate_checksum ip.address dest
        (front (header source_port dest_port (u64 (8 + n)) 0) bytes) (u64 (8 + n)) in
    let packet = front (header source_port dest_port (u64 (8 + n)) sum) bytes in
    let d' : Datagram = record {
      source = ip.address;
      source_port = source_port;
      contents = bytes;
      length = n;
    } in
    let same = receive_packet-header s ip.address source_port dest_port n sum bytes from to l in
    let now =
      subst (λ t. Appends s t dest_port d' (queue_of s dest_port)) (sym same)
        (enqueue-Appends s dest_port d' v).1 in
    let arrived =
      receive_packet-send_packet ip receiver dest udp packet (8 + n) h d
        (front-IsBytes (header source_port dest_port (u64 (8 + n)) sum) bytes
          (header-AllBytes source_port dest_port (u64 (8 + n)) sum) b)
        (omega (arith, l)) a in
    (
      packet,
      subst
          (λ m.
            delivered receiver (send_packet true ip dest 17 packet m)
            ≡ some
                (record { source = ip.address; protocol = udp; payload = packet; length = 8 + n }))
          (sym exact) arrived,
      subst
          (λ m.
            Appends s (receive_packet true true s ip.address packet m) dest_port d'
              (queue_of s dest_port))
          exact now,
    )
