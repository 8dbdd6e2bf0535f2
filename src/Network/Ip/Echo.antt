-- ===== src/Network/Ip/Echo.antt =====
-- Replies to echo requests: their checksum and what is in them.
use qaiosplus.Base.{
  ℕ, zero, suc, ◌+◌, ◌^◌, ◌≤◌, ◌<◌, ◌≡◌, refl, ap, true, false, ◌&&◌, [], ◌∷◌, some, ltb, ◌==◌,
  arith,
}
use qaiosplus.Network.Checksum.{Bytes, low_byte, high_byte, front, behind, checksum}
use qaiosplus.Network.Checksum.Laws.{IsBytes, total, checksum_bound, checksum-sealed}
use qaiosplus.Network.Ip.{Ip, icmp, accepts, icmp_header, handle_icmp}
use qaiosplus.Network.Ip.Header.{IsHost, front-IsBytes, delivered, receive_packet-send_packet}

total-icmp_header :
    (n type code sum : ℕ) (rest payload : Bytes)
    → 4 ≤ n
    → sum < 65536
    → total n (icmp_header type code sum rest payload)
      ≡ total n (icmp_header type code 0 rest payload) + sum
unfolding icmp_header front
total-icmp_header zero type code sum rest payload l h = absurd (omega (arith, l))
total-icmp_header (suc zero) type code sum rest payload l h = absurd (omega (arith, l))
total-icmp_header (suc (suc zero)) type code sum rest payload l h = absurd (omega (arith, l))
total-icmp_header (suc (suc (suc zero))) type code sum rest payload l h = absurd (omega (arith, l))
total-icmp_header (suc (suc (suc (suc n)))) type code sum rest payload l h = omega (arith, h)

icmp_header-IsBytes :
    (type code sum : ℕ) (rest payload : Bytes)
    → type < 256
    → code < 256
    → IsBytes rest
    → IsBytes payload
    → IsBytes (icmp_header type code sum rest payload)
unfolding icmp_header
icmp_header-IsBytes type code sum rest payload t c r p =
    front-IsBytes
      (type ∷ code ∷ low_byte sum ∷ high_byte sum ∷ rest 0 ∷ rest 1 ∷ rest 2 ∷ rest 3 ∷ []) payload
      (t, (c, (omega arith, (omega arith, (r 0, (r 1, (r 2, (r 3, tt)))))))) p

icmp_header-sealed :
    (n type code : ℕ) (rest payload : Bytes)
    → 4 ≤ n
    → n ≤ 65535
    → type < 256
    → code < 256
    → IsBytes rest
    → IsBytes payload
    → checksum
        (icmp_header type code (checksum (icmp_header type code 0 rest payload) n) rest payload)
        n
      ≡ 0
icmp_header-sealed n type code rest payload a b t c r p =
    let sum = checksum (icmp_header type code 0 rest payload) n in
    let small : sum < 65536 = checksum_bound (icmp_header type code 0 rest payload) n in
    checksum-sealed n (icmp_header type code 0 rest payload)
      (icmp_header type code sum rest payload)
      (icmp_header-IsBytes type code 0 rest payload t c r p)
      (icmp_header-IsBytes type code sum rest payload t c r p) b
      (total-icmp_header n type code sum rest payload a small)

icmp_header-copy :
    (type code sum : ℕ) (message : Bytes) (i : ℕ)
    → 4 ≤ i
    → icmp_header type code sum (behind 4 message) (behind 8 message) i ≡ message i
unfolding icmp_header front
icmp_header-copy type code sum message zero l = absurd (omega (arith, l))
icmp_header-copy type code sum message (suc zero) l = absurd (omega (arith, l))
icmp_header-copy type code sum message (suc (suc zero)) l = absurd (omega (arith, l))
icmp_header-copy type code sum message (suc (suc (suc zero))) l = absurd (omega (arith, l))
icmp_header-copy type code sum message (suc (suc (suc (suc zero)))) l = refl
icmp_header-copy type code sum message (suc (suc (suc (suc (suc zero))))) l = refl
icmp_header-copy type code sum message (suc (suc (suc (suc (suc (suc zero)))))) l = refl
icmp_header-copy type code sum message (suc (suc (suc (suc (suc (suc (suc zero))))))) l = refl
icmp_header-copy type code sum message (suc (suc (suc (suc (suc (suc (suc (suc i)))))))) l =
    ap message (omega arith)

-- Where the heap has room for the message and the packet, a host answers an echo request of at most
-- 65,515 bytes by a packet that it gives to the Ethernet layer; whether it leaves as a frame depends on
-- the cache of addresses. A host that accepts the address of the request's sender takes that packet,
-- once it arrives, as a message of the same length that is an echo reply with a valid checksum, and
-- with the identifier, the sequence number and the data of the request.
pub handle_icmp_echo :
    (s sender : Ip) (source : ℕ) (message : Bytes) (n : ℕ)
    → IsHost s
    → source < 2 ^ 32
    → IsBytes message
    → message 0 ≡ 8
    → message 1 ≡ 0
    → 8 ≤ n
    → n ≤ 65515
    → accepts sender source ≡ true
    → (reply : Bytes) × (delivered sender (handle_icmp true true s source message n)
        ≡ some (record { source = s.address; protocol = icmp; payload = reply; length = n }))
      × (reply 0 ≡ 0)
      × (reply 1 ≡ 0)
      × (checksum reply n ≡ 0)
      × ((i : ℕ) → 4 ≤ i → reply i ≡ message i)
unfolding handle_icmp icmp_header front
handle_icmp_echo s sender source message n h d b type code a l accepted =
    let sum = checksum (icmp_header 0 0 0 (behind 4 message) (behind 8 message)) n in
    let reply = icmp_header 0 0 sum (behind 4 message) (behind 8 message) in
    let long : ltb n 8 ≡ false = ground (arith, a) in
    let request : ((message 0 == 8) && (message 1 == 0)) ≡ true = ground (arith, type, code) in
    (
      reply,
      rw (handle_icmp, long, request)
          (receive_packet-send_packet s sender source icmp reply n h d
            (icmp_header-IsBytes 0 0 sum (behind 4 message) (behind 8 message) (omega arith)
              (omega arith) (λ i. b (4 + i)) (λ i. b (8 + i)))
            l accepted),
      refl,
      refl,
      icmp_header-sealed n 0 0 (behind 4 message) (behind 8 message) (omega (arith, a))
          (omega (arith, l)) (omega arith) (omega arith) (λ i. b (4 + i)) (λ i. b (8 + i)),
      λ i m. icmp_header-copy 0 0 sum message i m,
    )
