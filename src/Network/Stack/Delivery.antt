-- ===== src/Network/Stack/Delivery.antt =====
-- A datagram through all the layers of two hosts.
use qaiosplus.Base.{ℕ, ◌+◌, ◌^◌, ◌≤◌, ◌<◌, ◌≡◌, refl, ap, ◌∙◌, true, Option, none, some, arith}
use qaiosplus.Network.Checksum.{Bytes}
use qaiosplus.Network.Checksum.Laws.{IsBytes}
use qaiosplus.Network.Ip.{
  Ip, udp, Received, Outgoing, accepts, next_hop, send_packet, receive_packet,
}
use qaiosplus.Network.Ip.Header.{IsHost, delivered}
use qaiosplus.Network.Udp.{Datagram, Udp, send}
use qaiosplus.Network.Udp.Slots.{IsValid, queue_of}
use qaiosplus.Network.Udp.Queues.{Appends}
use qaiosplus.Network.Udp.Delivery.{receive_packet-send}
use qaiosplus.Network.Ethernet.{Frame, to_ip, transmit}
use qaiosplus.Network.Ethernet.Cache.{known}
use qaiosplus.Network.Ethernet.Exchange.{arrive, transmit-arrive}
use qaiosplus.Network.Stack.{
  Host, Room, Effect, nothing, transmit_all, dispatch, receive_ip, receive_at, receive,
  send_datagram,
}

abbrev pub enough : Room
enough = record { frame = true; packet = true; message = true; datagram = true; contents = true }

-- What a host does with the frame that it is sent, if there is one.
abbrev pub arrive_at : Host → Option Frame → Host × Effect
arrive_at h none = (h, nothing)
arrive_at h (some f) = receive enough h f.bytes f.length

arrive_at-arrive :
    (h : Host) (f : Option Frame) (packet : Bytes) (n : ℕ)
    → arrive h.ethernet h.ip.address f ≡ (h.ethernet, to_ip packet n)
    → arrive_at h f ≡ receive_ip enough h (receive_packet h.ip packet n)
unfolding receive receive_at
arrive_at-arrive h none packet n e = ground (arith, ap (λ x. x.1) e)
arrive_at-arrive h (some f) packet n e = rw (receive, e) refl

-- A packet that fits into a frame and is for a next hop whose hardware address is known.
Leaves : Host → Host → Ip × Option Outgoing → Type 0
Leaves a b (s, none) = Unit {0}
Leaves a b (s, some o) = (o.length ≤ 65535) × (known a.ethernet o.hop ≡ some b.ethernet.mac)

transmit_all-arrive :
    (a b : Host) (out : Ip × Option Outgoing) (r : Received)
    → delivered b.ip out ≡ some r
    → Leaves a b out
    → arrive_at b (transmit_all enough a out.1) ≡ dispatch enough b r.protocol r
unfolding transmit_all Leaves receive_ip
transmit_all-arrive a b (s, none) r e l = ground (arith, e)
transmit_all-arrive a b (s, some o) r e l =
    arrive_at-arrive b (transmit true a.ethernet a.ip.address o) o.packet o.length
      (transmit-arrive a.ethernet b.ethernet a.ip.address b.ip.address o l.0 l.1)
    ∙ ap (receive_ip enough b) e

-- A datagram of at most 65,507 bytes from one host to a bound port of another goes through the frame
-- that the first one sends: it arrives at the end of that port's queue with its source, source port,
-- bytes and length, no other queue is changed, and the second host sends nothing. The first host knows
-- the hardware address of the next hop, the second one has it and accepts the address, and both have
-- room. For a port that is not bound nothing changes.
pub send_datagram-arrive :
    (a b : Host) (dest dest_port source_port : ℕ) (bytes : Bytes) (n : ℕ)
    → IsHost a.ip
    → IsValid b.udp
    → dest < 2 ^ 32
    → dest_port < 65536
    → source_port < 65536
    → IsBytes bytes
    → n ≤ 65507
    → accepts b.ip dest ≡ true
    → known a.ethernet (next_hop a.ip dest) ≡ some b.ethernet.mac
    → (after : Host) × (arrive_at b (send_datagram enough a dest dest_port source_port bytes n).1
        ≡ (after, nothing))
      × Appends b.udp after.udp dest_port
          (record {
            source = a.ip.address;
            source_port = source_port;
            contents = bytes;
            length = n;
          })
          (queue_of b.udp dest_port)
unfolding send_datagram dispatch send send_packet Leaves
send_datagram-arrive a b dest dest_port source_port bytes n h v d to from i l c k =
    let p =
      receive_packet-send a.ip b.ip b.udp dest dest_port source_port bytes n h v d to from i l c in
    let r : Received = record {
      source = a.ip.address;
      protocol = udp;
      payload = p.0;
      length = 8 + n;
    } in
    (
      record b {
        udp = qaiosplus.Network.Udp.receive_packet true true b.udp a.ip.address p.0 (8 + n);
      },
      transmit_all-arrive a b (send true true a.ip dest dest_port source_port bytes n).0 r p.1
          (omega (arith, l), k),
      p.2,
    )
