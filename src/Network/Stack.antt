-- ===== src/Network/Stack.antt =====
-- The layers of a host together, QNetwork/src/QNetStack.cpp with the calls from each layer to the next.
-- Segments of TCP are handed on as values. Whether the heap has room is a record of arguments.
pub mod Delivery
mod Tests
use qaiosplus.Base.{ℕ, Bool, true, Option, none, some}
use qaiosplus.Network.Checksum.{Bytes}
use qaiosplus.Network.Ip.{
  Ip, Protocol, icmp, tcp, udp, Received, Outgoing, receive_packet, handle_icmp,
}
use qaiosplus.Network.Udp.{Udp, Status, send}
use qaiosplus.Network.Ethernet.{
  Ethernet, Frame, Reception, dropped, to_ip, handled, receive_frame, transmit,
}

pub record Host : Type 0 where
  pub ethernet : Ethernet
  pub ip : Ip
  pub udp : Udp

pub record Room : Type 0 where
  pub frame : Bool
  pub packet : Bool
  pub message : Bool
  pub datagram : Bool
  pub contents : Bool

-- What a host gives out: nothing, a frame if one is sent, or a segment for TCP.
pub data Effect : Type 0 where
  nothing : Effect
  sent : Option Frame → Effect
  segment : Received → Effect

unfoldable pub transmit_all : Room → Host → Option Outgoing → Option Frame
transmit_all room h none = none
transmit_all room h (some o) = transmit room.frame h.ethernet h.ip.address o

-- The switch of `IP::receivePacket`.
unfoldable pub dispatch : Room → Host → Protocol → Received → Host × Effect
dispatch room h icmp r =
    let answer = handle_icmp room.message room.packet h.ip r.source r.payload r.length in
    (record h { ip = answer.0 }, sent (transmit_all room h answer.1))
dispatch room h tcp r = (h, segment r)
dispatch room h udp r = (
  record h {
    udp =
        qaiosplus.Network.Udp.receive_packet room.datagram room.contents h.udp r.source r.payload
          r.length;
  },
  nothing,
)

unfoldable pub receive_ip : Room → Host → Option Received → Host × Effect
receive_ip room h none = (h, nothing)
receive_ip room h (some r) = dispatch room h r.protocol r

unfoldable pub receive_at : Room → Host → Ethernet × Reception → Host × Effect
receive_at room h (e, dropped) = (record h { ethernet = e }, nothing)
receive_at room h (e, handled f) = (record h { ethernet = e }, sent f)
receive_at room h (e, to_ip packet length) =
    receive_ip room (record h { ethernet = e }) (receive_packet h.ip packet length)

-- `Stack::receivePacket`.
unfoldable pub receive : Room → Host → Bytes → ℕ → Host × Effect
receive room h frame length =
    receive_at room h (receive_frame room.frame h.ethernet h.ip.address frame length)

-- `UDP::send` with the frame that comes of it.
unfoldable pub send_datagram : Room → Host → ℕ → ℕ → ℕ → Bytes → ℕ → Host × Option Frame
send_datagram room h dest dest_port source_port bytes length =
    let packet = (send room.message room.packet h.ip dest dest_port source_port bytes length).0 in
    (record h { ip = packet.0 }, transmit_all room h packet.1)
