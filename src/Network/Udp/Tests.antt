-- ===== src/Network/Udp/Tests.antt =====
-- Ports and datagrams.
use qaiosplus.Base.{none, true, arith}
use qaiosplus.Network.Checksum.{Bytes}
use qaiosplus.Network.Checksum.Laws.{IsBytes}
use qaiosplus.Network.Ip.{Ip}
use qaiosplus.Network.Ip.Header.{IsHost}
use qaiosplus.Network.Udp.{Udp, has_port, bind}
use qaiosplus.Network.Udp.Slots.{IsValid}
use qaiosplus.Network.Udp.Calls.{bind_call, after, Refines, port_call-Refines}

abbrev here : Ip
here = record {
  address = 16777226;
  subnet_mask = 16777215;
  gateway = 4261412874;
  identification = 1;
}

abbrev there : Ip
there = record {
  address = 33554442;
  subnet_mask = 16777215;
  gateway = 4261412874;
  identification = 7;
}

here-IsHost : IsHost here
here-IsHost = record { address_bound = omega arith; identification_bound = omega arith }

abbrev zeros : Bytes
zeros = λ i. 0

zeros-IsBytes : IsBytes zeros
zeros-IsBytes i = omega arith

abbrev unbound : Udp
unbound = record { bindings = λ i. none; next_port = 49152 }

unbound-IsValid : IsValid unbound
unfolding has_port
unbound-IsValid = record {
  one = λ port i j l m h g. ground (arith, h);
  all_active = λ i b l e. ground (arith, e);
}

abbrev bound : Udp
bound = (bind true unbound 53).0

port_call-Refines_example :
    IsValid (after unbound (bind_call true 53)) × Refines unbound (bind_call true 53)
port_call-Refines_example = port_call-Refines unbound (bind_call true 53) unbound-IsValid tt
