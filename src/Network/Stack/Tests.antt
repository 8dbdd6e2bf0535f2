-- ===== src/Network/Stack/Tests.antt =====
-- A datagram between two hosts.
use qaiosplus.Base.{◌≡◌, refl, none, some, true, false, arith}
use qaiosplus.Network.Checksum.{Bytes}
use qaiosplus.Network.Checksum.Laws.{IsBytes}
use qaiosplus.Network.Ip.{next_hop, is_local}
use qaiosplus.Network.Ip.Header.{IsHost}
use qaiosplus.Network.Udp.{Udp, has_port, bind}
use qaiosplus.Network.Udp.Slots.{IsValid, queue_of}
use qaiosplus.Network.Udp.Queues.{Appends, bind-Binds}
use qaiosplus.Network.Ethernet.{Ethernet, repeated, holds, update_arp_cache}
use qaiosplus.Network.Ethernet.Cache.{IsCache, known, known-update_arp_cache}
use qaiosplus.Network.Stack.{Host, nothing, send_datagram}
use qaiosplus.Network.Stack.Delivery.{enough, arrive_at, send_datagram-arrive}

abbrev empty : Ethernet
empty = record {
  mac = repeated 2;
  arp_cache = λ i. record { ip = 0; mac = repeated 0; timestamp = 0; valid = false };
}

empty-IsCache : IsCache empty
unfolding holds
empty-IsCache ip i j l m h g = ground (arith, h)

abbrev unbound : Udp
unbound = record { bindings = λ i. none; next_port = 49152 }

unbound-IsValid : IsValid unbound
unfolding has_port
unbound-IsValid = record {
  one = λ port i j l m h g. ground (arith, h);
  all_active = λ i b l e. ground (arith, e);
}

-- 10.0.0.1 and 10.0.0.2, in one network.
abbrev here : Host
here = record {
  ethernet = update_arp_cache empty 33554442 (repeated 4);
  ip = record { address = 16777226; subnet_mask = 16777215; gateway = 0; identification = 1 };
  udp = unbound;
}

abbrev there : Host
there = record {
  ethernet = record empty { mac = repeated 4 };
  ip = record { address = 33554442; subnet_mask = 16777215; gateway = 0; identification = 7 };
  udp = (bind true unbound 53).0;
}

here-IsHost : IsHost here.ip
here-IsHost = record { address_bound = omega arith; identification_bound = omega arith }

is_next : next_hop here.ip 33554442 ≡ 33554442
unfolding next_hop is_local
is_next = refl

known_there : known here.ethernet (next_hop here.ip 33554442) ≡ some there.ethernet.mac
known_there = rw is_next (known-update_arp_cache empty 33554442 (repeated 4) empty-IsCache)

abbrev zeros : Bytes
zeros = λ i. 0

zeros-IsBytes : IsBytes zeros
zeros-IsBytes i = omega arith

send_datagram-arrive_example :
    (after : Host) × (arrive_at there (send_datagram enough here 33554442 53 49152 zeros 5).1
      ≡ (after, nothing))
    × Appends there.udp after.udp 53
        (record { source = 16777226; source_port = 49152; contents = zeros; length = 5 })
        (queue_of there.udp 53)
send_datagram-arrive_example =
    send_datagram-arrive here there 33554442 53 49152 zeros 5 here-IsHost
      (bind-Binds true unbound 53 unbound-IsValid).0 (omega arith) (omega arith) (omega arith)
      zeros-IsBytes (omega arith) refl known_there
