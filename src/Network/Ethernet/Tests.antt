-- ===== src/Network/Ethernet/Tests.antt =====
-- Two hosts that learn each other's hardware addresses.
use qaiosplus.Base.{◌≡◌, refl, none, some, true, false, first_from, arith}
use qaiosplus.Network.Ip.{Outgoing}
use qaiosplus.Network.Ethernet.{Ethernet, repeated, holds, find_entry, resolve_mac}
use qaiosplus.Network.Ethernet.Cache.{known, IsCache}
use qaiosplus.Network.Ethernet.Exchange.{arrive, reply_of, resolve_mac-arrive}

abbrev empty : Ethernet
empty = record {
  mac = repeated 2;
  arp_cache = λ i. record { ip = 0; mac = repeated 0; timestamp = 0; valid = false };
}

abbrev other : Ethernet
other = record empty { mac = repeated 4 }

empty-IsCache : IsCache empty
unfolding holds
empty-IsCache ip i j l m h g = ground (arith, h)

other-IsCache : IsCache other
unfolding holds
other-IsCache ip i j l m h g = ground (arith, h)

unknown : known empty 33554442 ≡ none
unfolding find_entry holds first_from
unknown = refl

resolve_mac-arrive_example :
    let answered = arrive other 33554442 (resolve_mac true empty 16777226 33554442).1 in
    let settled = arrive empty 16777226 (reply_of answered.1) in
    (known settled.0 33554442 ≡ some (repeated 4))
    × (known answered.0 16777226 ≡ some (repeated 2))
    × IsCache settled.0
    × IsCache answered.0
resolve_mac-arrive_example =
    resolve_mac-arrive empty other 16777226 33554442 empty-IsCache other-IsCache (omega arith)
      (omega arith) unknown

abbrev packet : Outgoing
packet = record { hop = 33554442; packet = λ i. i; length = 60 }
