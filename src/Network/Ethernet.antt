-- ===== src/Network/Ethernet.antt =====
-- Ethernet frames and the cache of addresses, QNetwork/src/QNetEthernet.cpp. A frame that is
-- transmitted is part of the result; whether the heap has room for one is an argument, and so is the
-- host's own address, which the source asks the stack for.
pub mod Cache
pub mod Exchange
mod Tests
use qaiosplus.Base.{
  ℕ, ◌+◌, ◌-◌, ◌*◌, ◌/◌, Bool, true, false, not, ◌&&◌, ◌||◌, List, [], ◌∷◌, ◌++◌, Option, none,
  some, ltb, ◌==◌, if◌then◌else◌, bit_and, first_from, update, u64,
}
use qaiosplus.Network.Checksum.{
  Bytes, htons, word, double_word, low_byte, high_byte, octet, front, behind,
}
use qaiosplus.Network.Ip.{Outgoing}

pub record MacAddress : Type 0 where
  pub byte_0 : ℕ
  pub byte_1 : ℕ
  pub byte_2 : ℕ
  pub byte_3 : ℕ
  pub byte_4 : ℕ
  pub byte_5 : ℕ

abbrev pub mac_bytes : MacAddress → List ℕ
mac_bytes m = m.byte_0 ∷ m.byte_1 ∷ m.byte_2 ∷ m.byte_3 ∷ m.byte_4 ∷ m.byte_5 ∷ []

-- The address at an offset.
abbrev pub mac_at : Bytes → ℕ → MacAddress
mac_at bytes i = record {
  byte_0 = bytes i;
  byte_1 = bytes (i + 1);
  byte_2 = bytes (i + 2);
  byte_3 = bytes (i + 3);
  byte_4 = bytes (i + 4);
  byte_5 = bytes (i + 5);
}

abbrev pub is_same : MacAddress → MacAddress → Bool
is_same m n =
    (m.byte_0 == n.byte_0)
    && (m.byte_1 == n.byte_1)
    && (m.byte_2 == n.byte_2)
    && (m.byte_3 == n.byte_3)
    && (m.byte_4 == n.byte_4)
    && (m.byte_5 == n.byte_5)

abbrev pub repeated : ℕ → MacAddress
repeated b = record { byte_0 = b; byte_1 = b; byte_2 = b; byte_3 = b; byte_4 = b; byte_5 = b }

abbrev pub is_broadcast : MacAddress → Bool
is_broadcast m = is_same m (repeated 255)

abbrev pub is_multicast : MacAddress → Bool
is_multicast m = not (bit_and m.byte_0 1 == 0)

pub record Entry : Type 0 where
  pub ip : ℕ
  pub mac : MacAddress
  pub timestamp : ℕ
  pub valid : Bool

pub record Ethernet : Type 0 where
  pub mac : MacAddress
  pub arp_cache : ℕ → Entry

pub record Frame : Type 0 where
  pub bytes : Bytes
  pub length : ℕ

abbrev pub cache_size : ℕ
cache_size = 64

abbrev pub ether_ipv4 : ℕ
ether_ipv4 = 2048

abbrev pub ether_arp : ℕ
ether_arp = 2054

unfoldable pub initialize : Ethernet → Ethernet
initialize e = record e {
  arp_cache =
      λ i. if ltb i cache_size then record (e.arp_cache i) { valid = false } else e.arp_cache i;
}

unfoldable pub header : MacAddress → MacAddress → ℕ → List ℕ
header dest source ether_type =
    mac_bytes dest
    ++ (mac_bytes source ++ (low_byte (htons ether_type) ∷ high_byte (htons ether_type) ∷ []))

unfoldable pub send_frame : Bool → Ethernet → MacAddress → ℕ → Bytes → ℕ → Option Frame
send_frame room e dest ether_type payload length =
    if room
    then some (record {
      bytes = front (header dest e.mac ether_type) payload;
      length = u64 (14 + length);
    })
    else none

unfoldable pub holds : ℕ → Entry → Bool
holds ip x = x.valid && (x.ip == ip)

unfoldable pub find_entry : Ethernet → ℕ → Option ℕ
find_entry e ip = first_from cache_size 0 (λ i. holds ip (e.arp_cache i))

unfoldable pub arp_packet : MacAddress → ℕ → ℕ → MacAddress → ℕ → Bytes
arp_packet source own operation target ip =
    front
      (low_byte (htons 1)
        ∷ high_byte (htons 1)
        ∷ low_byte (htons ether_ipv4)
        ∷ high_byte (htons ether_ipv4)
        ∷ 6
        ∷ 4
        ∷ low_byte (htons operation)
        ∷ high_byte (htons operation)
        ∷ (mac_bytes source
            ++ (octet 0 own
                ∷ octet 1 own
                ∷ octet 2 own
                ∷ octet 3 own
                ∷ (mac_bytes target ++ (octet 0 ip ∷ octet 1 ip ∷ octet 2 ip ∷ octet 3 ip ∷ [])))))
      (λ i. 0)

unfoldable pub send_arp_request : Bool → Ethernet → ℕ → ℕ → Option Frame
send_arp_request room e own ip =
    send_frame room e (repeated 255) ether_arp (arp_packet e.mac own 1 (repeated 0) ip) 28

unfoldable pub send_arp_reply : Bool → Ethernet → ℕ → ℕ → MacAddress → Option Frame
send_arp_reply room e own ip target =
    send_frame room e target ether_arp (arp_packet e.mac own 2 target ip) 28

-- The address, or the request that is sent when it is not known.
unfoldable pub resolve_mac : Bool → Ethernet → ℕ → ℕ → Option MacAddress × Option Frame
resolve_mac room e own ip = elim (find_entry e ip) [
  | some i ↦ (some (e.arp_cache i).mac, none)
  | none ↦ (none, send_arp_request room e own ip)
]

-- The end of `IP::sendPacket`: the packet goes to the address of its next hop, if that is known.
unfoldable pub transmit : Bool → Ethernet → ℕ → Outgoing → Option Frame
transmit room e own o = elim (resolve_mac room e own o.hop).0 [
  | some dest ↦ send_frame room e dest ether_ipv4 o.packet o.length
  | none ↦ (resolve_mac room e own o.hop).1
]

unfoldable pub free_slot : Ethernet → ℕ
free_slot e = elim (first_from cache_size 0 (λ i. not (e.arp_cache i).valid)) [
  | some i ↦ i
  | none ↦ 0
]

unfoldable pub update_arp_cache : Ethernet → ℕ → MacAddress → Ethernet
update_arp_cache e ip mac = elim (find_entry e ip) [
  | some i ↦ record e {
    arp_cache = update e.arp_cache i (record (e.arp_cache i) { mac = mac; timestamp = 0 });
  }
  | none ↦ record e {
    arp_cache =
        update e.arp_cache (free_slot e)
          (record { ip = ip; mac = mac; timestamp = 0; valid = true });
  }
]

unfoldable pub handle_arp : Bool → Ethernet → ℕ → Bytes → ℕ → Ethernet × Option Frame
handle_arp room e own arp length =
    let sender = double_word arp 14 in
    let sender_mac = mac_at arp 8 in
    let learned = update_arp_cache e sender sender_mac in
    if ltb length 28 || not (htons (word arp 0) == 1) || not (htons (word arp 2) == ether_ipv4)
    then (e, none)
    else (if (htons (word arp 6) == 1) && (double_word arp 24 == own)
        then (learned, send_arp_reply room learned own sender sender_mac)
        else (learned, none))

-- A frame is dropped, handed to the Internet protocol, or handled here with a reply or none.
pub data Reception : Type 0 where
  dropped : Reception
  to_ip : Bytes → ℕ → Reception
  handled : Option Frame → Reception

unfoldable pub accept_frame : Bool → Ethernet → ℕ → Bytes → ℕ → Ethernet × Reception
accept_frame room e own frame length =
    let ether_type = htons (word frame 12) in
    let arp = handle_arp room e own (behind 14 frame) (length - 14) in
    if ether_type == ether_ipv4
    then (e, to_ip (behind 14 frame) (length - 14))
    else (if ether_type == ether_arp then (arp.0, handled arp.1) else (e, dropped))

unfoldable pub receive_frame : Bool → Ethernet → ℕ → Bytes → ℕ → Ethernet × Reception
receive_frame room e own frame length =
    let dest = mac_at frame 0 in
    if ltb length 14
    then (e, dropped)
    else (if is_broadcast dest || is_multicast dest || is_same dest e.mac
        then accept_frame room e own frame length
        else (e, dropped))
