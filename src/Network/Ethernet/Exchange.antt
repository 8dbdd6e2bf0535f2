-- ===== src/Network/Ethernet/Exchange.antt =====
-- Frames between two hosts, and the exchange of a request and a reply by which they learn their
-- addresses.
use qaiosplus.Base.{
  ℕ, ◌+◌, ◌-◌, ◌^◌, ◌≤◌, ◌<◌, ◌≡◌, refl, sym, ap, ◌∙◌, Bool, true, false, ◌||◌, Option, none, some,
  ltb, u64, eq→==, Option-cases, inl, inr, arith,
}
use qaiosplus.Network.Checksum.{Bytes, htons, double_word, front, behind}
use qaiosplus.Network.Ip.{Outgoing}
use qaiosplus.Network.Ip.Header.{double_word-octets, front_behind}
use qaiosplus.Network.Ethernet.{
  MacAddress, is_same, repeated, is_broadcast, is_multicast, Ethernet, Frame, ether_arp, ether_ipv4,
  header, send_frame, arp_packet, send_arp_request, send_arp_reply, find_entry, resolve_mac,
  update_arp_cache, handle_arp, Reception, dropped, to_ip, handled, accept_frame, receive_frame,
  transmit,
}
use qaiosplus.Network.Ethernet.Cache.{
  mac_in, known, IsCache, known-update_arp_cache, update_arp_cache-IsCache,
}

is_same_refl : (m : MacAddress) → is_same m m ≡ true
is_same_refl m =
    rw
      (
        eq→== m.byte_0 m.byte_0 refl,
        eq→== m.byte_1 m.byte_1 refl,
        eq→== m.byte_2 m.byte_2 refl,
        eq→== m.byte_3 m.byte_3 refl,
        eq→== m.byte_4 m.byte_4 refl,
        eq→== m.byte_5 m.byte_5 refl,
      )
      refl

-- What a host does with the frame that it is sent, if there is one.
abbrev pub arrive : Ethernet → ℕ → Option Frame → Ethernet × Reception
arrive e own none = (e, dropped)
arrive e own (some f) = receive_frame true e own f.bytes f.length

abbrev pub reply_of : Reception → Option Frame
reply_of dropped = none
reply_of (to_ip bytes n) = none
reply_of (handled f) = f

abbrev accepts_mac : Ethernet → MacAddress → Bool
accepts_mac e dest = is_broadcast dest || is_multicast dest || is_same dest e.mac

-- The message is handled by a host that takes the frame.
arrive_arp :
    (s e : Ethernet) (own : ℕ) (dest : MacAddress) (arp : Bytes)
    → accepts_mac e dest ≡ true
    → arrive e own (send_frame true s dest ether_arp arp 28)
      ≡ ((handle_arp true e own arp 28).0, handled (handle_arp true e own arp 28).1)
unfolding receive_frame accept_frame send_frame header front htons
arrive_arp s e own dest arp a =
    let rest : behind 14 (front (header dest s.mac ether_arp) arp) ≡ arp =
      λ k i. front_behind (header dest s.mac ether_arp) arp i k in
    rw (receive_frame, a)
      (ap (λ b. ((handle_arp true e own b 28).0, handled (handle_arp true e own b 28).1)) rest)

handle_arp_request :
    (e : Ethernet) (own ip : ℕ) (sender target : MacAddress)
    → own < 2 ^ 32
    → ip < 2 ^ 32
    → handle_arp true e own (arp_packet sender ip 1 target own) 28 ≡ (
      update_arp_cache e ip sender,
      send_arp_reply true (update_arp_cache e ip sender) own ip sender,
    )
unfolding handle_arp arp_packet front htons
handle_arp_request e own ip sender target h l =
    let to : double_word (arp_packet sender ip 1 target own) 24 ≡ own = double_word-octets own h in
    let from : double_word (arp_packet sender ip 1 target own) 14 ≡ ip = double_word-octets ip l in
    rw (handle_arp, to, from, eq→== own own refl) refl

handle_arp_reply :
    (e : Ethernet) (own ip : ℕ) (sender target : MacAddress)
    → ip < 2 ^ 32
    → handle_arp true e own (arp_packet sender ip 2 target own) 28
      ≡ (update_arp_cache e ip sender, none)
unfolding handle_arp arp_packet front htons
handle_arp_reply e own ip sender target l =
    let from : double_word (arp_packet sender ip 2 target own) 14 ≡ ip = double_word-octets ip l in
    rw (handle_arp, from) refl

accepts_own : (e : Ethernet) → accepts_mac e e.mac ≡ true
accepts_own e = ground (arith, is_same_refl e.mac)

update_arp_cache-mac :
    (e : Ethernet) (ip : ℕ) (m : MacAddress) → (update_arp_cache e ip m).mac ≡ e.mac
unfolding update_arp_cache
update_arp_cache-mac e ip m = elim (Option-cases (find_entry e ip)) [
  | inl h ↦ rw (update_arp_cache, h) refl
  | inr k ↦ rw (update_arp_cache, k.1) refl
]

find_entry-unknown : (e : Ethernet) (ip : ℕ) → known e ip ≡ none → find_entry e ip ≡ none
find_entry-unknown e ip unknown = elim (Option-cases (find_entry e ip)) [
  | inl h ↦ h
  | inr k ↦ ground (arith, unknown, ap (mac_in e) k.1)
]

-- A host that asks for an address it does not know gets an answer from the host that has it: once the
-- request and the reply have arrived, each host knows the other's hardware address, and neither cache
-- has two entries for one host. There is room for both frames.
pub resolve_mac-arrive :
    (a b : Ethernet) (ip_a ip_b : ℕ)
    → IsCache a
    → IsCache b
    → ip_a < 2 ^ 32
    → ip_b < 2 ^ 32
    → known a ip_b ≡ none
    → (let answered = arrive b ip_b (resolve_mac true a ip_a ip_b).1 in
        let settled = arrive a ip_a (reply_of answered.1) in
        (known settled.0 ip_b ≡ some b.mac)
        × (known answered.0 ip_a ≡ some a.mac)
        × IsCache settled.0
        × IsCache answered.0)
unfolding resolve_mac send_arp_request send_arp_reply
resolve_mac-arrive a b ip_a ip_b ca cb ha hb unknown =
    let b' = update_arp_cache b ip_a a.mac in
    let asked : (resolve_mac true a ip_a ip_b).1 ≡ send_arp_request true a ip_a ip_b =
      rw (resolve_mac, find_entry-unknown a ip_b unknown) refl in
    let got : arrive b ip_b (send_arp_request true a ip_a ip_b)
        ≡ (b', handled (send_arp_reply true b' ip_b ip_a a.mac)) =
      arrive_arp a b ip_b (repeated 255) (arp_packet a.mac ip_a 1 (repeated 0) ip_b) refl
      ∙ ap (λ x. (x.0, handled x.1)) (handle_arp_request b ip_b ip_a a.mac (repeated 0) hb ha) in
    let back : arrive a ip_a (send_arp_reply true b' ip_b ip_a a.mac)
        ≡ (update_arp_cache a ip_b b'.mac, handled none) =
      arrive_arp b' a ip_a a.mac (arp_packet b'.mac ip_b 2 a.mac ip_a) (accepts_own a)
      ∙ ap (λ x. (x.0, handled x.1)) (handle_arp_reply a ip_a ip_b b'.mac a.mac hb) in
    rw (asked, got, back)
      (
        known-update_arp_cache a ip_b b'.mac ca ∙ ap some (update_arp_cache-mac b ip_a a.mac),
        known-update_arp_cache b ip_a a.mac cb,
        update_arp_cache-IsCache a ip_b b'.mac ca,
        update_arp_cache-IsCache b ip_a a.mac cb,
      )

known-resolve_mac :
    (room : Bool) (e : Ethernet) (own ip : ℕ) (m : MacAddress)
    → known e ip ≡ some m
    → (resolve_mac room e own ip).0 ≡ some m
unfolding resolve_mac
known-resolve_mac room e own ip m h = elim (Option-cases (find_entry e ip)) [
  | inl f ↦ ground (arith, h, ap (mac_in e) f)
  | inr k ↦ rw (resolve_mac, k.1) (sym (ap (mac_in e) k.1) ∙ h)
]

-- A packet of at most 65,535 bytes for a hop whose hardware address is known is sent in a frame that the host with that
-- address hands to its Internet protocol, byte for byte and with its length; its cache stays as it is.
pub transmit-arrive :
    (a b : Ethernet) (own own_b : ℕ) (o : Outgoing)
    → o.length ≤ 65535
    → known a o.hop ≡ some b.mac
    → arrive b own_b (transmit true a own o) ≡ (b, to_ip o.packet o.length)
unfolding transmit receive_frame accept_frame send_frame header front htons
transmit-arrive a b own own_b o l h =
    let rest : behind 14 (front (header b.mac a.mac ether_ipv4) o.packet) ≡ o.packet =
      λ k i. front_behind (header b.mac a.mac ether_ipv4) o.packet i k in
    let long : ltb (u64 (14 + o.length)) 14 ≡ false = ground (arith, l) in
    let len : u64 (14 + o.length) - 14 ≡ o.length = omega (arith, l) in
    rw (transmit, known-resolve_mac true a own o.hop b.mac h, receive_frame, long, accepts_own b)
      (ap (λ p. (b, to_ip p (u64 (14 + o.length) - 14))) rest ∙ ap (λ n. (b, to_ip o.packet n)) len)
