-- ===== src/Network/Ip/Tests.antt =====
-- Packets between two hosts.
use qaiosplus.Base.{ℕ, ◌≡◌, refl, [], ◌∷◌, some, arith, true, ◌≤◌}
use qaiosplus.Network.Checksum.{Bytes, checksum, front}
use qaiosplus.Network.Checksum.Laws.{IsBytes}
use qaiosplus.Network.Ip.{Ip, icmp, handle_icmp}
use qaiosplus.Network.Ip.Header.{IsHost, front-IsBytes, delivered}
use qaiosplus.Network.Ip.Echo.{handle_icmp_echo}

-- 10.0.0.1 and 10.0.0.2 in a network of 256 addresses.
abbrev here : Ip
here = record {
  address = 16777226;
  subnet_mask = 16777215;
  gateway = 4261412874;
  identification = 1;
}

abbrev there : Ip
there = record {
  address = 33554442;
  subnet_mask = 16777215;
  gateway = 4261412874;
  identification = 7;
}

here-IsHost : IsHost here
here-IsHost = record { address_bound = omega arith; identification_bound = omega arith }

abbrev zeros : Bytes
zeros = λ i. 0

zeros-IsBytes : IsBytes zeros
zeros-IsBytes i = omega arith

-- An echo request with the identifier 258 and the sequence number 1.
abbrev request : Bytes
request = front (8 ∷ 0 ∷ 0 ∷ 0 ∷ 1 ∷ 2 ∷ 0 ∷ 1 ∷ []) zeros

request-IsBytes : IsBytes request
request-IsBytes =
    front-IsBytes (8 ∷ 0 ∷ 0 ∷ 0 ∷ 1 ∷ 2 ∷ 0 ∷ 1 ∷ []) zeros (ground arith) zeros-IsBytes

handle_icmp_echo_example :
    (reply : Bytes) × (delivered there (handle_icmp true true here 33554442 request 12)
      ≡ some (record { source = 16777226; protocol = icmp; payload = reply; length = 12 }))
    × (reply 0 ≡ 0)
    × (reply 1 ≡ 0)
    × (checksum reply 12 ≡ 0)
    × ((i : ℕ) → 4 ≤ i → reply i ≡ request i)
unfolding front
handle_icmp_echo_example =
    handle_icmp_echo here there 33554442 request 12 here-IsHost (omega arith) request-IsBytes refl
      refl (omega arith) (omega arith) refl
