-- ===== src/Network/Tcp/Lookup.antt =====
-- The search for the connection of a segment.
use qaiosplus.Base.{
  ℕ, ◌*◌, ◌/◌, ◌≤◌, ◌<◌, ◌≡◌, refl, ap, ◌∙◌, true, false, [], Option, none, some, ltb, ◌==◌,
  bit_and, sub64, first_from-zero, first_from_unique, first_from-none, update, Bool-cases, ==→eq,
  eq→==, inl, inr, arith,
}
use qaiosplus.Network.Checksum.{Bytes, word}
use qaiosplus.Network.Tcp.{Connection, htons, matches, process_segment, find_connection}
use qaiosplus.Network.Tcp.Table.{
  Tcp, set_slot, header_of, receiver_of, process_slot, process_at_slot, receive_packet,
}

pub update_same : (f : ℕ → Option Connection) (i : ℕ) (c : Option Connection) → update f i c i ≡ c
update_same f i c = rw (eq→== i i refl) refl

pub update_other :
    (f : ℕ → Option Connection) (i j : ℕ) (c : Option Connection)
    → (j == i) ≡ false
    → update f i c j ≡ f j
update_other f i j c e = rw e refl

no_match :
    (slots : ℕ → Option Connection) (addr remote local j : ℕ)
    → find_connection slots addr remote local ≡ none
    → j < 256
    → matches (slots j) addr remote local ≡ false
unfolding find_connection
no_match slots addr remote local j e l =
    first_from-zero 256 (λ i. matches (slots i) addr remote local) none e j (omega arith) l

-- A connection put where none matched is the one that is found, or none is.
pub find_connection-update :
    (slots : ℕ → Option Connection) (addr remote local k : ℕ) (c : Connection)
    → find_connection slots addr remote local ≡ none
    → k < 256
    → matches (some c) addr remote local ≡ true
    → find_connection (update slots k (some c)) addr remote local ≡ some k
unfolding find_connection
find_connection-update slots addr remote local k c e l m =
    first_from_unique 256 k (λ i. matches (update slots k (some c) i) addr remote local) l
      (rw (update_same slots k (some c)) m)
      (λ j b h. elim (Bool-cases (j == k)) [
        | inl same ↦ ==→eq j k same
        | inr other ↦ ground (
          arith,
          h,
          no_match slots addr remote local j e b,
          ap (λ x. matches x addr remote local) (update_other slots k j (some c) other),
        )
      ])

pub find_connection-still_none :
    (slots : ℕ → Option Connection) (addr remote local k : ℕ) (c : Connection)
    → find_connection slots addr remote local ≡ none
    → matches (some c) addr remote local ≡ false
    → find_connection (update slots k (some c)) addr remote local ≡ none
unfolding find_connection
find_connection-still_none slots addr remote local k c e m =
    first_from-none 256 (λ i. matches (update slots k (some c) i) addr remote local)
      (λ j b. elim (Bool-cases (j == k)) [
        | inl same ↦
            ap (λ x. matches x addr remote local)
              (ap (update slots k (some c)) (==→eq j k same) ∙ update_same slots k (some c))
            ∙ m
        | inr other ↦
            ap (λ x. matches x addr remote local) (update_other slots k j (some c) other)
            ∙ no_match slots addr remote local j e b
      ])

-- The length of what stands behind the header of a segment.
abbrev pub payload_length : Bytes → ℕ → ℕ
payload_length segment n = sub64 n (bit_and (segment 12 / 16) 15 * 4)

module _ (t : Tcp) (source : ℕ) (segment : Bytes) (n : ℕ) (long : 20 ≤ n) where
  pub processed :
      (k : ℕ) (c : Connection)
      → receiver_of t source (htons (word segment 0)) (htons (word segment 2)) ≡ some k
      → t.connections k ≡ some c
      → receive_packet t source segment n ≡ (
        set_slot t k (process_segment c (header_of segment) (payload_length segment n)).0,
        (process_segment c (header_of segment) (payload_length segment n)).1,
      )
  unfolding receive_packet process_at_slot process_slot header_of
  processed k c r e =
      let whole : ltb n 20 ≡ false = ground (arith, long) in rw (receive_packet, whole, r, e) refl

  pub ignored :
      receiver_of t source (htons (word segment 0)) (htons (word segment 2)) ≡ none
      → receive_packet t source segment n ≡ (t, [])
  unfolding receive_packet process_at_slot header_of
  ignored r =
      let whole : ltb n 20 ≡ false = ground (arith, long) in rw (receive_packet, whole, r) refl
