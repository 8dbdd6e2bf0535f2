-- ===== src/Network/Ethernet/Cache.antt =====
-- What the cache answers after an update.
use qaiosplus.Base.{
  ℕ, ◌<◌, ◌≡◌, refl, sym, ap, subst, ◌∙◌, true, false, not, Option, none, some, ◌==◌, first_from,
  first_from-zero, first_from_unique, update, Bool-cases, Option-cases, ==→eq, eq→==, inl, inr,
  arith,
}
use qaiosplus.Network.Ethernet.{
  MacAddress, Entry, Ethernet, holds, find_entry, free_slot, update_arp_cache,
}

abbrev pub mac_in : Ethernet → Option ℕ → Option MacAddress
mac_in e none = none
mac_in e (some i) = some (e.arp_cache i).mac

-- The address that the cache has for a host.
abbrev pub known : Ethernet → ℕ → Option MacAddress
known e ip = mac_in e (find_entry e ip)

abbrev pub set_entry : Ethernet → ℕ → Entry → Ethernet
set_entry e i x = record e { arp_cache = update e.arp_cache i x }

update_same : (f : ℕ → Entry) (i : ℕ) (x : Entry) → update f i x i ≡ x
update_same f i x = rw (eq→== i i refl) refl

update_other : (f : ℕ → Entry) (i j : ℕ) (x : Entry) → (j == i) ≡ false → update f i x j ≡ f j
update_other f i j x e = rw e refl

free_slot_bound : (e : Ethernet) → free_slot e < 64
unfolding free_slot
free_slot_bound e = elim (Option-cases (first_from 64 0 (λ i. not (e.arp_cache i).valid))) [
  | inl h ↦ rw (free_slot, h) (omega arith)
  | inr k ↦
      rw (free_slot, k.1) (first_from-zero 64 (λ i. not (e.arp_cache i).valid) (some k.0) k.1).1
]

-- An entry that is put where no other is for its host is found.
known-set_entry :
    (e : Ethernet) (ip i : ℕ) (x : Entry)
    → i < 64
    → holds ip x ≡ true
    → ((j : ℕ) → j < 64 → holds ip (e.arp_cache j) ≡ true → j ≡ i)
    → known (set_entry e i x) ip ≡ some x.mac
unfolding find_entry
known-set_entry e ip i x l h only =
    let hit : first_from 64 0 (λ j. holds ip (update e.arp_cache i x j)) ≡ some i =
      first_from_unique 64 i (λ j. holds ip (update e.arp_cache i x j)) l
        (rw (update_same e.arp_cache i x) h)
        (λ j m g. elim (Bool-cases (j == i)) [
          | inl same ↦ ==→eq j i same
          | inr other ↦
              only j m (subst (λ y. holds ip y ≡ true) (update_other e.arp_cache i j x other) g)
        ]) in
    rw (find_entry, hit, update_same e.arp_cache i x) refl

-- No two valid entries are for one host.
abbrev pub IsCache : Ethernet → Type 0
IsCache e =
    (ip i j : ℕ)
    → i < 64
    → j < 64
    → holds ip (e.arp_cache i) ≡ true
    → holds ip (e.arp_cache j) ≡ true
    → i ≡ j

pub known-update_arp_cache :
    (e : Ethernet) (ip : ℕ) (mac : MacAddress)
    → IsCache e
    → known (update_arp_cache e ip mac) ip ≡ some mac
unfolding update_arp_cache find_entry holds
known-update_arp_cache e ip mac c = elim (Option-cases (find_entry e ip)) [
  | inl unknown ↦
      let x : Entry = record { ip = ip; mac = mac; timestamp = 0; valid = true } in
      rw (update_arp_cache, unknown)
        (known-set_entry e ip (free_slot e) x (free_slot_bound e) (eq→== ip ip refl) (λ j l h.
          ground (
            arith,
            h,
            first_from-zero 64 (λ i. holds ip (e.arp_cache i)) none unknown j (omega arith) l,
          )))
  | inr k ↦
      let found = first_from-zero 64 (λ i. holds ip (e.arp_cache i)) (some k.0) k.1 in
      let x : Entry = record (e.arp_cache k.0) { mac = mac; timestamp = 0 } in
      rw (update_arp_cache, k.1)
        (known-set_entry e ip k.0 x found.1 found.2 (λ j l h. c ip j k.0 l found.1 h found.2))
]

held_same :
    (e : Ethernet) (i : ℕ) (x : Entry) (q j : ℕ)
    → (j == i) ≡ true
    → holds q (update e.arp_cache i x j) ≡ holds q x
held_same e i x q j at_i =
    ap (holds q) (ap (update e.arp_cache i x) (==→eq j i at_i) ∙ update_same e.arp_cache i x)

set_entry-IsCache :
    (e : Ethernet) (i : ℕ) (x : Entry)
    → IsCache e
    → ((q j : ℕ) → j < 64 → holds q x ≡ true → holds q (e.arp_cache j) ≡ true → j ≡ i)
    → IsCache (set_entry e i x)
set_entry-IsCache e i x c only ip j k l m h g = elim (Bool-cases (j == i)) [
  | inl at_j ↦ elim (Bool-cases (k == i)) [
    | inl at_k ↦ ==→eq j i at_j ∙ sym (==→eq k i at_k)
    | inr k_off ↦
        ==→eq j i at_j
        ∙ sym (
            only ip k m (rw (held_same e i x ip j at_j) at h)
              (rw (update_other e.arp_cache i k x k_off) at g))
  ]
  | inr j_off ↦ elim (Bool-cases (k == i)) [
    | inl at_k ↦
        only ip j l (rw (held_same e i x ip k at_k) at g)
          (rw (update_other e.arp_cache i j x j_off) at h)
        ∙ sym (==→eq k i at_k)
    | inr k_off ↦
        c ip j k l m (rw (update_other e.arp_cache i j x j_off) at h)
          (rw (update_other e.arp_cache i k x k_off) at g)
  ]
]

-- The cache never holds two entries for one host.
pub update_arp_cache-IsCache :
    (e : Ethernet) (ip : ℕ) (mac : MacAddress) → IsCache e → IsCache (update_arp_cache e ip mac)
unfolding update_arp_cache find_entry holds
update_arp_cache-IsCache e ip mac c = elim (Option-cases (find_entry e ip)) [
  | inl unknown ↦
      let x : Entry = record { ip = ip; mac = mac; timestamp = 0; valid = true } in
      rw (update_arp_cache, unknown)
        (set_entry-IsCache e (free_slot e) x c (λ q j l own h.
          let same : ip ≡ q = ==→eq ip q own in
          ground (
            arith,
            h,
            ap (λ p. holds p (e.arp_cache j)) same,
            first_from-zero 64 (λ i. holds ip (e.arp_cache i)) none unknown j (omega arith) l,
          )))
  | inr k ↦
      let found = first_from-zero 64 (λ i. holds ip (e.arp_cache i)) (some k.0) k.1 in
      let x : Entry = record (e.arp_cache k.0) { mac = mac; timestamp = 0 } in
      rw (update_arp_cache, k.1)
        (set_entry-IsCache e k.0 x c (λ q j l own h. c q j k.0 l found.1 h own))
]
