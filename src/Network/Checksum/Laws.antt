-- ===== src/Network/Checksum/Laws.antt =====
-- Checksums in packets.
use qaiosplus.Base.{
  ℕ, zero, suc, ◌+◌, ◌-◌, ◌*◌, ◌/◌, ◌%◌, ◌^◌, ◌≤◌, ◌<◌, ◌≡◌, refl, ◌∙◌, bit_or, u16, u32,
  bit_or-Apart, arith,
}
use qaiosplus.Network.Checksum.{Bytes, htons, word, sum_words, fold, checksum}

pub htons-eq : (v : ℕ) → v < 65536 → htons v ≡ 256 * (v % 256) + v / 256
unfolding htons
htons-eq v h =
    let joined : bit_or (v * 256) (v / 256) ≡ v * 256 + v / 256 =
      bit_or-Apart 8 (v * 256) (v / 256) (omega (arith, h)) in
    rw (htons, joined) (omega (arith, h))

pub htons-htons : (v : ℕ) → v < 65536 → htons (htons v) ≡ v
htons-htons v h = omega (arith, h, htons-eq v h, htons-eq (htons v) (omega (arith, htons-eq v h)))

-- The loop ends in two rounds, with the sum of ones' complements.
pub fold_ends : (sum : ℕ) → sum < 2 ^ 32 → fold 2 sum < 65536
unfolding fold
fold_ends sum h = ground (arith, h)

pub fold_mod : (sum : ℕ) → sum < 2 ^ 32 → fold 2 sum % 65535 ≡ sum % 65535
unfolding fold
fold_mod sum h = ground (arith, h)

pub fold_nonzero : (sum : ℕ) → sum < 2 ^ 32 → sum ≤ 65536 * 65536 * fold 2 sum
unfolding fold
fold_nonzero sum h = ground (arith, h)

pub fold_at_most : (sum : ℕ) → sum < 2 ^ 32 → fold 2 sum ≤ sum
unfolding fold
fold_at_most sum h = ground (arith, h)

abbrev pub IsBytes : Bytes → Type 0
IsBytes bytes = (i : ℕ) → bytes i < 256

-- The sum of the words, which does not wrap.
abbrev pub total : ℕ → Bytes → ℕ
total zero bytes = 0
total (suc zero) bytes = bytes 0
total (suc (suc n)) bytes = word bytes 0 + total n (λ i. bytes (suc (suc i)))

total_bound : (n : ℕ) (bytes : Bytes) → IsBytes bytes → total n bytes ≤ 65535 * n
total_bound zero bytes h = omega arith
total_bound (suc zero) bytes h = omega (arith, h 0)
total_bound (suc (suc n)) bytes h =
    omega (arith, h 0, h 1, total_bound n (λ i. bytes (suc (suc i))) (λ i. h (suc (suc i))))

sum_words-total :
    (n : ℕ) (bytes : Bytes) (sum : ℕ)
    → IsBytes bytes
    → sum + 65535 * n < 2 ^ 32
    → sum_words n bytes sum ≡ sum + total n bytes
unfolding sum_words
sum_words-total zero bytes sum h l = omega arith
sum_words-total (suc zero) bytes sum h l = omega (arith, h 0, l)
sum_words-total (suc (suc n)) bytes sum h l =
    let no_wrap : u32 (sum + word bytes 0) ≡ sum + word bytes 0 = omega (arith, h 0, h 1, l) in
    rw (sum_words, no_wrap)
      (sum_words-total n (λ i. bytes (suc (suc i))) (sum + word bytes 0) (λ i. h (suc (suc i)))
          (omega (arith, h 0, h 1, l))
        ∙ omega arith)

pub checksum-total :
    (n : ℕ) (bytes : Bytes)
    → IsBytes bytes
    → n ≤ 65535
    → checksum bytes n ≡ 65535 - u16 (fold 2 (total n bytes))
unfolding checksum
checksum-total n bytes h l =
    let sum : sum_words n bytes 0 ≡ total n bytes =
      sum_words-total n bytes 0 h (omega (arith, l)) ∙ omega arith in
    rw (checksum, sum) refl

-- A packet whose words have the checksum of the packet without it in addition is verified.
pub checksum-sealed :
    (n : ℕ) (open_bytes bytes : Bytes)
    → IsBytes open_bytes
    → IsBytes bytes
    → n ≤ 65535
    → total n bytes ≡ total n open_bytes + checksum open_bytes n
    → checksum bytes n ≡ 0
checksum-sealed n open_bytes bytes h k l e =
    let before = total n open_bytes in
    let after = total n bytes in
    let small : before < 2 ^ 32 = omega (arith, total_bound n open_bytes h, l) in
    let small' : after < 2 ^ 32 = omega (arith, total_bound n bytes k, l) in
    let sealed : after ≡ before + (65535 - fold 2 before) =
      omega (arith, e, checksum-total n open_bytes h l, fold_ends before small) in
    let filled : fold 2 after ≡ 65535 = omega (
      arith,
      sealed,
      fold_ends before small,
      fold_mod before small,
      fold_ends after small',
      fold_mod after small',
      fold_at_most before small,
      fold_nonzero after small',
    ) in
    omega (arith, filled, checksum-total n bytes k l)

pub checksum_bound : (bytes : Bytes) (n : ℕ) → checksum bytes n < 65536
unfolding checksum
checksum_bound bytes n = omega arith
