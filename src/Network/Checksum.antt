-- ===== src/Network/Checksum.antt =====
-- Byte order and the checksum of the Internet protocols, QNetwork/src/QNetIP.cpp. Packets are memory
-- from an address on: a function of the offset to bytes. The machine's words have the low byte first.
pub mod Laws
use qaiosplus.Base.{
  ℕ, zero, suc, ◌+◌, ◌-◌, ◌*◌, ◌/◌, ◌%◌, List, [], ◌∷◌, bit_or, bit_and, u16, u32, ltb, not, ◌==◌,
  if◌then◌else◌,
}

abbrev pub Bytes : Type 0
Bytes = ℕ → ℕ

-- `htons`, and `ntohs`, which is the same function.
unfoldable pub htons : ℕ → ℕ
htons v = u16 (bit_or (v * 256) (v / 256))

-- The word and the double word at an offset.
abbrev pub word : Bytes → ℕ → ℕ
word bytes i = bytes i + 256 * bytes (i + 1)

abbrev pub double_word : Bytes → ℕ → ℕ
double_word bytes i = word bytes i + 65536 * word bytes (i + 2)

abbrev pub low_byte : ℕ → ℕ
low_byte v = v % 256

abbrev pub high_byte : ℕ → ℕ
high_byte v = v / 256 % 256

-- The octets of an address.
abbrev pub octet : ℕ → ℕ → ℕ
octet zero v = v % 256
octet (suc n) v = octet n (v / 256)

-- Bytes in front of what is in memory.
unfoldable pub front : List ℕ → Bytes → Bytes
front [] bytes i = bytes i
front (b ∷ s) bytes zero = b
front (b ∷ s) bytes (suc i) = front s bytes i

-- What is in memory `n` bytes on.
abbrev pub behind : ℕ → Bytes → Bytes
behind n bytes = λ i. bytes (n + i)

-- The loops of `checksum`: over the words and an odd byte at the end, and over the upper half of the
-- sum. Two rounds of the second are enough.
unfoldable pub sum_words : ℕ → Bytes → ℕ → ℕ
sum_words zero bytes sum = sum
sum_words (suc zero) bytes sum = u32 (sum + bytes 0)
sum_words (suc (suc n)) bytes sum =
    sum_words n (λ i. bytes (suc (suc i))) (u32 (sum + word bytes 0))

unfoldable pub fold : ℕ → ℕ → ℕ
fold zero sum = sum
fold (suc n) sum =
    let folded = fold n (u32 (u16 sum + sum / 65536)) in
    if not (sum / 65536 == 0) then folded else sum

unfoldable pub checksum : Bytes → ℕ → ℕ
checksum bytes length = 65535 - u16 (fold 2 (sum_words length bytes 0))
