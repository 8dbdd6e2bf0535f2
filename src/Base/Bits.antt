-- ===== src/Base/Bits.antt =====
-- Facts about the bits of a byte, checked over all its values.
use Prim.Native.Nat.{ℕ, zero, suc, ◌-◌, ◌^◌, ◌<◌, bit_and, bit_or}
use mathlib.Core.Path.{◌≡◌, refl}
use mathlib.Core.Bool.{Bool, true, false, ◌&&◌, not}
use native.Mathlib.Omega.{arith}
use qaiosplus.Base.Tests.{◌==◌, ltb, ltb→lt, if◌then◌else◌}

-- The test holds of the `n` values from 0 on.
passes : (ℕ → Bool) → ℕ → Bool
passes test zero = true
passes test (suc n) = if test n then passes test n else false

passes-lt : (test : ℕ → Bool) (n k : ℕ) → k < n → passes test n ≡ true → test k ≡ true
unfolding passes
passes-lt test (suc n) k below h = ground (arith, passes-lt test n k)
passes-lt test zero k below h = absurd (omega arith)

-- Bit `i` of a byte, as the code tests it: `b & (1 << i)`.
unfoldable pub byte_bit : ℕ → ℕ → Bool
byte_bit b i = not (bit_and b (2 ^ i) == 0)

-- `b |= (1 << i)` and `b &= ~(1 << i)` on a byte.
unfoldable pub set_bit : ℕ → ℕ → ℕ
set_bit b i = bit_or b (2 ^ i)

unfoldable pub clear_bit : ℕ → ℕ → ℕ
clear_bit b i = bit_and b (255 - 2 ^ i)

same : Bool → Bool → Bool
same true b = b
same false b = not b

same→eq : (a b : Bool) → same a b ≡ true → a ≡ b
unfolding same
same→eq a b h = ground arith

-- All of `p`, over the bytes and the bit numbers.
all_bits : (ℕ → ℕ → Bool) → Bool
unfolding passes
all_bits p = passes (λ b. passes (p b) 8) 256

all_bits_sound : (p : ℕ → ℕ → Bool) (b i : ℕ) → all_bits p ≡ true → b < 256 → i < 8 → p b i ≡ true
unfolding all_bits
all_bits_sound p b i h hb hi = passes-lt (p b) 8 i hi (passes-lt (λ b. passes (p b) 8) 256 b hb h)

set_ok : ℕ → ℕ → Bool
unfolding byte_bit set_bit same passes
set_ok b i = passes (λ j. same (byte_bit (set_bit b i) j) (if j == i then true else byte_bit b j)) 8

clear_ok : ℕ → ℕ → Bool
unfolding byte_bit clear_bit same passes
clear_ok b i =
    passes (λ j. same (byte_bit (clear_bit b i) j) (if j == i then false else byte_bit b j)) 8

set_table : all_bits set_ok ≡ true
unfolding all_bits set_ok
set_table = refl

clear_table : all_bits clear_ok ≡ true
unfolding all_bits clear_ok
clear_table = refl

range_table : all_bits (λ b i. ltb (set_bit b i) 256 && ltb (clear_bit b i) 256) ≡ true
unfolding all_bits set_bit clear_bit
range_table = refl

-- Setting a bit of a byte changes that bit alone.
pub byte_bit-set_bit :
    (b i j : ℕ)
    → b < 256
    → i < 8
    → j < 8
    → byte_bit (set_bit b i) j ≡ (if j == i then true else byte_bit b j)
unfolding set_ok
byte_bit-set_bit b i j hb hi hj = same→eq _ _ (
    passes-lt (λ x. same (byte_bit (set_bit b i) x) (if x == i then true else byte_bit b x)) 8 j hj
      (all_bits_sound set_ok b i set_table hb hi))

-- Clearing a bit of a byte changes that bit alone.
pub byte_bit-clear_bit :
    (b i j : ℕ)
    → b < 256
    → i < 8
    → j < 8
    → byte_bit (clear_bit b i) j ≡ (if j == i then false else byte_bit b j)
unfolding clear_ok
byte_bit-clear_bit b i j hb hi hj = same→eq _ _ (
    passes-lt (λ x. same (byte_bit (clear_bit b i) x) (if x == i then false else byte_bit b x)) 8 j
      hj (all_bits_sound clear_ok b i clear_table hb hi))

both : (p q : Bool) → (p && q) ≡ true → (p ≡ true) × (q ≡ true)
both p q h = ground arith

-- A byte stays a byte.
pub set_bit-lt : (b i : ℕ) → b < 256 → i < 8 → set_bit b i < 256
set_bit-lt b i hb hi = ltb→lt _ _ (both _ _ (all_bits_sound _ b i range_table hb hi)).0

pub clear_bit-lt : (b i : ℕ) → b < 256 → i < 8 → clear_bit b i < 256
clear_bit-lt b i hb hi = ltb→lt _ _ (both _ _ (all_bits_sound _ b i range_table hb hi)).1

full_ok : ℕ → Bool
unfolding passes byte_bit
full_ok b = if passes (byte_bit b) 8 then b == 255 else not (b == 255)

full_table : passes full_ok 256 ≡ true
unfolding passes full_ok
full_table = refl

passes_all : (test : ℕ → Bool) (n : ℕ) → ((k : ℕ) → k < n → test k ≡ true) → passes test n ≡ true
unfolding passes
passes_all test zero h = refl
passes_all test (suc n) h =
    rw (h n (omega arith)) (passes_all test n (λ k below. h k (omega arith)))

-- A byte is 0xFF exactly when its eight bits are set.
pub eq-full_byte : (b : ℕ) → b < 256 → ((j : ℕ) → j < 8 → byte_bit b j ≡ true) → b ≡ 255
unfolding full_ok
eq-full_byte b hb h =
    ground (arith, passes_all (byte_bit b) 8 h, passes-lt full_ok 256 b hb full_table)

pub byte_bit-full_byte : (j : ℕ) → j < 8 → byte_bit 255 j ≡ true
unfolding byte_bit passes
byte_bit-full_byte j h = passes-lt (byte_bit 255) 8 j h refl
