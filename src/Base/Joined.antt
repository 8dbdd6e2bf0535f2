-- ===== src/Base/Joined.antt =====
-- `or` of two numbers that have no digit in common, as the code joins an address and flags.
use Prim.Native.Nat.{ℕ, zero, suc, ◌+◌, ◌/◌, ◌%◌, ◌≤◌, ◌<◌, max, bit_or, digits, bit_or-bitwise}
use mathlib.Core.Path.{◌≡◌, ◌∙◌}
use native.Mathlib.Omega.{arith}

-- The lowest `k` digits of `a` are 0, and `f` has no others.
abbrev pub Apart : ℕ → ℕ → ℕ → Type 0
Apart zero a f = f ≡ 0
Apart (suc k) a f = (a % 2 ≡ 0) × Apart k (a / 2) (f / 2)

digits_joined : (k n a f : ℕ) → a ≤ n → Apart k a f → digits (λ b. b) max n a f ≡ a + f
digits_joined k zero zero f h d = omega arith
digits_joined k zero (suc a) f h d = absurd (omega arith)
digits_joined k (suc n) zero f h d = omega arith
digits_joined zero (suc n) (suc a) f h d =
    omega (arith, digits_joined zero n (suc a / 2) (f / 2) (omega arith) (omega arith))
digits_joined (suc k) (suc n) (suc a) f h d =
    omega (arith, d.0, digits_joined k n (suc a / 2) (f / 2) (omega arith) d.1)

pub bit_or-Apart : (k a f : ℕ) → Apart k a f → bit_or a f ≡ a + f
bit_or-Apart k a f d = bit_or-bitwise a f ∙ digits_joined k a a f (omega arith) d

-- A page address and a value below 4096.
pub bit_or_page : (a f : ℕ) → a % 4096 ≡ 0 → f < 4096 → bit_or a f ≡ a + f
bit_or_page a f h l = bit_or-Apart 12 a f (omega arith)
