-- ===== src/Core/Block.antt =====
-- The memory operations of QCCore/src/QCMemUtil.c. Memory is a function from addresses to bytes, and
-- a call returns the new one.
pub mod Laws
use qaiosplus.Base.{
  ℕ, zero, suc, ◌+◌, ◌-◌, ◌%◌, ◌^◌, Bool, true, false, ltb, ◌==◌, if◌then◌else◌, update,
}

abbrev pub Mem : Type 0
Mem = ℕ → ℕ

-- `a - b` as a 32-bit `int`.
unfoldable pub sub32 : ℕ → ℕ → ℕ
sub32 a b = (a + 2 ^ 32 - b) % 2 ^ 32

-- The loops: the rounds left, and `i`.
pub fill : ℕ → ℕ → Mem → ℕ → ℕ → Mem
fill zero i m dest v = m
fill (suc n) i m dest v = fill n (i + 1) (update m (dest + i) v) dest v

pub memset : Mem → ℕ → ℕ → ℕ → Mem
unfolding fill
memset m dest value count = fill count 0 m dest (value % 256)

pub copy_up : ℕ → ℕ → Mem → ℕ → ℕ → Mem
copy_up zero i m dest src = m
copy_up (suc n) i m dest src = copy_up n (i + 1) (update m (dest + i) (m (src + i))) dest src

pub memcpy : Mem → ℕ → ℕ → ℕ → Mem
unfolding copy_up
memcpy m dest src count = copy_up count 0 m dest src

-- The loop that counts `i` down.
pub copy_down : ℕ → Mem → ℕ → ℕ → Mem
copy_down zero m dest src = m
copy_down (suc n) m dest src = copy_down n (update m (dest + n) (m (src + n))) dest src

pub memmove : Mem → ℕ → ℕ → ℕ → Mem
unfolding copy_up copy_down
memmove m dest src count =
    if ltb dest src
    then copy_up count 0 m dest src
    else if ltb src dest
    then copy_down count m dest src
    else m

pub differ : ℕ → ℕ → Mem → ℕ → ℕ → ℕ
differ zero i m lhs rhs = 0
differ (suc n) i m lhs rhs =
    let rest = differ n (i + 1) m lhs rhs in
    if m (lhs + i) == m (rhs + i) then rest else sub32 (m (lhs + i)) (m (rhs + i))

pub memcmp : Mem → ℕ → ℕ → ℕ → ℕ
unfolding differ
memcmp m lhs rhs count = differ count 0 m lhs rhs
