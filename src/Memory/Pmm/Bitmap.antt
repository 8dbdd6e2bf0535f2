-- ===== src/Memory/Pmm/Bitmap.antt =====
-- What one write to the bitmap does to every page, and how it changes the number of clear pages.
use qaiosplus.Base.{
  ℕ, zero, suc, ◌+◌, ◌/◌, ◌%◌, ◌≤◌, ◌<◌, ◌≡◌, refl, ap, true, false, arith, ◌==◌, if◌then◌else◌,
  ==→eq, Bool-cases, inl, inr, byte_bit-set_bit, byte_bit-clear_bit, set_bit-lt, clear_bit-lt,
}
use qaiosplus.Memory.Pmm.{used, set_page, clear_page}

abbrev pub IsBytes : (ℕ → ℕ) → Type 0
IsBytes m = (i : ℕ) → m i < 256

pub set_page-IsBytes : (m : ℕ → ℕ) (p : ℕ) → IsBytes m → IsBytes (set_page m p)
unfolding set_page
set_page-IsBytes m p v i =
    ground (arith, v i, set_bit-lt (m (p / 8)) (p % 8) (v (p / 8)) (omega arith))

pub clear_page-IsBytes : (m : ℕ → ℕ) (p : ℕ) → IsBytes m → IsBytes (clear_page m p)
unfolding clear_page
clear_page-IsBytes m p v i =
    ground (arith, v i, clear_bit-lt (m (p / 8)) (p % 8) (v (p / 8)) (omega arith))

-- Setting a page changes that page alone.
pub used-set_page :
    (m : ℕ → ℕ) (p q : ℕ) → IsBytes m → used (set_page m p) q ≡ (if q == p then true else used m q)
unfolding used set_page
used-set_page m p q v = elim (Bool-cases (q / 8 == p / 8)) [
  | inl e ↦
      ground (
        arith,
        byte_bit-set_bit (m (p / 8)) (p % 8) (q % 8) (v (p / 8)) (omega arith) (omega arith),
      )
  | inr e ↦ ground arith
]

-- Clearing a page changes that page alone.
pub used-clear_page :
    (m : ℕ → ℕ) (p q : ℕ)
    → IsBytes m
    → used (clear_page m p) q ≡ (if q == p then false else used m q)
unfolding used clear_page
used-clear_page m p q v = elim (Bool-cases (q / 8 == p / 8)) [
  | inl e ↦ ground (
    arith,
    byte_bit-clear_bit (m (p / 8)) (p % 8) (q % 8) (v (p / 8)) (omega arith) (omega arith),
  )
  | inr e ↦ ground arith
]

-- The number of clear pages below `n`.
unfoldable pub count_clear : (ℕ → ℕ) → ℕ → ℕ
count_clear m zero = 0
count_clear m (suc n) = count_clear m n + (if used m n then 0 else 1)

count_clear_set_above :
    (m : ℕ → ℕ) (p n : ℕ) → IsBytes m → n ≤ p → count_clear (set_page m p) n ≡ count_clear m n
unfolding count_clear
count_clear_set_above m p zero v h = refl
count_clear_set_above m p (suc n) v h =
    ground (arith, count_clear_set_above m p n v, used-set_page m p n v)

pub count_clear-set_page :
    (m : ℕ → ℕ) (p n : ℕ)
    → IsBytes m
    → p < n
    → used m p ≡ false
    → count_clear (set_page m p) n + 1 ≡ count_clear m n
unfolding count_clear
count_clear-set_page m p zero v h e = absurd (omega arith)
count_clear-set_page m p (suc n) v h e = elim (Bool-cases (n == p)) [
  | inl eq ↦
      ground
        (arith, count_clear_set_above m p n v, used-set_page m p n v, ap (used m) (==→eq n p eq))
  | inr ne ↦ ground (arith, count_clear-set_page m p n v, used-set_page m p n v)
]

count_clear_clear_above :
    (m : ℕ → ℕ) (p n : ℕ) → IsBytes m → n ≤ p → count_clear (clear_page m p) n ≡ count_clear m n
unfolding count_clear
count_clear_clear_above m p zero v h = refl
count_clear_clear_above m p (suc n) v h =
    ground (arith, count_clear_clear_above m p n v, used-clear_page m p n v)

pub count_clear-clear_page :
    (m : ℕ → ℕ) (p n : ℕ)
    → IsBytes m
    → p < n
    → used m p ≡ true
    → count_clear (clear_page m p) n ≡ count_clear m n + 1
unfolding count_clear
count_clear-clear_page m p zero v h e = absurd (omega arith)
count_clear-clear_page m p (suc n) v h e = elim (Bool-cases (n == p)) [
  | inl eq ↦
      ground (
        arith,
        count_clear_clear_above m p n v,
        used-clear_page m p n v,
        ap (used m) (==→eq n p eq),
      )
  | inr ne ↦ ground (arith, count_clear-clear_page m p n v, used-clear_page m p n v)
]

pub count_clear-le : (m : ℕ → ℕ) (n : ℕ) → count_clear m n ≤ n
unfolding count_clear
count_clear-le m zero = omega arith
count_clear-le m (suc n) = ground (arith, count_clear-le m n)

pub count_clear_zero :
    (m : ℕ → ℕ) (n : ℕ) → ((q : ℕ) → q < n → used m q ≡ true) → count_clear m n ≡ 0
unfolding count_clear
count_clear_zero m zero h = refl
count_clear_zero m (suc n) h =
    ground (arith, h n (omega arith), count_clear_zero m n (λ q l. h q (omega arith)))

pub count_clear_ext :
    (m w : ℕ → ℕ) (n : ℕ) → ((q : ℕ) → used m q ≡ used w q) → count_clear m n ≡ count_clear w n
unfolding count_clear
count_clear_ext m w zero h = refl
count_clear_ext m w (suc n) h = ground (arith, h n, count_clear_ext m w n h)
