-- ===== src/Core/CString/Length.antt =====
-- Memory that holds a string, and its length.
use qaiosplus.Base.{
  ℕ, zero, suc, ◌+◌, ◌<◌, ◌≡◌, refl, List, [], ◌∷◌, some, arith, length, ne→==-false,
}
use qaiosplus.Core.Block.{Mem}
use qaiosplus.Core.CString.{scan, strlen, end_of}

-- At `p` the memory holds the bytes of the list, none of them 0, and then a 0.
abbrev pub Holds : Mem → ℕ → List ℕ → Type 0
Holds m p [] = m p ≡ 0
Holds m p (c ∷ s) = (m p ≡ c) × (0 < c) × (c < 256) × Holds m (p + 1) s

pub scan-Holds :
    (s : List ℕ) (fuel len : ℕ) (m : Mem) (str : ℕ)
    → Holds m (str + len) s
    → length s < fuel
    → scan fuel len m str ≡ some (len + length s)
unfolding scan
scan-Holds s zero len m str h f = absurd (omega arith)
scan-Holds [] (suc fuel) len m str h f =
    let none_left : len + 0 ≡ len = omega arith in rw (scan, h, none_left) refl
scan-Holds (c ∷ s) (suc fuel) len m str h f =
    let next : str + len + 1 ≡ str + (len + 1) = omega arith in
    let sum : len + 1 + length s ≡ len + suc (length s) = omega arith in
    let more = ne→==-false c 0 (omega (arith, h.1)) in
    rw (scan, h.0, more, scan-Holds s fuel (len + 1) m str (rw next at h.3) (omega arith), sum) refl

-- `strlen` of a string ends once it has more rounds than the string has bytes, and gives their number.
pub strlen-Holds :
    (s : List ℕ) (fuel : ℕ) (m : Mem) (str : ℕ)
    → 0 < str
    → Holds m str s
    → length s < fuel
    → strlen fuel m str ≡ some (length s)
unfolding strlen
strlen-Holds s fuel m str p h f =
    let start : str + 0 ≡ str = omega arith in
    let sum : 0 + length s ≡ length s = omega arith in
    rw (strlen, scan-Holds s fuel 0 m str (rw start h) f, ne→==-false str 0 (omega arith), sum) refl

pub end_of-Holds :
    (s : List ℕ) (fuel : ℕ) (m : Mem) (d : ℕ)
    → Holds m d s
    → length s < fuel
    → end_of fuel m d ≡ some (d + length s)
unfolding end_of
end_of-Holds s zero m d h f = absurd (omega arith)
end_of-Holds [] (suc fuel) m d h f =
    let none_left : d + 0 ≡ d = omega arith in rw (end_of, h, none_left) refl
end_of-Holds (c ∷ s) (suc fuel) m d h f =
    let sum : d + 1 + length s ≡ d + suc (length s) = omega arith in
    let more = ne→==-false c 0 (omega (arith, h.1)) in
    rw (end_of, h.0, more, end_of-Holds s fuel m (d + 1) h.3 (omega arith), sum) refl
