-- ===== src/Core/CString/Search.antt =====
-- Searching in strings.
use qaiosplus.Base.{
  ℕ, zero, suc, ◌+◌, ◌<◌, ◌≡◌, refl, ap, Bool, true, false, ◌&&◌, List, [], ◌∷◌, Option, none, some,
  arith, ◌==◌, if◌then◌else◌, length, Bool-cases, inl, inr, ne→==-false,
}
use qaiosplus.Core.Block.{Mem}
use qaiosplus.Core.CString.{match_at, find_text, strstr}
use qaiosplus.Core.CString.Length.{Holds}

-- Whether the text begins with the other.
pub starts_with : List ℕ → List ℕ → Bool
starts_with text [] = true
starts_with [] (d ∷ t) = false
starts_with (c ∷ s) (d ∷ t) = (c == d) && starts_with s t

-- The least place of the one in the other.
pub place_of : List ℕ → List ℕ → Option ℕ
unfolding starts_with
place_of [] needle = none
place_of (c ∷ s) needle =
    if starts_with (c ∷ s) needle
    then some 0
    else elim (place_of s needle) [ none ↦ none | some k ↦ some (k + 1) ]

-- An empty text is found at the start of any.
abbrev pub place : List ℕ → List ℕ → Option ℕ
place s [] = some 0
place s (d ∷ t) = place_of s (d ∷ t)

-- The pointer to a place behind `p`.
abbrev pub pointer : ℕ → Option ℕ → ℕ
pointer p none = 0
pointer p (some k) = p + k

match_at-Holds :
    (s t : List ℕ) (fuel : ℕ) (m : Mem) (h n : ℕ)
    → Holds m h s
    → Holds m n t
    → length s < fuel
    → match_at fuel m h n ≡ some (starts_with s t)
unfolding match_at starts_with
match_at-Holds s t zero m h n hs ht f = absurd (omega arith)
match_at-Holds [] [] (suc fuel) m h n hs ht f = rw (match_at, hs, ht) refl
match_at-Holds [] (d ∷ t) (suc fuel) m h n hs ht f =
    rw (match_at, hs, ht.0, ne→==-false d 0 (omega (arith, ht.1))) refl
match_at-Holds (c ∷ s) [] (suc fuel) m h n hs ht f =
    rw (match_at, hs.0, ht, ne→==-false c 0 (omega (arith, hs.1))) refl
match_at-Holds (c ∷ s) (d ∷ t) (suc fuel) m h n hs ht f =
    let ih = match_at-Holds s t fuel m (h + 1) (n + 1) hs.3 ht.3 (omega arith) in
    elim (Bool-cases (c == d)) [
      | inl e ↦
          rw
            (
              match_at,
              hs.0,
              ht.0,
              ne→==-false c 0 (omega (arith, hs.1)),
              ne→==-false d 0 (omega (arith, ht.1)),
              e,
            )
            ih
      | inr e ↦
          rw
            (
              match_at,
              hs.0,
              ht.0,
              ne→==-false c 0 (omega (arith, hs.1)),
              ne→==-false d 0 (omega (arith, ht.1)),
              e,
            )
            refl
    ]

step :
    (p : ℕ) (o : Option ℕ)
    → pointer (p + 1) o ≡ pointer p (elim o [ none ↦ none | some k ↦ some (k + 1) ])
step p none = refl
step p (some k) = omega arith

find_text-Holds :
    (s t : List ℕ) (fuel inner : ℕ) (m : Mem) (p n : ℕ)
    → Holds m p s
    → Holds m n t
    → length s < fuel
    → length s < inner
    → find_text fuel inner m p n ≡ some (pointer p (place_of s t))
unfolding find_text place_of
find_text-Holds s t zero inner m p n hs ht f g = absurd (omega arith)
find_text-Holds [] t (suc fuel) inner m p n hs ht f g = rw (find_text, hs) refl
find_text-Holds (c ∷ s) t (suc fuel) inner m p n hs ht f g =
    let ih = find_text-Holds s t fuel inner m (p + 1) n hs.3 ht (omega arith) (omega arith) in
    let here = match_at-Holds (c ∷ s) t inner m p n hs ht g in
    let more : (m p == 0) ≡ false = ne→==-false (m p) 0 (omega (arith, hs.0, hs.1)) in
    elim (Bool-cases (starts_with (c ∷ s) t)) [
      | inl e ↦ let start : p + 0 ≡ p = omega arith in rw (find_text, more, here, e, start) refl
      | inr e ↦ rw (find_text, more, here, e, ih) (ap some (step p (place_of s t)))
    ]

-- `strstr` ends once it has more rounds than the haystack has bytes, and gives the least place where
-- the needle begins, or null where there is none; an empty needle is found at the start.
pub strstr-place :
    (s t : List ℕ) (fuel : ℕ) (m : Mem) (haystack needle : ℕ)
    → Holds m haystack s
    → Holds m needle t
    → length s < fuel
    → strstr fuel m haystack needle ≡ some (pointer haystack (place s t))
unfolding strstr
strstr-place s [] fuel m haystack needle hs ht f =
    let start : haystack + 0 ≡ haystack = omega arith in rw (strstr, ht, start) refl
strstr-place s (d ∷ t) fuel m haystack needle hs ht f =
    let more : (m needle == 0) ≡ false = ne→==-false (m needle) 0 (omega (arith, ht.0, ht.1)) in
    rw (strstr, more) (find_text-Holds s (d ∷ t) fuel fuel m haystack needle hs ht f f)
