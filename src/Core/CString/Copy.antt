-- ===== src/Core/CString/Copy.antt =====
-- Copying and joining strings.
use qaiosplus.Base.{
  ℕ, zero, suc, ◌+◌, ◌-◌, ◌≤◌, ◌<◌, ◌≡◌, ◌⊎◌, refl, ◌∙◌, true, false, List, [], ◌∷◌, ◌++◌, some,
  arith, ◌==◌, if◌then◌else◌, update, length, Bool-cases, inl, inr, ne→==-false, ==→eq,
}
use qaiosplus.Core.Block.{Mem}
use qaiosplus.Core.Block.Laws.{within}
use qaiosplus.Core.CString.{copy_text, strcpy, strcat}
use qaiosplus.Core.CString.Length.{Holds, end_of-Holds}

-- A string is where the same bytes are.
pub Holds-copy :
    (s : List ℕ) (m m' : Mem) (p q : ℕ)
    → Holds m p s
    → ((k : ℕ) → k ≤ length s → m' (q + k) ≡ m (p + k))
    → Holds m' q s
Holds-copy [] m m' p q h e =
    let a : p + 0 ≡ p = omega arith in
    let b : q + 0 ≡ q = omega arith in let here = rw (a, b) at (e 0 (omega arith)) in here ∙ h
Holds-copy (c ∷ s) m m' p q h e =
    let a : p + 0 ≡ p = omega arith in
    let b : q + 0 ≡ q = omega arith in
    let here = rw (a, b) at (e 0 (omega arith)) in
    (
      here ∙ h.0,
      h.1,
      h.2,
      Holds-copy s m m' (p + 1) (q + 1) h.3 (λ k l.
          let x : q + 1 + k ≡ q + (k + 1) = omega arith in
          let y : p + 1 + k ≡ p + (k + 1) = omega arith in rw (x, y) (e (k + 1) (omega arith))),
    )

pub Holds-join :
    (s t : List ℕ) (m m' : Mem) (p : ℕ)
    → Holds m p s
    → ((k : ℕ) → k < length s → m' (p + k) ≡ m (p + k))
    → Holds m' (p + length s) t
    → Holds m' p (s ++ t)
Holds-join [] t m m' p h e r = let a : p + 0 ≡ p = omega arith in rw a at r
Holds-join (c ∷ s) t m m' p h e r =
    let a : p + 0 ≡ p = omega arith in
    let here = rw a at (e 0 (omega arith)) in
    let next : p + suc (length s) ≡ p + 1 + length s = omega arith in
    (
      here ∙ h.0,
      h.1,
      h.2,
      Holds-join s t m m' (p + 1) h.3
          (λ k l. let x : p + 1 + k ≡ p + (k + 1) = omega arith in rw x (e (k + 1) (omega arith)))
          (rw next at r),
    )

-- The copy of a string into a range that does not meet it, terminator included.
pub copy_text-Holds :
    (s : List ℕ) (fuel : ℕ) (m : Mem) (d src : ℕ)
    → Holds m src s
    → length s < fuel
    → (d + length s < src) ⊎ (src + length s < d)
    → (m' : Mem) × (copy_text fuel m d src ≡ some m')
      × ((a : ℕ) → m' a ≡ (if within d (length s + 1) a then m (src + (a - d)) else m a))
unfolding copy_text
copy_text-Holds s zero m d src h f x = absurd (omega arith)
copy_text-Holds [] (suc fuel) m d src h f x = (
  update m d (m src),
  rw (copy_text, h) refl,
  λ a. elim (Bool-cases (a == d)) [
    | inl e ↦
        let at_d = ==→eq a d e in
        let back : src + (d - d) ≡ src = omega arith in rw (at_d, back) (ground arith)
    | inr e ↦ ground (arith, e)
  ],
)
copy_text-Holds (c ∷ s) (suc fuel) m d src h f x =
    let m1 = update m d (m src) in
    let apart : (d + 1 + length s < src + 1) ⊎ (src + 1 + length s < d + 1) = elim x [
      | inl l ↦ inl (omega arith)
      | inr r ↦ inr (omega arith)
    ] in
    let kept : Holds m1 (src + 1) s =
      Holds-copy s m m1 (src + 1) (src + 1) h.3
        (λ k l. elim x [ inl l ↦ ground arith | inr r ↦ ground arith ]) in
    let (m', ran, all) = copy_text-Holds s fuel m1 (d + 1) (src + 1) kept (omega arith) apart in
    let more = ne→==-false (m src) 0 (omega (arith, h.0, h.1)) in
    (
      m',
      rw (copy_text, more) ran,
      λ a. rw (all a) (elim (Bool-cases (a == d)) [
        | inl e ↦
            let at_d = ==→eq a d e in
            let back : src + (d - d) ≡ src = omega arith in rw (at_d, back) (ground arith)
        | inr e ↦ elim (Bool-cases (within (d + 1) (length s + 1) a)) [
          | inl t ↦
              let u : within d (suc (length s) + 1) a ≡ true = ground (arith, t) in
              let v : src + 1 + (a - (d + 1)) ≡ src + (a - d) = ground (arith, t) in
              let w : (src + (a - d) == d) ≡ false = elim x [
                | inl l ↦ ground (arith, t)
                | inr r ↦ ground (arith, t)
              ] in
              rw (t, u, v, w) refl
          | inr t ↦ ground (arith, t, e)
        ]
      ]),
    )

-- `strcpy` of a string to where it does not meet it ends, and leaves the string there.
pub strcpy-Holds :
    (s : List ℕ) (fuel : ℕ) (m : Mem) (dest src : ℕ)
    → Holds m src s
    → length s < fuel
    → (dest + length s < src) ⊎ (src + length s < dest)
    → (m' : Mem) × (strcpy fuel m dest src ≡ some m') × Holds m' dest s
unfolding strcpy
strcpy-Holds s fuel m dest src h f x =
    let (m', ran, all) = copy_text-Holds s fuel m dest src h f x in
    (
      m',
      ran,
      Holds-copy s m m' src dest h (λ k l.
          let there : src + (dest + k - dest) ≡ src + k = omega arith in
          let inside : within dest (length s + 1) (dest + k) ≡ true = ground (arith, l) in
          rw (all (dest + k), inside, there) refl),
    )

-- `strcat` of two strings ends once it has more rounds than either has bytes, and where the source
-- lies apart from the joined string it leaves both there, one behind the other, and changes nothing
-- outside the bytes behind the first.
pub strcat-Holds :
    (s t : List ℕ) (fuel : ℕ) (m : Mem) (dest src : ℕ)
    → Holds m dest s
    → Holds m src t
    → length s < fuel
    → length t < fuel
    → (dest + length s + length t < src) ⊎ (src + length t < dest)
    → (m' : Mem) × (strcat fuel m dest src ≡ some m')
      × Holds m' dest (s ++ t)
      × ((a : ℕ) → within (dest + length s) (length t + 1) a ≡ false → m' a ≡ m a)
unfolding strcat
strcat-Holds s t fuel m dest src hs ht fs ft x =
    let end = dest + length s in
    let apart : (end + length t < src) ⊎ (src + length t < end) = elim x [
      | inl l ↦ inl l
      | inr r ↦ inr (omega arith)
    ] in
    let (m', ran, all) = copy_text-Holds t fuel m end src ht ft apart in
    let behind = Holds-copy t m m' src end ht (λ k l.
      let there : src + (end + k - end) ≡ src + k = omega arith in
      let inside : within end (length t + 1) (end + k) ≡ true = ground (arith, l) in
      rw (all (end + k), inside, there) refl) in
    let before = λ (k : ℕ) (l : k < length s).
      let outside : within end (length t + 1) (dest + k) ≡ false = ground (arith, l) in
      let same : m' (dest + k) ≡ m (dest + k) = rw (all (dest + k), outside) refl in same in
    (
      m',
      rw (strcat, end_of-Holds s fuel m dest hs fs) ran,
      Holds-join s t m m' dest hs before behind,
      λ a o. rw (all a, o) refl,
    )
