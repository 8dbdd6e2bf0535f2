-- ===== src/Core/CString/Compare.antt =====
-- Comparing strings.
use qaiosplus.Base.{
  ℕ, zero, suc, ◌+◌, ◌<◌, ◌≡◌, ◌≢◌, ◌↔◌, refl, false, not, ◌&&◌, List, [], ◌∷◌, some, arith, ◌==◌,
  length, Bool-cases, inl, inr, ==→eq, ==-false→ne,
}
use qaiosplus.Core.Block.{Mem, sub32}
use qaiosplus.Core.CString.{strcmp}
use qaiosplus.Core.CString.Length.{Holds}

sub32_same : (a : ℕ) → a < 256 → sub32 a a ≡ 0
unfolding sub32
sub32_same a h = omega arith

sub32_other : (a b : ℕ) → a < 256 → b < 256 → a ≢ b → sub32 a b ≢ 0
unfolding sub32
sub32_other a b ha hb ne e = ne (omega arith)

-- One round of the loop.
strcmp_more :
    (fuel : ℕ) (m : Mem) (lhs rhs : ℕ)
    → m lhs ≢ 0
    → m lhs ≡ m rhs
    → strcmp (suc fuel) m lhs rhs ≡ strcmp fuel m (lhs + 1) (rhs + 1)
unfolding strcmp
strcmp_more fuel m lhs rhs h e = ground arith

strcmp_end :
    (fuel : ℕ) (m : Mem) (lhs rhs c d : ℕ)
    → m lhs ≡ c
    → m rhs ≡ d
    → (not (c == 0) && (c == d)) ≡ false
    → strcmp (suc fuel) m lhs rhs ≡ some (sub32 c d)
unfolding strcmp
strcmp_end fuel m lhs rhs c d hl hr e = rw (strcmp, hl, hr, e) refl

-- `strcmp` of two strings ends once it has more rounds than the first has bytes, and its result is 0
-- exactly when they are the same.
pub strcmp_zero :
    (s t : List ℕ) (fuel : ℕ) (m : Mem) (lhs rhs : ℕ)
    → Holds m lhs s
    → Holds m rhs t
    → length s < fuel
    → (d : ℕ) × (strcmp fuel m lhs rhs ≡ some d) × ((d ≡ 0) ↔ (s ≡ t))
strcmp_zero s t zero m lhs rhs hs ht f = absurd (omega arith)
strcmp_zero [] [] (suc fuel) m lhs rhs hs ht f = (
  sub32 0 0,
  strcmp_end fuel m lhs rhs 0 0 hs ht refl,
  ((λ e. refl), λ e. sub32_same 0 (omega arith)),
)
strcmp_zero [] (c ∷ t) (suc fuel) m lhs rhs hs ht f = (
  sub32 0 c,
  strcmp_end fuel m lhs rhs 0 c hs ht.0 refl,
  ((λ e. absurd (sub32_other 0 c (omega arith) ht.2 (omega (arith, ht.1)) e)), λ e. cc),
)
strcmp_zero (c ∷ s) [] (suc fuel) m lhs rhs hs ht f = (
  sub32 c 0,
  strcmp_end fuel m lhs rhs c 0 hs.0 ht (ground (arith, hs.1)),
  ((λ e. absurd (sub32_other c 0 hs.2 (omega arith) (omega (arith, hs.1)) e)), λ e. cc),
)
strcmp_zero (c ∷ s) (d ∷ t) (suc fuel) m lhs rhs hs ht f = elim (Bool-cases (c == d)) [
  | inl e ↦
      let same = ==→eq c d e in
      let (r, ran, iff) = strcmp_zero s t fuel m (lhs + 1) (rhs + 1) hs.3 ht.3 (omega arith) in
      (
        r,
        rw
            (strcmp_more fuel m lhs rhs (omega (arith, hs.0, hs.1))
              (omega (arith, hs.0, ht.0, same)))
            ran,
        ((λ z. cc (iff.0 z, same)), λ eq. iff.1 (cc)),
      )
  | inr e ↦
      let other = ==-false→ne c d e in
      (
        sub32 c d,
        strcmp_end fuel m lhs rhs c d hs.0 ht.0 (ground (arith, e)),
        ((λ z. absurd (sub32_other c d hs.2 ht.2 other z)), λ eq. absurd (other (cc))),
      )
]
