-- ===== src/Base/Search.antt =====
-- The loop `for (i = lo; i < hi; ++i) if (P(i)) ...` that stops at the first hit.
use Prim.Native.Nat.{ℕ, zero, suc, ◌+◌, ◌≤◌, ◌<◌}
use mathlib.Core.Path.{◌≡◌, subst, ap, ◌∙◌}
use mathlib.Core.Logic.{inl, inr}
use mathlib.Core.Bool.{Bool, true, false}
use mathlib.Core.Option.{Option, none, some}
use native.Mathlib.Omega.{arith}
use qaiosplus.Base.Tests.{◌==◌, if◌then◌else◌, Bool-cases, Option-cases, ==→eq}

-- The rounds left, and the index of the round.
unfoldable pub first_from : ℕ → ℕ → (ℕ → Bool) → Option ℕ
first_from zero i P = none
first_from (suc n) i P = let rest = first_from n (i + 1) P in if P i then some i else rest

-- The least index from `lo` to `hi` (excluded) with `P`, if there is one.
abbrev pub First : (ℕ → Bool) → ℕ → ℕ → Option ℕ → Type 0
First P lo hi none = (i : ℕ) → lo ≤ i → i < hi → P i ≡ false
First P lo hi (some k) =
    (lo ≤ k) × (k < hi) × (P k ≡ true) × ((i : ℕ) → lo ≤ i → i < k → P i ≡ false)

First-skip :
    (P : ℕ → Bool) (lo hi : ℕ) (r : Option ℕ)
    → P lo ≡ false
    → First P (lo + 1) hi r
    → First P lo hi r
First-skip P lo hi none e f = λ i a b. elim (Bool-cases (lo == i)) [
  | inl same ↦ subst (λ k. P k ≡ false) (==→eq lo i same) e
  | inr other ↦ f i (ground arith) b
]
First-skip P lo hi (some k) e f = (
  omega arith,
  f.1,
  f.2,
  λ i a b. elim (Bool-cases (lo == i)) [
    | inl same ↦ subst (λ k. P k ≡ false) (==→eq lo i same) e
    | inr other ↦ f.3 i (ground arith) b
  ],
)

pub first_from-First : (n i : ℕ) (P : ℕ → Bool) → First P i (i + n) (first_from n i P)
unfolding first_from
first_from-First zero i P = λ k a b. absurd (omega arith)
first_from-First (suc n) i P = elim (Bool-cases (P i)) [
  | inl e ↦ rw e (omega arith, omega arith, e, λ k a b. absurd (omega arith))
  | inr e ↦
      let same : i + 1 + n ≡ i + suc n = omega arith in
      rw e (
        First-skip P i (i + suc n) (first_from n (i + 1) P) e
          (rw same at (first_from-First n (i + 1) P)))
]

-- What a search over the first `n` indices found.
pub first_from-zero : (n : ℕ) (P : ℕ → Bool) (r : Option ℕ) → first_from n 0 P ≡ r → First P 0 n r
first_from-zero n P r e =
    let same : 0 + n ≡ n = omega arith in
    subst (First P 0 n) e (rw same at (first_from-First n 0 P))

-- A search with one hit, and one with none.
pub first_from_unique :
    (n i : ℕ) (P : ℕ → Bool)
    → i < n
    → P i ≡ true
    → ((j : ℕ) → j < n → P j ≡ true → j ≡ i)
    → first_from n 0 P ≡ some i
first_from_unique n i P l h one = elim (Option-cases (first_from n 0 P)) [
  | inl e ↦ ground (arith, h, first_from-zero n P none e i (omega arith) l)
  | inr k ↦
      let found = first_from-zero n P (some k.0) k.1 in k.1 ∙ ap some (one k.0 found.1 found.2)
]

pub first_from-none :
    (n : ℕ) (P : ℕ → Bool) → ((j : ℕ) → j < n → P j ≡ false) → first_from n 0 P ≡ none
first_from-none n P no_hit = elim (Option-cases (first_from n 0 P)) [
  | inl e ↦ e
  | inr k ↦
      let found = first_from-zero n P (some k.0) k.1 in ground (arith, found.2, no_hit k.0 found.1)
]
