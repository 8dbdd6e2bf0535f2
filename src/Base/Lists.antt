-- ===== src/Base/Lists.antt =====
-- Lists measured and indexed by native numbers, tables as functions, and counted searches.
use Prim.Native.Nat.{ℕ, zero, suc, ◌+◌, ◌<◌, ◌≤◌}
use mathlib.Core.Path.{◌≡◌, refl, ap, ap₂}
use mathlib.Core.Logic.{◌≢◌}
use mathlib.Core.Bool.{Bool}
use mathlib.Core.List.{List, [], ◌∷◌, ◌++◌}
use mathlib.Core.Option.{Option, none, some}
use native.Mathlib.Omega.{arith}
use qaiosplus.Base.Tests.{◌==◌, if◌then◌else◌}

module _ {ℓ} {A : Type ℓ} where
  abbrev pub length : List A → ℕ
  length [] = 0
  length (x ∷ xs) = suc (length xs)

  abbrev pub get_elem? : List A → ℕ → Option A
  get_elem? [] i = none
  get_elem? (x ∷ xs) zero = some x
  get_elem? (x ∷ xs) (suc i) = get_elem? xs i

  abbrev pub get_or : List A → ℕ → A → A
  get_or [] i d = d
  get_or (x ∷ xs) zero d = x
  get_or (x ∷ xs) (suc i) d = get_or xs i d

  -- A write out of bounds changes nothing.
  abbrev pub set : List A → ℕ → A → List A
  set [] i v = []
  set (x ∷ xs) zero v = v ∷ xs
  set (x ∷ xs) (suc i) v = x ∷ set xs i v

  abbrev pub replicate : ℕ → A → List A
  replicate zero a = []
  replicate (suc n) a = a ∷ replicate n a

  abbrev pub filter_by : (A → Bool) → List A → List A
  filter_by p [] = []
  filter_by p (x ∷ xs) = if p x then x ∷ filter_by p xs else filter_by p xs

module _ {ℓ} {A : Type ℓ} where
  pub length-append : (xs ys : List A) → length (xs ++ ys) ≡ length xs + length ys
  length-append [] ys = omega arith
  length-append (x ∷ xs) ys = omega (arith, length-append xs ys)

  pub length-set : (xs : List A) (i : ℕ) (v : A) → length (set xs i v) ≡ length xs
  length-set [] i v = refl
  length-set (x ∷ xs) zero v = refl
  length-set (x ∷ xs) (suc i) v = ap suc (length-set xs i v)

  pub length-filter_by : (p : A → Bool) (xs : List A) → length (filter_by p xs) ≤ length xs
  length-filter_by p [] = omega arith
  length-filter_by p (x ∷ xs) = ground (arith, length-filter_by p xs)

  pub get_or-set_self :
      (xs : List A) (i : ℕ) (v d : A) → i < length xs → get_or (set xs i v) i d ≡ v
  get_or-set_self [] i v d h = absurd (omega arith)
  get_or-set_self (x ∷ xs) zero v d h = refl
  get_or-set_self (x ∷ xs) (suc i) v d h = get_or-set_self xs i v d (omega arith)

  pub get_or-set_ne :
      (xs : List A) {i j : ℕ} (v d : A) → i ≢ j → get_or (set xs i v) j d ≡ get_or xs j d
  get_or-set_ne [] v d h = refl
  get_or-set_ne (x ∷ xs) {i = zero} {j = zero} v d h = absurd (h refl)
  get_or-set_ne (x ∷ xs) {i = zero} {j = suc j} v d h = refl
  get_or-set_ne (x ∷ xs) {i = suc i} {j = zero} v d h = refl
  get_or-set_ne (x ∷ xs) {i = suc i} {j = suc j} v d h = get_or-set_ne xs v d (λ e. h (ap suc e))

-- A C array or a memory as a function of the index, and one write to it.
abbrev pub update {ℓ} : {A : Type ℓ} → (ℕ → A) → ℕ → A → ℕ → A
update f i v j = if j == i then v else f j

-- The first `n` entries of a table.
abbrev pub tabulate {ℓ} : {A : Type ℓ} → (ℕ → A) → ℕ → List A
tabulate g zero = []
tabulate g (suc n) = g 0 ∷ tabulate (λ i. g (suc i)) n

pub tabulate_ext {ℓ} :
    {A : Type ℓ} (g h : ℕ → A) (n : ℕ) → ((i : ℕ) → i < n → g i ≡ h i) → tabulate g n ≡ tabulate h n
tabulate_ext g h zero e = refl
tabulate_ext g h (suc n) e =
    ap₂ ◌∷◌ (e 0 (omega arith))
      (tabulate_ext (λ i. g (suc i)) (λ i. h (suc i)) n (λ i p. e (suc i) (omega arith)))

pub length-tabulate {ℓ} : {A : Type ℓ} (g : ℕ → A) (n : ℕ) → length (tabulate g n) ≡ n
length-tabulate g zero = refl
length-tabulate g (suc n) = ap suc (length-tabulate (λ i. g (suc i)) n)

-- One more entry goes to the end.
pub tabulate_snoc {ℓ} :
    {A : Type ℓ} (g : ℕ → A) (n : ℕ) → tabulate g (suc n) ≡ tabulate g n ++ (g n ∷ [])
tabulate_snoc g zero = refl
tabulate_snoc g (suc n) = ap (λ r. g 0 ∷ r) (tabulate_snoc (λ i. g (suc i)) n)
