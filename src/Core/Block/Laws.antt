-- ===== src/Core/Block/Laws.antt =====
-- What the memory operations leave at each address.
use qaiosplus.Base.{
  ℕ, zero, suc, ◌+◌, ◌-◌, ◌%◌, ◌≤◌, ◌<◌, ◌≡◌, ◌⊎◌, ◌↔◌, refl, Bool, ◌&&◌, arith, ltb, leb, ◌==◌,
  if◌then◌else◌, update, Bool-cases, inl, inr, ==→eq, ==-false→ne,
}
use qaiosplus.Core.Block.{
  Mem, fill, memset, copy_up, copy_down, memcpy, memmove, differ, memcmp, sub32,
}

-- The address lies in the `n` bytes from `p` on.
abbrev pub within : ℕ → ℕ → ℕ → Bool
within p n a = leb p a && ltb a (p + n)

fill_lem :
    (n i : ℕ) (m : Mem) (dest v a : ℕ)
    → fill n i m dest v a ≡ (if within (dest + i) n a then v else m a)
unfolding fill
fill_lem zero i m dest v a = ground arith
fill_lem (suc n) i m dest v a = ground (arith, fill_lem n (i + 1) (update m (dest + i) v) dest v a)

pub memset_lem :
    (m : Mem) (dest value count a : ℕ)
    → memset m dest value count a ≡ (if within dest count a then value % 256 else m a)
unfolding memset
memset_lem m dest value count a = ground (arith, fill_lem count 0 m dest (value % 256) a)

-- Copying upwards reads each byte before it is written, where the target is not above the source
-- within its range.
copy_up_lem :
    (n i : ℕ) (m : Mem) (dest src a : ℕ)
    → (dest ≤ src) ⊎ (src + i + n ≤ dest + i)
    → copy_up n i m dest src a ≡ (if within (dest + i) n a then m (src + (a - dest)) else m a)
unfolding copy_up
copy_up_lem zero i m dest src a h = ground arith
copy_up_lem (suc n) i m dest src a h = elim h [
  | inl below ↦
      rw (copy_up_lem n (i + 1) (update m (dest + i) (m (src + i))) dest src a (inl below))
        (elim (Bool-cases (a == dest + i)) [
          | inl e ↦ let same = ==→eq a (dest + i) e in rw same (ground arith)
          | inr e ↦ ground arith
        ])
  | inr apart ↦
      rw (copy_up_lem n (i + 1) (update m (dest + i) (m (src + i))) dest src a (inr (omega arith)))
        (elim (Bool-cases (a == dest + i)) [
          | inl e ↦ let same = ==→eq a (dest + i) e in rw same (ground arith)
          | inr e ↦ ground arith
        ])
]

-- Copying downwards does where the target is not below the source.
copy_down_lem :
    (n : ℕ) (m : Mem) (dest src a : ℕ)
    → src ≤ dest
    → copy_down n m dest src a ≡ (if within dest n a then m (src + (a - dest)) else m a)
unfolding copy_down
copy_down_lem zero m dest src a h = ground arith
copy_down_lem (suc n) m dest src a h =
    rw (copy_down_lem n (update m (dest + n) (m (src + n))) dest src a h)
      (elim (Bool-cases (a == dest + n)) [
        | inl e ↦ let same = ==→eq a (dest + n) e in rw same (ground arith)
        | inr e ↦ ground arith
      ])

-- `memmove` leaves in the target the bytes that the source held before the call, however the two
-- ranges overlap, and changes nothing else.
pub memmove_snapshot :
    (m : Mem) (dest src count a : ℕ)
    → memmove m dest src count a ≡ (if within dest count a then m (src + (a - dest)) else m a)
unfolding memmove
memmove_snapshot m dest src count a = elim (Bool-cases (ltb dest src)) [
  | inl below ↦
      let h : dest ≤ src = ground (arith, below) in
      rw below (ground (arith, copy_up_lem count 0 m dest src a (inl h)))
  | inr above ↦ elim (Bool-cases (ltb src dest)) [
    | inl over ↦
        let h : src ≤ dest = ground (arith, over) in
        rw (above, over) (copy_down_lem count m dest src a h)
    | inr same ↦
        let e : src ≡ dest = ground (arith, above, same) in
        rw (above, same, e)
          (elim (Bool-cases (within dest count a)) [
            | inl t ↦ let back : dest + (a - dest) ≡ a = ground (arith, t) in rw (t, back) refl
            | inr t ↦ rw t refl
          ])
  ]
]

-- `memcpy` does the same where the target does not start inside the source.
pub memcpy-memmove :
    (m : Mem) (dest src count a : ℕ)
    → (dest ≤ src) ⊎ (src + count ≤ dest)
    → memcpy m dest src count a ≡ memmove m dest src count a
unfolding memcpy
memcpy-memmove m dest src count a (inl h) =
    rw (memmove_snapshot m dest src count a)
      (ground (arith, copy_up_lem count 0 m dest src a (inl h)))
memcpy-memmove m dest src count a (inr h) =
    let far : src + 0 + count ≤ dest + 0 = omega arith in
    rw (memmove_snapshot m dest src count a)
      (ground (arith, copy_up_lem count 0 m dest src a (inr far)))

abbrev pub IsBytes : Mem → Type 0
IsBytes m = (a : ℕ) → m a < 256

sub32_zero : (a b : ℕ) → a < 256 → b < 256 → sub32 a b ≡ 0 → a ≡ b
unfolding sub32
sub32_zero a b ha hb e = omega arith

differ_same :
    (n i : ℕ) (m : Mem) (lhs rhs : ℕ)
    → ((k : ℕ) → i ≤ k → k < i + n → m (lhs + k) ≡ m (rhs + k))
    → differ n i m lhs rhs ≡ 0
unfolding differ
differ_same zero i m lhs rhs h = refl
differ_same (suc n) i m lhs rhs h =
    rw (h i (omega arith) (omega arith))
      (ground (arith, differ_same n (i + 1) m lhs rhs (λ k l u. h k (omega arith) (omega arith))))

differ_zero :
    (n i : ℕ) (m : Mem) (lhs rhs k : ℕ)
    → IsBytes m
    → differ n i m lhs rhs ≡ 0
    → i ≤ k
    → k < i + n
    → m (lhs + k) ≡ m (rhs + k)
unfolding differ
differ_zero zero i m lhs rhs k b e l u = absurd (omega arith)
differ_zero (suc n) i m lhs rhs k b e l u = elim (Bool-cases (m (lhs + i) == m (rhs + i))) [
  | inl same ↦ elim (Bool-cases (i == k)) [
    | inl here ↦ let at = ==→eq i k here in rw⁻¹ at (==→eq _ _ same)
    | inr later ↦
        let ne = ==-false→ne i k later in
        differ_zero n (i + 1) m lhs rhs k b (rw same at e) (omega arith) (omega arith)
  ]
  | inr other ↦
      absurd (==-false→ne _ _ other (sub32_zero _ _ (b (lhs + i)) (b (rhs + i)) (rw other at e)))
]

-- `memcmp` gives 0 exactly when the two blocks hold the same bytes.
pub memcmp_zero :
    (m : Mem) (lhs rhs count : ℕ)
    → IsBytes m
    → (memcmp m lhs rhs count ≡ 0) ↔ ((k : ℕ) → k < count → m (lhs + k) ≡ m (rhs + k))
unfolding memcmp
memcmp_zero m lhs rhs count b = (
  λ e k l. differ_zero count 0 m lhs rhs k b e (omega arith) (omega arith),
  λ h. differ_same count 0 m lhs rhs (λ k l u. h k (omega arith)),
)
