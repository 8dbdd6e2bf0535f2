-- ===== src/Memory/Heap/Allocate.antt =====
-- `allocate`: the block that it takes, and the heap that it leaves.
use qaiosplus.Base.{
  ℕ, ◌+◌, ◌-◌, ◌≤◌, ◌<◌, ◌^◌, ◌≡◌, refl, ◌∙◌, ◌≢◌, ◌*◌, ◌/◌, true, false, not, ◌&&◌, leb, leb→le,
  subst, List, [], ◌∷◌, ◌++◌, none, some, arith, ◌==◌, Bool-cases, Option-cases, inl, inr, ◌⊎◌,
  ==→eq, ne→==-false, ==-false→ne,
}
use qaiosplus.Memory.Heap.{Block, Heap, header_size, align16, find_free_block, take_block, allocate}
use qaiosplus.Memory.Heap.Tiles.{
  live, IsValid, Tiles-append, Tiles-le, live-append, find_free_block-split,
}
use qaiosplus.Memory.Heap.Taken.{Taken, take_block-Taken, Taken-IsValid}

-- `allocate` by the outcome of its search.
pub allocate-none :
    (h : Heap) (n : ℕ) → find_free_block (align16 n) h.blocks ≡ none → allocate h n ≡ (h, 0)
unfolding allocate
allocate-none h n e = ground (arith, e)

pub allocate-some :
    (h : Heap) (n : ℕ) (b : Block)
    → n ≢ 0
    → find_free_block (align16 n) h.blocks ≡ some b
    → allocate h n ≡ take_block h b (align16 n)
unfolding allocate
allocate-some h n b nz e = rw (ne→==-false n 0 nz, e, allocate)

pub allocate_zero : (h : Heap) → allocate h 0 ≡ (h, 0)
unfolding allocate
allocate_zero h = refl

-- `allocate` keeps the heap valid, for every size: the blocks tile the arena, and both counters agree
-- with them.
pub allocate-IsValid : (h : Heap) (n : ℕ) → IsValid h → IsValid (allocate h n).0
allocate-IsValid h n v = elim (Bool-cases (n == 0)) [
  | inl z ↦ rw (==→eq n 0 z, allocate_zero h) v
  | inr nz ↦ elim (Option-cases (find_free_block (align16 n) h.blocks)) [
    | inl e ↦ rw (allocate-none h n e) v
    | inr (b, e) ↦
        let (xs, ys, s, u, l) = find_free_block-split (align16 n) h.blocks b e in
        rw (allocate-some h n b (==-false→ne n 0 nz) e) (
          Taken-IsValid h xs ys b (align16 n) (take_block h b (align16 n)) v s u
            (take_block-Taken h xs ys b (align16 n) v s l))
  ]
]

-- One more block in use, at its place among the others, which stay as they are; `ptr` points behind
-- its header.
abbrev pub Adds : Heap → Heap → ℕ → ℕ → Type 0
Adds h h' n ptr =
    (b : Block) × (xs ys : List Block) × (live h.blocks ≡ xs ++ ys)
    × (live h'.blocks ≡ xs ++ b ∷ ys)
    × (ptr ≡ b.addr + header_size)
    × (n ≤ b.size)
    × (h.base ≤ b.addr)
    × (b.addr + header_size + b.size ≤ h.base + h.total_size)

Taken-Adds :
    (h : Heap) (xs ys : List Block) (b : Block) (n : ℕ) (out : Heap × ℕ)
    → IsValid h
    → h.blocks ≡ xs ++ b ∷ ys
    → b.used ≡ false
    → n ≤ align16 n
    → Taken h xs ys b (align16 n) out
    → Adds h out.0 n out.1
unfolding live
Taken-Adds h xs ys b n out v s u l k = (
  taken,
  live xs,
  live ys,
  rw s (live-append xs (b ∷ ys) ∙ ground (arith, u)),
  rw k.chain (
      live-append xs (taken ∷ (rest ++ ys)) ∙ ground (arith, k.busy, live-append rest ys, k.spare)),
  omega (arith, k.pointer, inside, v.fits),
  omega (arith, k.room),
  above,
  inside,
)
  where
    open k use {taken, rest}

    above : h.base ≤ taken.addr
    above =
        let (m, left, right) =
          Tiles-append h.base (h.base + h.total_size) xs (taken ∷ (rest ++ ys)) k.tiles in
        omega (arith, Tiles-le h.base m xs left, right.0)

    inside : taken.addr + 32 + taken.size ≤ h.base + h.total_size
    inside =
        let (m, left, right) =
          Tiles-append h.base (h.base + h.total_size) xs (taken ∷ (rest ++ ys)) k.tiles in
        omega (
          arith,
          Tiles-le (m + 32 + taken.size) (h.base + h.total_size) (rest ++ ys) right.1,
          right.0,
        )

-- Every free block is smaller than `size`.
unfoldable pub NoRoom : ℕ → List Block → Type 0
NoRoom size bs =
    (xs ys : List Block) (b : Block) → bs ≡ xs ++ b ∷ ys → b.used ≡ false → b.size < size

find_free_block-some :
    (size : ℕ) (xs ys : List Block) (b : Block)
    → b.used ≡ false
    → size ≤ b.size
    → find_free_block size (xs ++ b ∷ ys) ≢ none
unfolding find_free_block
find_free_block-some size [] ys b u l e =
    let fit : (not b.used && leb size b.size) ≡ true = ground (arith, u, l) in
    absurd (cc (rw fit at e))
find_free_block-some size (x ∷ xs) ys b u l e = elim (Bool-cases (not x.used && leb size x.size)) [
  | inl fit ↦ absurd (cc (rw fit at e))
  | inr skip ↦ find_free_block-some size xs ys b u l (rw skip at e)
]

find_free_block-none :
    (size : ℕ) (bs : List Block) → find_free_block size bs ≡ none → NoRoom size bs
unfolding NoRoom
find_free_block-none size bs e xs ys b s u = elim (Bool-cases (leb size b.size)) [
  | inl fit ↦ absurd (find_free_block-some size xs ys b u (leb→le size b.size fit) (rw s at e))
  | inr small ↦ ground (arith, small)
]

-- The arena of the heap begins at 32 or above and ends below 2 ^ 64. A request of `n` bytes, not 0 and
-- not within 15 of 2 ^ 64, either fails and changes nothing, and every free block is smaller than `n`
-- bytes rounded up to 16, or gives a new block of at least `n` bytes inside the arena and leaves every
-- other block in use as it was.
pub allocate-Adds :
    (h : Heap) (n : ℕ)
    → IsValid h
    → 0 < n
    → n < 2 ^ 64 - 15
    → (NoRoom ((n + 15) / 16 * 16) h.blocks × (allocate h n ≡ (h, 0)))
      ⊎ Adds h (allocate h n).0 n (allocate h n).1
allocate-Adds h n v pos small = elim (Option-cases (find_free_block (align16 n) h.blocks)) [
  | inl e ↦
      let rounded : align16 n ≡ (n + 15) / 16 * 16 = omega arith in
      inl (
        subst (λ k. NoRoom k h.blocks) rounded (find_free_block-none (align16 n) h.blocks e),
        allocate-none h n e,
      )
  | inr (b, e) ↦
      let (xs, ys, s, u, l) = find_free_block-split (align16 n) h.blocks b e in
      inr (
        rw (allocate-some h n b (omega arith) e) (
          Taken-Adds h xs ys b n (take_block h b (align16 n)) v s u (omega arith)
            (take_block-Taken h xs ys b (align16 n) v s l)))
]

-- A request within 15 of 2 ^ 64 is rounded up to 0 bytes: it takes the first free block, whatever its
-- size, where it ought to fail.
pub allocate_wraps :
    (h : Heap) (n : ℕ) (b : Block)
    → IsValid h
    → 2 ^ 64 - 15 ≤ n
    → n < 2 ^ 64
    → find_free_block 0 h.blocks ≡ some b
    → ((allocate h n).1 ≡ b.addr + header_size) × ((allocate h n).1 ≢ 0)
allocate_wraps h n b v lo hi e =
    let zero_size : align16 n ≡ 0 = omega arith in
    let (xs, ys, s, u, l) = find_free_block-split 0 h.blocks b e in
    let k = take_block-Taken h xs ys b 0 v s l in
    let (m, left, right) =
      Tiles-append h.base (h.base + h.total_size) xs (k.taken ∷ (k.rest ++ ys)) k.tiles in
    let top = Tiles-le (m + 32 + k.taken.size) (h.base + h.total_size) (k.rest ++ ys) right.1 in
    rw (allocate-some h n b (omega arith) (rw zero_size e), zero_size)
      (
        omega (arith, k.pointer, k.place, top, right.0, v.fits),
        omega (arith, k.pointer, k.place, top, right.0, v.fits),
      )
