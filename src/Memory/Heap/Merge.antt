-- ===== src/Memory/Heap/Merge.antt =====
-- `mergeBlocks`: what it keeps, and that it leaves no neighbouring free blocks.
use qaiosplus.Base.{
  ℕ, ◌+◌, ◌≤◌, ◌<◌, ◌^◌, ◌≡◌, refl, Bool, true, false, not, ◌&&◌, ◌||◌, List, [], ◌∷◌, ◌++◌, subst,
  arith, Bool-cases, inl, inr, u64,
}
use qaiosplus.Memory.Heap.{Block, join, merge_from, merge_blocks}
use qaiosplus.Memory.Heap.Tiles.{Tiles, used_bytes, count_used, live, Tiles-le}

-- No two free blocks are neighbours; `before` says whether the block before is in use.
unfoldable pub coalesced_from : Bool → List Block → Bool
coalesced_from before [] = true
coalesced_from before (b ∷ bs) = (before || b.used) && coalesced_from b.used bs

abbrev pub coalesced : List Block → Bool
coalesced bs = coalesced_from true bs

merge_from-Tiles :
    (a e : ℕ) (b : Block) (bs : List Block)
    → e < 2 ^ 64
    → Tiles a e (b ∷ bs)
    → Tiles a e (merge_from b bs)
unfolding merge_from
merge_from-Tiles a e b [] h t = t
merge_from-Tiles a e b (c ∷ bs) h t = elim (Bool-cases (not b.used && not c.used)) [
  | inl both ↦
      rw both (merge_from-Tiles a e (join b c) bs h (t.0, subst (λ k. Tiles k e bs) sizes t.1.1))
  | inr one ↦ rw one (t.0, merge_from-Tiles (a + 32 + b.size) e c bs h t.1)
]
  where
    top : a + 32 + b.size + 32 + c.size ≤ e
    top = Tiles-le (a + 32 + b.size + 32 + c.size) e bs t.1.1

    sizes : a + 32 + b.size + 32 + c.size ≡ a + 32 + u64 (b.size + u64 (c.size + 32))
    sizes = omega (arith, top)

-- Merging leaves the blocks in use alone, and what they take.
merge_from_keeps :
    (b : Block) (bs : List Block)
    → (live (merge_from b bs) ≡ live (b ∷ bs))
      × (used_bytes (merge_from b bs) ≡ used_bytes (b ∷ bs))
      × (count_used (merge_from b bs) ≡ count_used (b ∷ bs))
unfolding merge_from live used_bytes count_used
merge_from_keeps b [] = (refl, refl, refl)
merge_from_keeps b (c ∷ bs) = (
  ground (arith, (merge_from_keeps (join b c) bs).0, (merge_from_keeps c bs).0),
  ground (arith, (merge_from_keeps (join b c) bs).1, (merge_from_keeps c bs).1),
  ground (arith, (merge_from_keeps (join b c) bs).2, (merge_from_keeps c bs).2),
)

merge_from-coalesced :
    (b : Block) (bs : List Block) (before : Bool)
    → (before || b.used) ≡ true
    → coalesced_from before (merge_from b bs) ≡ true
unfolding merge_from coalesced_from
merge_from-coalesced b [] before h = ground arith
merge_from-coalesced b (c ∷ bs) before h = elim (Bool-cases (not b.used && not c.used)) [
  | inl both ↦ rw both (merge_from-coalesced (join b c) bs before h)
  | inr one ↦ rw (one, h) (merge_from-coalesced c bs b.used (ground arith))
]

pub merge_blocks-coalesced : (bs : List Block) → coalesced (merge_blocks bs) ≡ true
unfolding merge_blocks coalesced_from
merge_blocks-coalesced [] = refl
merge_blocks-coalesced (b ∷ bs) = merge_from-coalesced b bs true refl

pub merge_blocks_keeps :
    (bs : List Block)
    → (live (merge_blocks bs) ≡ live bs)
      × (used_bytes (merge_blocks bs) ≡ used_bytes bs)
      × (count_used (merge_blocks bs) ≡ count_used bs)
unfolding merge_blocks
merge_blocks_keeps [] = (refl, refl, refl)
merge_blocks_keeps (b ∷ bs) = merge_from_keeps b bs

pub merge_blocks-Tiles :
    (a e : ℕ) (bs : List Block) → e < 2 ^ 64 → Tiles a e bs → Tiles a e (merge_blocks bs)
unfolding merge_blocks
merge_blocks-Tiles a e [] h t = t
merge_blocks-Tiles a e (b ∷ bs) h t = merge_from-Tiles a e b bs h t

merge_from_id :
    (b : Block) (bs : List Block) → coalesced_from b.used bs ≡ true → merge_from b bs ≡ b ∷ bs
unfolding merge_from coalesced_from
merge_from_id b [] e = refl
merge_from_id b (c ∷ bs) e = ground (arith, merge_from_id c bs)

-- Merging puts a block that was split together again.
merge_from_pair :
    (x : Block) (xs ys : List Block) (c d : Block)
    → c.used ≡ false
    → d.used ≡ false
    → coalesced_from x.used (xs ++ (join c d ∷ ys)) ≡ true
    → merge_from x (xs ++ (c ∷ d ∷ ys)) ≡ x ∷ (xs ++ (join c d ∷ ys))
unfolding merge_from coalesced_from
merge_from_pair x [] ys c d p q e = ground (arith, merge_from_id (join c d) ys)
merge_from_pair x (y ∷ xs) ys c d p q e = ground (arith, merge_from_pair y xs ys c d p q)

pub merge_blocks_pair :
    (xs ys : List Block) (c d : Block)
    → c.used ≡ false
    → d.used ≡ false
    → coalesced (xs ++ (join c d ∷ ys)) ≡ true
    → merge_blocks (xs ++ (c ∷ d ∷ ys)) ≡ xs ++ (join c d ∷ ys)
unfolding merge_blocks merge_from coalesced_from
merge_blocks_pair [] ys c d p q e = ground (arith, merge_from_id (join c d) ys)
merge_blocks_pair (x ∷ xs) ys c d p q e = merge_from_pair x xs ys c d p q (ground arith)

pub merge_blocks_id : (bs : List Block) → coalesced bs ≡ true → merge_blocks bs ≡ bs
unfolding merge_blocks coalesced_from
merge_blocks_id [] e = refl
merge_blocks_id (b ∷ bs) e = merge_from_id b bs (ground arith)
