-- ===== src/Memory/Heap/Tiles.antt =====
-- The shape of a heap: its blocks tile the arena, and the counters agree with them.
use qaiosplus.Base.{
  ℕ, ◌+◌, ◌-◌, ◌*◌, ◌≤◌, ◌<◌, ◌^◌, ◌≡◌, refl, ap, false, not, ◌&&◌, List, [], ◌∷◌, ◌++◌, none, some,
  arith, leb, ◌==◌, if◌then◌else◌, Bool-cases, inl, inr, eq→==,
}
use qaiosplus.Memory.Heap.{
  Block, Heap, header_size, find_free_block, find_block, at_block, initialize, is_initialized,
  free_size,
}

-- The blocks lie one behind the other from `a` to `e`, each behind its header.
abbrev pub Tiles : ℕ → ℕ → List Block → Type 0
Tiles a e [] = a ≡ e
Tiles a e (b ∷ bs) = (b.addr ≡ a) × Tiles (a + header_size + b.size) e bs

-- What the blocks in use take, headers included, and their number.
unfoldable pub used_bytes : List Block → ℕ
used_bytes [] = 0
used_bytes (b ∷ bs) = (if b.used then b.size + header_size else 0) + used_bytes bs

unfoldable pub count_used : List Block → ℕ
count_used [] = 0
count_used (b ∷ bs) = (if b.used then 1 else 0) + count_used bs

-- The blocks in use, in order of address.
unfoldable pub live : List Block → List Block
live [] = []
live (b ∷ bs) = if b.used then b ∷ live bs else live bs

pub record IsValid (h : Heap) : Type 0 where
  pub tiles : Tiles h.base (h.base + h.total_size) h.blocks
  pub placed : header_size ≤ h.base
  pub fits : h.base + h.total_size < 2 ^ 64
  pub bytes : h.used_size ≡ header_size + used_bytes h.blocks
  pub count : h.allocation_count ≡ count_used h.blocks

pub Tiles-le : (a e : ℕ) (bs : List Block) → Tiles a e bs → a ≤ e
Tiles-le a e [] t = omega arith
Tiles-le a e (b ∷ bs) t = omega (arith, Tiles-le (a + 32 + b.size) e bs t.1)

pub Tiles-append :
    (a e : ℕ) (xs ys : List Block) → Tiles a e (xs ++ ys) → (m : ℕ) × Tiles a m xs × Tiles m e ys
Tiles-append a e [] ys t = (a, refl, t)
Tiles-append a e (x ∷ xs) ys t =
    let (m, l, r) = Tiles-append (a + 32 + x.size) e xs ys t.1 in (m, (t.0, l), r)

pub append-Tiles :
    (a m e : ℕ) (xs ys : List Block) → Tiles a m xs → Tiles m e ys → Tiles a e (xs ++ ys)
append-Tiles a m e [] ys l r = rw l r
append-Tiles a m e (x ∷ xs) ys l r = (l.0, append-Tiles (a + 32 + x.size) m e xs ys l.1 r)

pub used_bytes-append : (xs ys : List Block) → used_bytes (xs ++ ys) ≡ used_bytes xs + used_bytes ys
unfolding used_bytes
used_bytes-append [] ys = omega arith
used_bytes-append (x ∷ xs) ys = omega (arith, used_bytes-append xs ys)

pub count_used-append : (xs ys : List Block) → count_used (xs ++ ys) ≡ count_used xs + count_used ys
unfolding count_used
count_used-append [] ys = omega arith
count_used-append (x ∷ xs) ys = omega (arith, count_used-append xs ys)

pub live-append : (xs ys : List Block) → live (xs ++ ys) ≡ live xs ++ live ys
unfolding live
live-append [] ys = refl
live-append (x ∷ xs) ys = ground (arith, live-append xs ys)

-- What is in use fits in the arena.
pub used_bytes-Tiles : (a e : ℕ) (bs : List Block) → Tiles a e bs → a + used_bytes bs ≤ e
unfolding used_bytes
used_bytes-Tiles a e [] t = omega arith
used_bytes-Tiles a e (b ∷ bs) t = ground (arith, used_bytes-Tiles (a + 32 + b.size) e bs t.1)

pub count_used-le : (bs : List Block) → count_used bs * 32 ≤ used_bytes bs
unfolding used_bytes count_used
count_used-le [] = omega arith
count_used-le (b ∷ bs) = ground (arith, count_used-le bs)

-- A block that a search finds splits the chain.
pub find_free_block-split :
    (size : ℕ) (bs : List Block) (b : Block)
    → find_free_block size bs ≡ some b
    → (xs ys : List Block) × (bs ≡ xs ++ b ∷ ys) × (b.used ≡ false) × (size ≤ b.size)
unfolding find_free_block
find_free_block-split size [] b e = cc
find_free_block-split size (c ∷ bs) b e = elim (Bool-cases (not c.used && leb size c.size)) [
  | inl fit ↦ ([], bs, ground arith, ground arith, ground arith)
  | inr skip ↦
      let (xs, ys, s, u, l) = find_free_block-split size bs b (ground arith) in
      (c ∷ xs, ys, ap (λ r. c ∷ r) s, u, l)
]

pub find_block-split :
    (a : ℕ) (bs : List Block) (b : Block)
    → find_block a bs ≡ some b
    → (xs ys : List Block) × (bs ≡ xs ++ b ∷ ys) × (b.addr ≡ a)
unfolding find_block
find_block-split a [] b e = cc
find_block-split a (c ∷ bs) b e = elim (Bool-cases (c.addr == a)) [
  | inl fit ↦ ([], bs, ground arith, ground arith)
  | inr skip ↦
      let (xs, ys, s, l) = find_block-split a bs b (ground arith) in
      (c ∷ xs, ys, ap (λ r. c ∷ r) s, l)
]

-- A write through the pointer to a block of a tiled chain changes that block.
pub at_block-split :
    (a e : ℕ) (f : Block → List Block) (xs ys : List Block) (b : Block)
    → Tiles a e (xs ++ b ∷ ys)
    → at_block b.addr f (xs ++ b ∷ ys) ≡ xs ++ (f b ++ ys)
unfolding at_block
at_block-split a e f [] ys b t = rw (eq→== b.addr b.addr refl)
at_block-split a e f (x ∷ xs) ys b t =
    ground (arith, below, at_block-split (a + 32 + x.size) e f xs ys b t.1)
  where
    below : x.addr < b.addr
    below =
        let (m, l, r) = Tiles-append (a + 32 + x.size) e xs (b ∷ ys) t.1 in
        omega (arith, Tiles-le (a + 32 + x.size) m xs l)

pub find_block-split_self :
    (a e : ℕ) (xs ys : List Block) (b : Block)
    → Tiles a e (xs ++ b ∷ ys)
    → find_block b.addr (xs ++ b ∷ ys) ≡ some b
unfolding find_block
find_block-split_self a e [] ys b t = rw (eq→== b.addr b.addr refl)
find_block-split_self a e (x ∷ xs) ys b t =
    ground (arith, below, find_block-split_self (a + 32 + x.size) e xs ys b t.1)
  where
    below : x.addr < b.addr
    below =
        let (m, l, r) = Tiles-append (a + 32 + x.size) e xs (b ∷ ys) t.1 in
        omega (arith, Tiles-le (a + 32 + x.size) m xs l)

-- `initialize` turns an arena that begins at 32 or above, is larger than a header and ends below 2 ^ 64 into a
-- valid heap of one free block; a heap that is initialized already it leaves alone.
pub initialize-IsValid :
    (h : Heap) (base size : ℕ)
    → is_initialized h ≡ false
    → header_size ≤ base
    → header_size < size
    → base + size < 2 ^ 64
    → IsValid (initialize h base size) × (live (initialize h base size).blocks ≡ [])
unfolding initialize used_bytes count_used live
initialize-IsValid h base size i b s f =
    rw (i, initialize)
      (rw (ne0, small)
        (
          record { tiles = (refl, omega arith); placed = b; fits = f; bytes = refl; count = refl },
          refl,
        ))
  where
    ne0 : (base == 0) ≡ false
    ne0 = ground arith

    small : leb size 32 ≡ false
    small = ground arith

full_bytes :
    (a e : ℕ) (bs : List Block) → Tiles a e bs → find_free_block 0 bs ≡ none → a + used_bytes bs ≡ e
unfolding used_bytes find_free_block
full_bytes a e [] t f = omega arith
full_bytes a e (b ∷ bs) t f = ground (arith, full_bytes (a + 32 + b.size) e bs t.1)

-- Once no block is free, `usedSize` says one header more than the arena holds, and `freeSize` wraps.
pub free_size_full :
    (h : Heap)
    → IsValid h
    → find_free_block 0 h.blocks ≡ none
    → (h.used_size ≡ h.total_size + header_size) × (free_size h ≡ 2 ^ 64 - header_size)
unfolding free_size
free_size_full h v f =
    let b = full_bytes h.base (h.base + h.total_size) h.blocks v.tiles f in
    (omega (arith, v.bytes), omega (arith, v.bytes, v.fits))
