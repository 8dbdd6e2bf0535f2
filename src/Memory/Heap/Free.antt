-- ===== src/Memory/Heap/Free.antt =====
-- `free`: the block that it gives back.
use qaiosplus.Base.{
  ℕ, ◌+◌, ◌≤◌, ◌≡◌, ap, ◌∙◌, true, false, List, ◌∷◌, ◌++◌, subst, sym, none, some, arith, ◌==◌,
  Bool-cases, Option-cases, inl, inr, sub64,
}
use qaiosplus.Memory.Heap.{
  Block, Heap, header_size, find_block, at_block, set_used, release_block, free,
}
use qaiosplus.Memory.Heap.Tiles.{
  Tiles, used_bytes, count_used, live, IsValid, Tiles-append, append-Tiles, Tiles-le,
  used_bytes-append, count_used-append, live-append, used_bytes-Tiles, count_used-le,
  find_block-split, find_block-split_self, at_block-split,
}
use qaiosplus.Memory.Heap.Merge.{
  coalesced, merge_blocks-coalesced, merge_blocks_keeps, merge_blocks-Tiles,
}

-- `free` at the pointer of a block.
pub free_at :
    (h : Heap) (xs ys : List Block) (b : Block)
    → IsValid h
    → h.blocks ≡ xs ++ b ∷ ys
    → (free h (b.addr + header_size) ≡ some (release_block h b))
      × (at_block b.addr (set_used false) h.blocks ≡ xs ++ (record b { used = false } ∷ ys))
unfolding free
free_at h xs ys b v s = (
  ground (arith, subst (λ k. find_block k h.blocks ≡ some b) (sym back) (rw s found)),
  rw s (at_block-split h.base (h.base + h.total_size) (set_used false) xs ys b t),
)
  where
    t : Tiles h.base (h.base + h.total_size) (xs ++ b ∷ ys)
    t = subst (Tiles h.base (h.base + h.total_size)) s v.tiles

    back : sub64 (b.addr + 32) 32 ≡ b.addr
    back =
        let (m, left, right) = Tiles-append h.base (h.base + h.total_size) xs (b ∷ ys) t in
        omega
          (arith, Tiles-le (m + 32 + b.size) (h.base + h.total_size) ys right.1, right.0, v.fits)

    found : find_block b.addr (xs ++ b ∷ ys) ≡ some b
    found = find_block-split_self h.base (h.base + h.total_size) xs ys b t

pub used_bytes_busy :
    (b : Block) (ys : List Block)
    → b.used ≡ true
    → used_bytes (b ∷ ys) ≡ b.size + header_size + used_bytes ys
unfolding used_bytes
used_bytes_busy b ys busy = ground (arith, busy)

release_block-IsValid :
    (h : Heap) (xs ys : List Block) (b : Block)
    → IsValid h
    → h.blocks ≡ xs ++ b ∷ ys
    → IsValid (release_block h b)
unfolding release_block used_bytes count_used
release_block-IsValid h xs ys b v s = elim (Bool-cases b.used) [
  | inr idle ↦ rw (idle, release_block) v
  | inl busy ↦
      rw (busy, release_block)
        (record {
          tiles = rw chain (
              merge_blocks-Tiles h.base (h.base + h.total_size)
                (xs ++ (record b { used = false } ∷ ys)) v.fits freed);
          placed = v.placed;
          fits = v.fits;
          bytes =
              rw (chain, (merge_blocks_keeps (xs ++ (record b { used = false } ∷ ys))).1)
                (omega (
                  arith,
                  v.bytes,
                  v.fits,
                  ap used_bytes s,
                  used_bytes-append xs (b ∷ ys),
                  used_bytes-append xs (record b { used = false } ∷ ys),
                  used_bytes_busy b ys busy,
                  bound,
                ));
          count =
              rw (chain, (merge_blocks_keeps (xs ++ (record b { used = false } ∷ ys))).2)
                (omega (
                  arith,
                  v.count,
                  v.fits,
                  ap count_used s,
                  count_used-append xs (b ∷ ys),
                  count_used-append xs (record b { used = false } ∷ ys),
                  counted busy,
                  bound,
                  count_used-le h.blocks,
                ));
        })
]
  where
    chain : at_block b.addr (set_used false) h.blocks ≡ xs ++ (record b { used = false } ∷ ys)
    chain = (free_at h xs ys b v s).1

    t : Tiles h.base (h.base + h.total_size) (xs ++ b ∷ ys)
    t = subst (Tiles h.base (h.base + h.total_size)) s v.tiles

    freed : Tiles h.base (h.base + h.total_size) (xs ++ (record b { used = false } ∷ ys))
    freed =
        let (m, left, right) = Tiles-append h.base (h.base + h.total_size) xs (b ∷ ys) t in
        append-Tiles h.base m (h.base + h.total_size) xs (record b { used = false } ∷ ys) left right

    counted : b.used ≡ true → count_used (b ∷ ys) ≡ 1 + count_used ys
    counted busy = ground (arith, busy)

    bound : h.base + used_bytes h.blocks ≤ h.base + h.total_size
    bound = used_bytes-Tiles h.base (h.base + h.total_size) h.blocks v.tiles

-- `free` keeps the heap valid, for every pointer that it can follow, the null pointer and one that was
-- freed before included.
pub free-IsValid : (h : Heap) (ptr : ℕ) (h' : Heap) → IsValid h → free h ptr ≡ some h' → IsValid h'
unfolding free
free-IsValid h ptr h' v e = elim (Bool-cases (ptr == 0)) [
  | inl z ↦ let same : h ≡ h' = ground arith in subst IsValid same v
  | inr nz ↦ elim (Option-cases (find_block (sub64 ptr 32) h.blocks)) [
    | inl f ↦ absurd (let bad : none ≡ some h' = ground (arith, f) in cc)
    | inr (b, f) ↦
        let (xs, ys, s, a) = find_block-split (sub64 ptr 32) h.blocks b f in
        let same : release_block h b ≡ h' = ground (arith, f) in
        subst IsValid same (release_block-IsValid h xs ys b v s)
  ]
]

-- On a valid heap, whose arena begins at 32 or above and ends below 2 ^ 64, `free` of the pointer of a
-- block in use removes that block from the blocks in use, leaves the others
-- as they are, gives its bytes back to the counter, and leaves no two free blocks side by side.
pub free_removes :
    (h : Heap) (xs ys : List Block) (b : Block)
    → IsValid h
    → h.blocks ≡ xs ++ b ∷ ys
    → b.used ≡ true
    → (h' : Heap) × (free h (b.addr + header_size) ≡ some h')
      × (live h.blocks ≡ live xs ++ b ∷ live ys)
      × (live h'.blocks ≡ live xs ++ live ys)
      × (h'.used_size + b.size + header_size ≡ h.used_size)
      × (coalesced h'.blocks ≡ true)
unfolding live release_block
free_removes h xs ys b v s busy = (
  release_block h b,
  (free_at h xs ys b v s).0,
  rw s (live-append xs (b ∷ ys) ∙ ground (arith, busy)),
  rw
      (
        busy,
        release_block,
        (free_at h xs ys b v s).1,
        (merge_blocks_keeps (xs ++ (record b { used = false } ∷ ys))).0,
      )
      (live-append xs (record b { used = false } ∷ ys)),
  rw (busy, release_block) (omega (arith, v.bytes, v.fits, taken, bound)),
  rw (busy, release_block) (merge_blocks-coalesced (at_block b.addr (set_used false) h.blocks)),
)
  where
    bound : h.base + used_bytes h.blocks ≤ h.base + h.total_size
    bound = used_bytes-Tiles h.base (h.base + h.total_size) h.blocks v.tiles

    taken : b.size + 32 ≤ used_bytes h.blocks
    taken = rw s (omega (arith, used_bytes-append xs (b ∷ ys), used_bytes_busy b ys busy))

-- `free` of the pointer of a block that is free already changes nothing.
pub free_twice :
    (h : Heap) (xs ys : List Block) (b : Block)
    → IsValid h
    → h.blocks ≡ xs ++ b ∷ ys
    → b.used ≡ false
    → free h (b.addr + header_size) ≡ some h
unfolding release_block
free_twice h xs ys b v s idle = (free_at h xs ys b v s).0 ∙ rw (idle, release_block)
