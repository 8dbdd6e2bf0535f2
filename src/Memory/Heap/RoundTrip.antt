-- ===== src/Memory/Heap/RoundTrip.antt =====
-- `free` undoes `allocate`.
use qaiosplus.Base.{
  ℕ, ◌+◌, ◌≤◌, ◌≡◌, refl, ap, ◌∙◌, ◌≢◌, true, false, List, [], ◌∷◌, ◌++◌, subst, sym, some, arith,
  ◌==◌, Bool-cases, Option-cases, inl, inr, ◌⊎◌, ==→eq, ==-false→ne,
}
use qaiosplus.Memory.Heap.{
  Block, Heap, align16, join, find_free_block, merge_blocks, release_block, free, take_block,
  allocate,
}
use qaiosplus.Memory.Heap.Tiles.{
  used_bytes, IsValid, Tiles-append, Tiles-le, used_bytes-append, used_bytes-Tiles, count_used-le,
  find_free_block-split,
}
use qaiosplus.Memory.Heap.Merge.{coalesced, merge_blocks_pair, merge_blocks_id}
use qaiosplus.Memory.Heap.Taken.{Taken, take_block-Taken}
use qaiosplus.Memory.Heap.Allocate.{allocate-none, allocate-some, allocate_zero, allocate-IsValid}
use qaiosplus.Memory.Heap.Free.{free_at, used_bytes_busy}

Heap-path :
    (h k : Heap)
    → h.base ≡ k.base
    → h.total_size ≡ k.total_size
    → h.used_size ≡ k.used_size
    → h.allocation_count ≡ k.allocation_count
    → h.blocks ≡ k.blocks
    → h ≡ k
Heap-path h k b t u a c = λ i. record {
  base = b i;
  total_size = t i;
  used_size = u i;
  allocation_count = a i;
  blocks = c i;
}

Block-idle : (b : Block) → b.used ≡ false → record b { used = false } ≡ b
Block-idle b u = λ i. record { addr = b.addr; size = b.size; used = sym u i }

rejoin_chain :
    (h : Heap) (xs ys : List Block) (b : Block) (n : ℕ) (out : Heap × ℕ)
    → h.blocks ≡ xs ++ b ∷ ys
    → b.used ≡ false
    → coalesced h.blocks ≡ true
    → (k : Taken h xs ys b n out)
    → merge_blocks (xs ++ (record k.taken { used = false } ∷ (k.rest ++ ys))) ≡ h.blocks
rejoin_chain h xs ys b n out s u e k = go k.rejoin
  where
    whole : h.blocks ≡ xs ++ record b { used = false } ∷ ys
    whole = rw (Block-idle b u) s

    go :
        (((record k.taken { used = false } ≡ record b { used = false }) × (k.rest ≡ []))
          ⊎ ((d : Block) × (k.rest ≡ d ∷ [])
              × (d.used ≡ false)
              × (join (record k.taken { used = false }) d ≡ record b { used = false })))
        → merge_blocks (xs ++ (record k.taken { used = false } ∷ (k.rest ++ ys))) ≡ h.blocks
    go (inl (p, q)) = rw (p, q, whole) (merge_blocks_id _ (rw (← whole) e))
    go (inr (d, q, i, j)) =
        rw (q, whole, ← j)
          (merge_blocks_pair xs ys (record k.taken { used = false }) d refl i (rw (j, ← whole) e))

free-Taken :
    (h : Heap) (xs ys : List Block) (b : Block) (n : ℕ) (out : Heap × ℕ)
    → IsValid h
    → IsValid out.0
    → h.blocks ≡ xs ++ b ∷ ys
    → b.used ≡ false
    → coalesced h.blocks ≡ true
    → Taken h xs ys b n out
    → free out.0 out.1 ≡ some h
unfolding release_block
free-Taken h xs ys b n out v v' s u e k =
    subst (λ p. free out.0 p ≡ some h) (sym at_taken)
      ((free_at out.0 xs (rest ++ ys) taken v' k.chain).0
        ∙ ap some (
            rw (k.busy, release_block)
              (Heap-path _ h k.arena.0 k.arena.1
                (omega (arith, k.bytes, bound, bound', v.bytes, v.fits, size))
                (omega (arith, k.counted, v.count, count_used-le h.blocks, bound, v.fits))
                (rw (free_at out.0 xs (rest ++ ys) taken v' k.chain).1
                  (rejoin_chain h xs ys b n out s u e k)))))
  where
    open k use {taken, rest}

    bound : h.base + used_bytes h.blocks ≤ h.base + h.total_size
    bound = used_bytes-Tiles h.base (h.base + h.total_size) h.blocks v.tiles

    bound' : h.base + used_bytes (xs ++ (taken ∷ (rest ++ ys))) ≤ h.base + h.total_size
    bound' = used_bytes-Tiles h.base (h.base + h.total_size) (xs ++ (taken ∷ (rest ++ ys))) k.tiles

    size : taken.size + 32 ≤ used_bytes (xs ++ (taken ∷ (rest ++ ys)))
    size = omega (
      arith,
      used_bytes-append xs (taken ∷ (rest ++ ys)),
      used_bytes_busy taken (rest ++ ys) k.busy,
    )

    at_taken : out.1 ≡ taken.addr + 32
    at_taken =
        let (m, left, right) =
          Tiles-append h.base (h.base + h.total_size) xs (taken ∷ (rest ++ ys)) k.tiles in
        let top = Tiles-le (m + 32 + taken.size) (h.base + h.total_size) (rest ++ ys) right.1 in
        omega (arith, k.pointer, top, right.0, v.fits)

-- On a valid heap without neighbouring free blocks, whose arena begins at 32 or above and ends below 2 ^
-- 64, `free` undoes `allocate`: whatever block a request was given, freeing its pointer brings back the
-- whole heap as it was.
pub free-allocate :
    (h : Heap) (n : ℕ)
    → IsValid h
    → coalesced h.blocks ≡ true
    → (allocate h n).1 ≢ 0
    → free (allocate h n).0 (allocate h n).1 ≡ some h
free-allocate h n v e ok = elim (Option-cases (find_free_block (align16 n) h.blocks)) [
  | inl f ↦ absurd (ok (rw (allocate-none h n f)))
  | inr (b, f) ↦ elim (Bool-cases (n == 0)) [
    | inl z ↦ absurd (ok (rw (==→eq n 0 z, allocate_zero h)))
    | inr nz ↦
        let (xs, ys, s, u, l) = find_free_block-split (align16 n) h.blocks b f in
        let valid = allocate-IsValid h n v in
        let same = allocate-some h n b (==-false→ne n 0 nz) f in
        rw same (
          free-Taken h xs ys b (align16 n) (take_block h b (align16 n)) v (rw same at valid) s u e
            (take_block-Taken h xs ys b (align16 n) v s l))
  ]
]
