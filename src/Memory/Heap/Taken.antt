-- ===== src/Memory/Heap/Taken.antt =====
-- What `allocate` does to the chain once a block is found: splitting and marking.
use qaiosplus.Base.{
  ℕ, ◌+◌, ◌*◌, ◌≤◌, ◌<◌, ◌^◌, ◌≡◌, refl, ap, ◌∙◌, Bool, true, false, List, [], ◌∷◌, ◌++◌, subst,
  arith, ltb, Bool-cases, inl, inr, ◌⊎◌, sub64, u64, ltb→lt,
}
use qaiosplus.Memory.Heap.{
  Block, Heap, header_size, join, at_block, split_in_two, split_block, set_used, take_block,
}
use qaiosplus.Memory.Heap.Tiles.{
  Tiles, used_bytes, count_used, live, IsValid, Tiles-append, append-Tiles, Tiles-le,
  used_bytes-append, count_used-append, used_bytes-Tiles, count_used-le, at_block-split,
}

-- The chain after a block `b` between `xs` and `ys` is taken: a block in use in its place, perhaps
-- with a free rest behind it.
pub record Taken (h : Heap) (xs ys : List Block) (b : Block) (size : ℕ) (out : Heap × ℕ)
    : Type 0 where
  pub taken : Block
  pub rest : List Block
  pub chain : out.0.blocks ≡ xs ++ (taken ∷ (rest ++ ys))
  pub place : taken.addr ≡ b.addr
  pub room : size ≤ taken.size
  pub busy : taken.used ≡ true
  pub spare : live rest ≡ []
  pub spare_bytes : used_bytes rest ≡ 0
  pub spare_count : count_used rest ≡ 0
  pub tiles : Tiles h.base (h.base + h.total_size) (xs ++ (taken ∷ (rest ++ ys)))
  pub bytes : out.0.used_size ≡ u64 (h.used_size + u64 (taken.size + header_size))
  pub counted : out.0.allocation_count ≡ u64 (h.allocation_count + 1)
  pub pointer : out.1 ≡ u64 (taken.addr + header_size)
  pub arena : (out.0.base ≡ h.base) × (out.0.total_size ≡ h.total_size)
  pub rejoin :
      ((record taken { used = false } ≡ record b { used = false }) × (rest ≡ []))
      ⊎ ((d : Block) × (rest ≡ d ∷ [])
          × (d.used ≡ false)
          × (join (record taken { used = false }) d ≡ record b { used = false }))

-- Splitting a block keeps the tiling.
split-Tiles :
    (a e size : ℕ) (xs ys : List Block) (b : Block)
    → e < 2 ^ 64
    → size + 48 < b.size
    → Tiles a e (xs ++ b ∷ ys)
    → Tiles a e (xs ++ (split_in_two size b ++ ys))
split-Tiles a e size xs ys b h l t =
    let (m, left, right) = Tiles-append a e xs (b ∷ ys) t in
    let top = Tiles-le (m + 32 + b.size) e ys right.1 in
    let same : m + 32 + b.size ≡ m + 32 + size + 32 + sub64 (sub64 b.size size) 32 = omega arith in
    append-Tiles a m e xs (split_in_two size b ++ ys) left
      (right.0, (omega (arith, right.0), subst (λ k. Tiles k e ys) same right.1))

mark-Tiles :
    (a e : ℕ) (xs ys : List Block) (b : Block) (u : Bool)
    → Tiles a e (xs ++ b ∷ ys)
    → Tiles a e (xs ++ (record b { used = u } ∷ ys))
mark-Tiles a e xs ys b u t =
    let (m, left, right) = Tiles-append a e xs (b ∷ ys) t in
    append-Tiles a m e xs (record b { used = u } ∷ ys) left right

pub take_block-Taken :
    (h : Heap) (xs ys : List Block) (b : Block) (size : ℕ)
    → IsValid h
    → h.blocks ≡ xs ++ b ∷ ys
    → size ≤ b.size
    → Taken h xs ys b size (take_block h b size)
unfolding take_block split_block live used_bytes count_used
take_block-Taken h xs ys b size v s l = elim (Bool-cases (ltb (u64 (size + 32 + 16)) b.size)) [
  | inr whole ↦ record {
    taken = record b { used = true };
    rest = [];
    chain =
        rw (whole, s, take_block)
          (at_block-split h.base (h.base + h.total_size) (set_used true) xs ys b t);
    place = refl;
    room = l;
    busy = refl;
    spare = refl;
    spare_bytes = refl;
    spare_count = refl;
    tiles = mark-Tiles h.base (h.base + h.total_size) xs ys b true t;
    bytes = rw (whole, take_block);
    counted = refl;
    pointer = refl;
    arena = (refl, refl);
    rejoin = inl (refl, refl);
  }
  | inl part ↦
      let lt : size + 48 < b.size = large part in
      let t' = split-Tiles h.base (h.base + h.total_size) size xs ys b v.fits lt t in
      record {
        taken = record b { size = size; used = true };
        rest = free_rest ∷ [];
        chain =
            rw (part, s, take_block)
              (ap (at_block b.addr (set_used true))
                  (at_block-split h.base (h.base + h.total_size) (split_in_two size) xs ys b t)
                ∙ at_block-split h.base (h.base + h.total_size) (set_used true) xs (free_rest ∷ ys)
                    (record b { size = size }) t');
        place = refl;
        room = omega arith;
        busy = refl;
        spare = refl;
        spare_bytes = refl;
        spare_count = refl;
        tiles =
            mark-Tiles h.base (h.base + h.total_size) xs (free_rest ∷ ys) (record b { size = size })
              true t';
        bytes = rw (part, take_block);
        counted = refl;
        pointer = refl;
        arena = (refl, refl);
        rejoin = inr (
          free_rest,
          refl,
          refl,
          (let k : u64 (size + u64 (sub64 (sub64 b.size size) 32 + 32)) ≡ b.size =
                omega (arith, top, lt) in
              rw k),
        );
      }
]
  where
    t : Tiles h.base (h.base + h.total_size) (xs ++ b ∷ ys)
    t = subst (Tiles h.base (h.base + h.total_size)) s v.tiles

    top : b.size + 64 < 2 ^ 64
    top =
        let (m, left, right) = Tiles-append h.base (h.base + h.total_size) xs (b ∷ ys) t in
        omega (
          arith,
          Tiles-le (m + 32 + b.size) (h.base + h.total_size) ys right.1,
          Tiles-le h.base m xs left,
          v.fits,
          v.placed,
        )

    large : ltb (u64 (size + 32 + 16)) b.size ≡ true → size + 48 < b.size
    large e = omega (arith, top, ltb→lt (u64 (size + 32 + 16)) b.size e)

    free_rest : Block
    free_rest = record {
      addr = u64 (b.addr + header_size + size);
      size = sub64 (sub64 b.size size) header_size;
      used = false;
    }

pub Taken-IsValid :
    (h : Heap) (xs ys : List Block) (b : Block) (size : ℕ) (out : Heap × ℕ)
    → IsValid h
    → h.blocks ≡ xs ++ b ∷ ys
    → b.used ≡ false
    → Taken h xs ys b size out
    → IsValid out.0
unfolding used_bytes count_used
Taken-IsValid h xs ys b size out v s u k = record {
  tiles = rw (k.arena.0, k.arena.1, k.chain) k.tiles;
  placed = rw k.arena.0 v.placed;
  fits = rw (k.arena.0, k.arena.1) v.fits;
  bytes = omega (arith, bytes_now, bytes_then, v.bytes, k.bytes, bound, v.fits);
  count = omega (arith, count_now, count_then, v.count, k.counted, count_bound, bound, v.fits);
}
  where
    open k use {taken, rest}

    bytes_now : used_bytes out.0.blocks ≡ used_bytes xs + (taken.size + 32 + used_bytes ys)
    bytes_now = rw k.chain (
        used_bytes-append xs (taken ∷ (rest ++ ys))
        ∙ ground (arith, k.busy, used_bytes-append rest ys, k.spare_bytes))

    bytes_then : used_bytes h.blocks ≡ used_bytes xs + used_bytes ys
    bytes_then = rw s (used_bytes-append xs (b ∷ ys) ∙ ground (arith, u))

    count_now : count_used out.0.blocks ≡ count_used xs + (1 + count_used ys)
    count_now = rw k.chain (
        count_used-append xs (taken ∷ (rest ++ ys))
        ∙ ground (arith, k.busy, count_used-append rest ys, k.spare_count))

    count_then : count_used h.blocks ≡ count_used xs + count_used ys
    count_then = rw s (count_used-append xs (b ∷ ys) ∙ ground (arith, u))

    bound : h.base + used_bytes out.0.blocks ≤ h.base + h.total_size
    bound =
        rw k.chain
          (used_bytes-Tiles h.base (h.base + h.total_size) (xs ++ (taken ∷ (rest ++ ys))) k.tiles)

    count_bound : count_used out.0.blocks * 32 ≤ used_bytes out.0.blocks
    count_bound = count_used-le out.0.blocks
