-- ===== src/Memory/Heap.antt =====
-- The kernel heap, QKMemory/src/QKMemHeap.cpp. The chain of block headers from `m_firstBlock` along
-- `next` is a list of blocks, each with the address of its header; `prev` is written and never read.
-- A pointer is an address, and 0 is the null pointer. What the payloads hold is not modelled here.
pub mod Tiles
pub mod Taken
pub mod Allocate
pub mod Merge
pub mod Free
pub mod RoundTrip
pub mod Reallocate
pub mod Run
mod Tests
use qaiosplus.Base.{
  ℕ, zero, suc, ◌+◌, ◌-◌, ◌*◌, ◌/◌, Bool, true, false, not, ◌&&◌, ◌||◌, List, [], ◌∷◌, ◌++◌, Option,
  none, some, ltb, leb, ◌==◌, if◌then◌else◌, u64, sub64,
}

pub record Block : Type 0 where
  pub addr : ℕ
  pub size : ℕ
  pub used : Bool

pub record Heap : Type 0 where
  pub base : ℕ
  pub total_size : ℕ
  pub used_size : ℕ
  pub allocation_count : ℕ
  pub blocks : List Block

-- `sizeof(BlockHeader)` on x86-64: two words, a flag padded to a word, and a word.
abbrev pub header_size : ℕ
header_size = 32

abbrev pub is_empty : List Block → Bool
is_empty [] = true
is_empty (b ∷ bs) = false

unfoldable pub is_initialized : Heap → Bool
is_initialized h = not (h.total_size == 0) && not (is_empty h.blocks)

unfoldable pub initialize : Heap → ℕ → ℕ → Heap
unfolding is_initialized
initialize h base size =
    if is_initialized h then h else if (base == 0) || leb size header_size then h else record {
      base = base;
      total_size = size;
      used_size = header_size;
      allocation_count = 0;
      blocks = record { addr = base; size = size - header_size; used = false } ∷ [];
    }

-- `(size + 15) & ~15`.
abbrev pub align16 : ℕ → ℕ
align16 size = u64 (size + 15) / 16 * 16

pub find_free_block : ℕ → List Block → Option Block
find_free_block size [] = none
find_free_block size (b ∷ bs) =
    if not b.used && leb size b.size then some b else find_free_block size bs

-- The writes through a pointer to the header at `a`.
pub at_block : ℕ → (Block → List Block) → List Block → List Block
at_block a f [] = []
at_block a f (b ∷ bs) = if b.addr == a then f b ++ bs else b ∷ at_block a f bs

abbrev pub split_in_two : ℕ → Block → List Block
split_in_two size b =
    record b { size = size }
    ∷ record {
      addr = u64 (b.addr + header_size + size);
      size = sub64 (sub64 b.size size) header_size;
      used = false;
    }
    ∷ []

pub split_block : ℕ → ℕ → List Block → List Block
split_block a size bs = at_block a (split_in_two size) bs

abbrev pub set_used : Bool → Block → List Block
set_used u b = record b { used = u } ∷ []

-- `allocate` once a block is found.
pub take_block : Heap → Block → ℕ → Heap × ℕ
unfolding split_block
take_block h b size =
    let splits = ltb (u64 (size + header_size + 16)) b.size in
    let blocks = if splits then split_block b.addr size h.blocks else h.blocks in
    let kept = if splits then size else b.size in
    (
      record h {
        blocks = at_block b.addr (set_used true) blocks;
        used_size = u64 (h.used_size + u64 (kept + header_size));
        allocation_count = u64 (h.allocation_count + 1);
      },
      u64 (b.addr + header_size),
    )

-- Expansion is not implemented in the source: it logs and returns.
expand_heap : Heap → ℕ → Heap
expand_heap h size = h

pub allocate : Heap → ℕ → Heap × ℕ
unfolding take_block expand_heap
allocate h requested =
    let size = align16 requested in
    let h' = expand_heap h size in
    let retried : Heap × ℕ = elim (find_free_block size h'.blocks) [
      | none ↦ (h', 0)
      | some b ↦ take_block h' b size
    ] in
    let found : Heap × ℕ = elim (find_free_block size h.blocks) [
      | none ↦ retried
      | some b ↦ take_block h b size
    ] in
    if requested == 0 then (h, 0) else found

-- The alignment is not looked at.
pub allocate_aligned : Heap → ℕ → ℕ → Heap × ℕ
unfolding allocate
allocate_aligned h size alignment = allocate h size

abbrev pub join : Block → Block → Block
join b c = record b { size = u64 (b.size + u64 (c.size + header_size)) }

-- The loop of `mergeBlocks` from the block `b` on.
pub merge_from : Block → List Block → List Block
merge_from b [] = b ∷ []
merge_from b (c ∷ bs) =
    let joined = merge_from (join b c) bs in
    let kept = b ∷ merge_from c bs in if not b.used && not c.used then joined else kept

pub merge_blocks : List Block → List Block
unfolding merge_from
merge_blocks [] = []
merge_blocks (b ∷ bs) = merge_from b bs

pub find_block : ℕ → List Block → Option Block
find_block a [] = none
find_block a (b ∷ bs) = if b.addr == a then some b else find_block a bs

pub release_block : Heap → Block → Heap
unfolding merge_blocks
release_block h b = if not b.used then h else record h {
  blocks = merge_blocks (at_block b.addr (set_used false) h.blocks);
  used_size = sub64 h.used_size (u64 (b.size + header_size));
  allocation_count = sub64 h.allocation_count 1;
}

-- `none` is a pointer that no block of the chain has: the source reads a header that is not there.
pub free : Heap → ℕ → Option Heap
unfolding release_block find_block
free h ptr =
    let found : Option Heap = elim (find_block (sub64 ptr header_size) h.blocks) [
      | none ↦ none
      | some b ↦ some (release_block h b)
    ] in
    if ptr == 0 then some h else found

-- `totalSize - usedSize`.
pub free_size : Heap → ℕ
free_size h = sub64 h.total_size h.used_size

abbrev pub with_pointer : Option Heap → ℕ → Option (Heap × ℕ)
with_pointer none p = none
with_pointer (some k) p = some (k, p)

-- The end of `reallocate`, where the block has to move. The copy of the payload is not modelled.
move_block : Heap → ℕ → ℕ → Option (Heap × ℕ)
move_block h ptr size =
    let moved = allocate h size in
    if moved.1 == 0 then some moved else with_pointer (free moved.0 ptr) moved.1

-- `none` as for `free`.
pub reallocate : Heap → ℕ → ℕ → Option (Heap × ℕ)
unfolding move_block
reallocate h ptr size =
    let found : Option (Heap × ℕ) = elim (find_block (sub64 ptr header_size) h.blocks) [
      | none ↦ none
      | some b ↦ if leb size b.size then some (h, ptr) else move_block h ptr size
    ] in
    if ptr == 0
    then some (allocate h size)
    else if size == 0
    then with_pointer (free h ptr) 0
    else found
