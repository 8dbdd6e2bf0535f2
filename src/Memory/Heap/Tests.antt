-- ===== src/Memory/Heap/Tests.antt =====
-- Runs of the heap, and the theorems at inputs that meet their hypotheses.
use qaiosplus.Base.{ℕ, ◌+◌, ◌≡◌, ◌⊎◌, refl, true, false, [], ◌∷◌, ◌++◌, some, arith}
use qaiosplus.Memory.Heap.{
  initialize, is_initialized, Block, Heap, header_size, find_free_block, find_block, allocate,
  take_block, at_block, free, release_block,
}
use qaiosplus.Memory.Heap.Tiles.{IsValid, live, used_bytes, count_used}
use qaiosplus.Memory.Heap.Allocate.{NoRoom, Adds, allocate-Adds}
use qaiosplus.Memory.Heap.Merge.{coalesced, coalesced_from}
use qaiosplus.Memory.Heap.Free.{free_removes}
use qaiosplus.Memory.Heap.Run.{allocates, call, run, run-initialize-IsValid}
use qaiosplus.Memory.Heap.RoundTrip.{free-allocate}

-- An arena of 1024 bytes in the higher half: a block of 64 bytes in use, and the rest.
abbrev start : ℕ
start = 18446744071564165120

abbrev first : Block
first = record { addr = start; size = 64; used = true }

abbrev rest : Block
rest = record { addr = start + 96; size = 896; used = false }

abbrev arena : Heap
arena = record {
  base = start;
  total_size = 1024;
  used_size = 128;
  allocation_count = 1;
  blocks = first ∷ rest ∷ [];
}

arena-IsValid : IsValid arena
unfolding used_bytes count_used
arena-IsValid = record {
  tiles = (refl, (refl, refl));
  placed = omega arith;
  fits = omega arith;
  bytes = refl;
  count = refl;
}

allocate_run : (allocate arena 100).1 ≡ start + 128
unfolding allocate find_free_block take_block
allocate_run = refl

free_run :
    free arena (start + 32)
    ≡ some (record arena {
      used_size = 32;
      allocation_count = 0;
      blocks = record { addr = start; size = 992; used = false } ∷ [];
    })
unfolding free find_block release_block at_block
free_run = refl

allocate-Adds_example :
    (NoRoom 112 arena.blocks × (allocate arena 100 ≡ (arena, 0)))
    ⊎ Adds arena (allocate arena 100).0 100 (allocate arena 100).1
allocate-Adds_example = allocate-Adds arena 100 arena-IsValid (omega arith) (omega arith)

freed : Heap
freed = record arena {
  used_size = 32;
  allocation_count = 0;
  blocks = record { addr = start; size = 992; used = false } ∷ [];
}

free_removes_example :
    (h : Heap) × (free arena (start + 32) ≡ some h)
    × (live arena.blocks ≡ live [] ++ first ∷ live (rest ∷ []))
    × (live h.blocks ≡ live [] ++ live (rest ∷ []))
    × (h.used_size + 64 + header_size ≡ 128)
    × (coalesced h.blocks ≡ true)
free_removes_example = free_removes arena [] (rest ∷ []) first arena-IsValid refl refl

free-allocate_example : free (allocate arena 100).0 (allocate arena 100).1 ≡ some arena
unfolding coalesced_from allocate find_free_block take_block
free-allocate_example = free-allocate arena 100 arena-IsValid refl (omega arith)

abbrev full : Heap
full = record {
  base = start;
  total_size = 96;
  used_size = 128;
  allocation_count = 1;
  blocks = first ∷ [];
}

full-IsValid : IsValid full
unfolding used_bytes count_used
full-IsValid = record {
  tiles = (refl, refl);
  placed = omega arith;
  fits = omega arith;
  bytes = refl;
  count = refl;
}

abbrev blank : Heap
blank = record { base = 0; total_size = 0; used_size = 0; allocation_count = 0; blocks = [] }

blank-is_initialized : is_initialized blank ≡ false
unfolding is_initialized
blank-is_initialized = refl

run-initialize-IsValid_example : IsValid (allocate (initialize blank start 1024) 100).0
unfolding run call
run-initialize-IsValid_example =
    run-initialize-IsValid blank (allocate (initialize blank start 1024) 100).0 start 1024
      (allocates 100 ∷ []) blank-is_initialized (omega arith) (omega arith) (omega arith) refl
