-- ===== src/Memory/Heap/Reallocate.antt =====
-- `reallocate` on the chain of blocks.
use qaiosplus.Base.{
  ℕ, ◌≡◌, ◌≢◌, Option, subst, none, some, arith, leb, ◌==◌, if◌then◌else◌, Bool-cases, Option-cases,
  inl, inr, sub64,
}
use qaiosplus.Memory.Heap.{
  Block, Heap, header_size, align16, find_free_block, find_block, free, allocate,
}
use qaiosplus.Memory.Heap.Tiles.{IsValid}
use qaiosplus.Memory.Heap.{with_pointer, move_block, reallocate}
use qaiosplus.Memory.Heap.Allocate.{allocate-IsValid, allocate-none}
use qaiosplus.Memory.Heap.Free.{free-IsValid}

-- What a call that succeeds leaves is valid.
abbrev Keeps : Option (Heap × ℕ) → Type 0
Keeps none = Unit {0}
Keeps (some out) = IsValid out.0

freed_Keeps : (h : Heap) (ptr q : ℕ) → IsValid h → Keeps (with_pointer (free h ptr) q)
freed_Keeps h ptr q v = elim (Option-cases (free h ptr)) [
  | inl f ↦ rw f tt
  | inr (g, f) ↦ rw f (free-IsValid h ptr g v f)
]

move_block-Keeps : (h : Heap) (ptr size : ℕ) → IsValid h → Keeps (move_block h ptr size)
unfolding move_block
move_block-Keeps h ptr size v = elim (Bool-cases ((allocate h size).1 == 0)) [
  | inl z ↦ rw (z, move_block) (allocate-IsValid h size v)
  | inr nz ↦
      rw (nz, move_block)
        (freed_Keeps (allocate h size).0 ptr (allocate h size).1 (allocate-IsValid h size v))
]

found_Keeps :
    (h : Heap) (ptr size : ℕ)
    → IsValid h
    → (found : Option Block)
    → Keeps (elim found [
      | none ↦ none
      | some b ↦ if leb size b.size then some (h, ptr) else move_block h ptr size
    ])
found_Keeps h ptr size v none = tt
found_Keeps h ptr size v (some b) = elim (Bool-cases (leb size b.size)) [
  | inl fits ↦ rw fits v
  | inr small ↦ rw small (move_block-Keeps h ptr size v)
]

reallocate-Keeps : (h : Heap) (ptr size : ℕ) → IsValid h → Keeps (reallocate h ptr size)
unfolding reallocate
reallocate-Keeps h ptr size v = elim (Bool-cases (ptr == 0)) [
  | inl z ↦ rw (z, reallocate) (allocate-IsValid h size v)
  | inr nz ↦ elim (Bool-cases (size == 0)) [
    | inl e ↦ rw (nz, e, reallocate) (freed_Keeps h ptr 0 v)
    | inr ne ↦
        rw (nz, ne, reallocate) (found_Keeps h ptr size v (find_block (sub64 ptr 32) h.blocks))
  ]
]

-- `reallocate` keeps the heap valid on every path: a null pointer, a size of 0, a block that is large
-- enough, and a block that has to move or cannot.
pub reallocate-IsValid :
    (h k : Heap) (ptr size p : ℕ) → IsValid h → reallocate h ptr size ≡ some (k, p) → IsValid k
reallocate-IsValid h k ptr size p v e = subst Keeps e (reallocate-Keeps h ptr size v)

-- While no free block is large enough `reallocate` leaves the heap as it is: the block stays where it
-- is if it has room for the new size, and 0 is returned if it has not.
pub reallocate_no_room :
    (h : Heap) (ptr size : ℕ) (b : Block)
    → ptr ≢ 0
    → size ≢ 0
    → find_block (sub64 ptr header_size) h.blocks ≡ some b
    → find_free_block (align16 size) h.blocks ≡ none
    → reallocate h ptr size ≡ some (h, if leb size b.size then ptr else 0)
unfolding reallocate move_block
reallocate_no_room h ptr size b nz ne e f = ground (arith, e, allocate-none h size f)
